-- ===== src/Scheduler/Keys.antt =====
-- The keys of conversations, and whom a key addresses.
use mutsumi_s_sync.Common.{
  ℕ, ◌==◌, ◌≡◌, refl, Bool, true, false, not, ◌⊎◌, inl, inr, Option, none, some, List, [], ◌∷◌,
  ◌++◌, arith, Bool-cases,
}
use mutsumi_s_sync.Common.{Text, codes, text_eq, all, if◌then◌else◌}
use mutsumi_s_sync.Json.{Json, str, get_or_null, truthy}
use mutsumi_s_sync.Message.{MessageEvent}

-- `Peer` of message/sender.py
pub record Peer : Type 0 where
  pub chat_type : ℕ
  pub peer_uid : Text

-- `event.message_type == "group" and event.group_id`
unfoldable pub group_of : MessageEvent → Option Text
group_of event = if text_eq event.message_type (codes "group") then event.group_id else none

unfoldable pub make_key : MessageEvent → Text
unfolding group_of
make_key event =
    if event.is_service then codes "service:" ++ event.user_id else elim (group_of event) [
      | some id ↦ codes "group:" ++ id
      | none ↦ codes "private:" ++ event.user_id
    ]

unfoldable pub actor_id : MessageEvent → Text
actor_id event =
    if event.is_service
    then codes "service:" ++ event.user_id
    else codes "qq:user:" ++ event.user_id

abbrev or_json : Json → Json → Json
or_json a b = if truthy a then a else b

unfoldable pub actor_name : (Json → Text) → MessageEvent → Text
unfolding truthy get_or_null
actor_name to_str event = to_str (
    or_json (get_or_null (codes "card") event.sender)
      (or_json (get_or_null (codes "nickname") event.sender) (str event.user_id)))

unfoldable pub storage_key : MessageEvent → Text
unfolding group_of
storage_key event =
    if event.is_service then codes "service:" ++ event.user_id else elim (group_of event) [
      | some id ↦ codes "group:" ++ (id ++ (codes ":" ++ event.user_id))
      | none ↦ codes "private:" ++ event.user_id
    ]

unfoldable pub make_peer : MessageEvent → Peer
unfolding group_of
make_peer event = elim (group_of event) [
  | some id ↦ record { chat_type = 2; peer_uid = id }
  | none ↦ record { chat_type = 1; peer_uid = event.user_id }
]

abbrev prepend : ℕ → List Text → List Text
prepend c [] = (c ∷ []) ∷ []
prepend c (part ∷ parts) = (c ∷ part) ∷ parts

-- `key.split(":")`
unfoldable pub split_key : Text → List Text
split_key [] = [] ∷ []
split_key (c ∷ t) = let rest = split_key t in if c == b':' then [] ∷ rest else prepend c rest

peer_of_parts : List Text → Peer
peer_of_parts (kind ∷ uid ∷ more) =
    if text_eq kind (codes "group")
    then record { chat_type = 2; peer_uid = uid }
    else if text_eq kind (codes "private")
    then record { chat_type = 1; peer_uid = uid }
    else record { chat_type = 1; peer_uid = codes "heartbeat" }
peer_of_parts _ = record { chat_type = 1; peer_uid = codes "heartbeat" }

unfoldable pub peer_from_key : Text → Peer
unfolding split_key peer_of_parts
peer_from_key key = peer_of_parts (split_key key)

-- `":".join(parts[:2]) if len(parts) >= 3 and parts[0] == "group" else gk`
conversation_of_parts : Text → List Text → Text
conversation_of_parts gk (kind ∷ id ∷ third ∷ more) =
    if text_eq kind (codes "group") then kind ++ (codes ":" ++ id) else gk
conversation_of_parts gk _ = gk

unfoldable pub conversation_of_storage : Text → Text
unfolding split_key conversation_of_parts
conversation_of_storage gk = conversation_of_parts gk (split_key gk)

abbrev pub has_no_colon : Text → Bool
has_no_colon t = all (λ c. not (c == b':')) t

split_key-one : (t : Text) → has_no_colon t ≡ true → split_key t ≡ t ∷ []
unfolding split_key
split_key-one [] h = refl
split_key-one (c ∷ t) h = elim (Bool-cases (c == b':')) [
  | inl e ↦ absurd (ground arith)
  | inr e ↦ rw (split_key-one t (ground arith), e)
]

split_key-two :
    (t u : Text) → has_no_colon t ≡ true → split_key (t ++ (codes ":" ++ u)) ≡ t ∷ split_key u
unfolding split_key
split_key-two [] u h = refl
split_key-two (c ∷ t) u h = elim (Bool-cases (c == b':')) [
  | inl e ↦ absurd (ground arith)
  | inr e ↦ rw (split_key-two t u (ground arith), e)
]

peer_from_key-private :
    (uid : Text)
    → has_no_colon uid ≡ true
    → peer_from_key (codes "private:" ++ uid) ≡ record { chat_type = 1; peer_uid = uid }
unfolding peer_from_key peer_of_parts split_key text_eq
peer_from_key-private uid h = rw (split_key-one uid h)

peer_from_key-group :
    (id : Text)
    → has_no_colon id ≡ true
    → peer_from_key (codes "group:" ++ id) ≡ record { chat_type = 2; peer_uid = id }
unfolding peer_from_key peer_of_parts split_key text_eq
peer_from_key-group id h = rw (split_key-one id h)

conversation-private :
    (uid : Text)
    → has_no_colon uid ≡ true
    → conversation_of_storage (codes "private:" ++ uid) ≡ codes "private:" ++ uid
unfolding conversation_of_storage conversation_of_parts split_key
conversation-private uid h = rw (split_key-one uid h)

conversation-group :
    (id uid : Text)
    → has_no_colon id ≡ true
    → has_no_colon uid ≡ true
    → conversation_of_storage (codes "group:" ++ (id ++ (codes ":" ++ uid))) ≡ codes "group:" ++ id
unfolding conversation_of_storage conversation_of_parts split_key text_eq
conversation-group id uid h k = rw (split_key-two id uid h, split_key-one uid k)

module _ (event : MessageEvent) (chat : event.is_service ≡ false)
    (user : has_no_colon event.user_id ≡ true) where
  peer-private : group_of event ≡ none → peer_from_key (make_key event) ≡ make_peer event
  unfolding make_key make_peer
  peer-private e = rw (chat, e, make_key, make_peer) (peer_from_key-private event.user_id user)

  peer-group :
      (id : Text)
      → has_no_colon id ≡ true
      → group_of event ≡ some id
      → peer_from_key (make_key event) ≡ make_peer event
  unfolding make_key make_peer
  peer-group id h e = rw (chat, e, make_key, make_peer) (peer_from_key-group id h)

  storage-private :
      group_of event ≡ none → conversation_of_storage (storage_key event) ≡ make_key event
  unfolding make_key storage_key
  storage-private e = rw (chat, e, make_key, storage_key) (conversation-private event.user_id user)

  storage-group :
      (id : Text)
      → has_no_colon id ≡ true
      → group_of event ≡ some id
      → conversation_of_storage (storage_key event) ≡ make_key event
  unfolding make_key storage_key
  storage-group id h e =
      rw (chat, e, make_key, storage_key) (conversation-group id event.user_id h user)

-- A heartbeat and a restart know a conversation by its keys only, and find it: for an event of a
-- chat, in a group whose id holds no colon or in none, and from a user whose id holds none, the
-- peer read from its key is its peer, and the conversation read from its storage key is its key.
pub make_key_lem :
    (event : MessageEvent) (id : Text)
    → event.is_service ≡ false
    → has_no_colon event.user_id ≡ true
    → has_no_colon id ≡ true
    → (group_of event ≡ none) ⊎ (group_of event ≡ some id)
    → (peer_from_key (make_key event) ≡ make_peer event)
      × (conversation_of_storage (storage_key event) ≡ make_key event)
make_key_lem event id chat user h (inl e) =
    (peer-private event chat user e, storage-private event chat user e)
make_key_lem event id chat user h (inr e) =
    (peer-group event chat user id h e, storage-group event chat user id h e)
