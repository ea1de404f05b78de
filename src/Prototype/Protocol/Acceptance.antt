-- ===== src/Prototype/Protocol/Acceptance.antt =====
-- Which replies of archive/v3/src/mutsumi_sync/prototype/protocol.py are accepted.
use mutsumi_s_sync.Common.{
  ℕ, suc, ◌≤◌, true, false, ◌||◌, Option, none, some, List, [], ◌∷◌, ◌≡◌, refl, ap, ◌∙◌, arith,
  subst, text_eq_iff,
}
use mutsumi_s_sync.Common.{
  Text, codes, text_eq, text_eq_refl, strip, contains, is_empty, length, ltb, All, Result, ok, err,
}
use mutsumi_s_sync.Json.{Json, str, arr, obj, Items, nil, cons, end, field, text_items}
use mutsumi_s_sync.Envelope.{
  FinalEnvelope, self_close, user_close, parse_final_envelope, format_final_envelope,
  OutputProtocolError,
}
use mutsumi_s_sync.Envelope.RoundTrip.{parse-format}
use mutsumi_s_sync.Pipeline.Markdown.{unsupported_markdown_features}
use mutsumi_s_sync.Prototype.Protocol.{
  Reply, ReplyError, has_marker, is_unique, are_unique, has_name, check_message, check_messages,
  count_items, check_payload, parse_payload, parse_reply,
}

-- A message that may be sent.
abbrev pub IsSendable : ℕ → Text → Type 0
IsSendable max_chars message =
    (is_empty (strip message) ≡ false)
    × (length message ≤ max_chars)
    × (has_marker message ≡ false)
    × (unsupported_markdown_features message ≡ [])

accepted_text : (n : ℕ) (t m : Text) → check_message n (str t) ≡ ok m → IsSendable n t × (t ≡ m)
unfolding check_message
accepted_text n t m h = ground arith

check_message_sound :
    (n : ℕ) (x : Json) (m : Text) → check_message n x ≡ ok m → IsSendable n m × (x ≡ str m)
unfolding check_message
check_message_sound n (str t) m h =
    let (good, same) = accepted_text n t m h in (subst (λ x. IsSendable n x) same good, ap str same)
check_message_sound n x m h = ground arith

check_message_complete : (n : ℕ) (m : Text) → IsSendable n m → check_message n (str m) ≡ ok m
unfolding check_message
check_message_complete n m h = ground arith

check_messages_sound :
    (n : ℕ) (xs : Items) (ms : List Text)
    → check_messages n xs ≡ ok ms
    → All (IsSendable n) ms × (xs ≡ text_items ms) × (count_items xs ≡ length ms)
unfolding check_messages count_items
check_messages_sound n nil [] h = (tt, refl, refl)
check_messages_sound n nil (m ∷ ms) h = ground arith
check_messages_sound n (cons x xs) ms h =
    by_first (check_messages_sound n xs) (check_message n x) refl
  where
    by_rest :
        (m : Text) (r : Result ReplyError (List Text))
        → ((rest : List Text)
            → check_messages n xs ≡ ok rest
            → All (IsSendable n) rest × (xs ≡ text_items rest) × (count_items xs ≡ length rest))
        → check_message n x ≡ ok m
        → check_messages n xs ≡ r
        → All (IsSendable n) ms × (cons x xs ≡ text_items ms) × (suc (count_items xs) ≡ length ms)
    by_rest m (err e) ih f g = ground arith
    by_rest m (ok rest) ih f g =
        let same : m ∷ rest ≡ ms = ground arith in
        let (good, shown) = check_message_sound n x m f in
        let (all_good, all_shown, counted) = ih rest g in
        subst
          (λ l.
            All (IsSendable n) l × (cons x xs ≡ text_items l) × (suc (count_items xs) ≡ length l))
          same ((good, all_good), (λ i. cons (shown i) (all_shown i)), ap suc counted)

    by_first :
        ((rest : List Text)
          → check_messages n xs ≡ ok rest
          → All (IsSendable n) rest × (xs ≡ text_items rest) × (count_items xs ≡ length rest))
        → (r : Result ReplyError Text) → check_message n x ≡ r
        → All (IsSendable n) ms × (cons x xs ≡ text_items ms) × (suc (count_items xs) ≡ length ms)
    by_first ih (err e) f = ground arith
    by_first ih (ok m) f = by_rest m (check_messages n xs) ih f refl

check_messages_complete :
    (n : ℕ) (ms : List Text) → All (IsSendable n) ms → check_messages n (text_items ms) ≡ ok ms
unfolding check_messages
check_messages_complete n [] h = refl
check_messages_complete n (m ∷ ms) (h, hs) =
    let first = check_message_complete n m h in
    let rest = check_messages_complete n ms hs in ground arith

count_items-text_items : (ms : List Text) → count_items (text_items ms) ≡ length ms
unfolding count_items
count_items-text_items [] = refl
count_items-text_items (m ∷ ms) = ap suc (count_items-text_items ms)

abbrev pub payload_of : List Text → Json
payload_of ms = obj (field (codes "messages") (arr (text_items ms)) end)

check_array_sound :
    (n k : ℕ) (key : Text) (xs : Items) (ms : List Text)
    → check_payload n k (obj (field key (arr xs) end)) ≡ ok ms
    → (text_eq key (codes "messages") ≡ true) × (count_items xs ≤ n) × (check_messages k xs ≡ ok ms)
unfolding check_payload
check_array_sound n k key xs ms h = ground arith

check_payload_sound :
    (n k : ℕ) (p : Json) (ms : List Text)
    → check_payload n k p ≡ ok ms
    → All (IsSendable k) ms × (length ms ≤ n) × (p ≡ payload_of ms)
unfolding check_payload
check_payload_sound n k (obj (field key (arr xs) end)) ms h =
    let (named, few, checked) = check_array_sound n k key xs ms h in
    let (good, shown, counted) = check_messages_sound k xs ms checked in
    let is_key = (text_eq_iff key (codes "messages")).0 named in
    (good, subst (λ c. c ≤ n) counted few, λ i. obj (field (is_key i) (arr (shown i)) end))
check_payload_sound n k (obj (field key v end)) ms h = ground arith
check_payload_sound n k (obj fs) ms h = ground arith
check_payload_sound n k p ms h = ground arith

check_payload_complete :
    (n k : ℕ) (ms : List Text)
    → All (IsSendable k) ms
    → length ms ≤ n
    → check_payload n k (payload_of ms) ≡ ok ms
unfolding check_payload
check_payload_complete n k ms h few =
    let checked = check_messages_complete k ms h in
    let counted = count_items-text_items ms in
    let named = text_eq_refl (codes "messages") in ground arith

are_unique-text_items : (ms : List Text) → are_unique (text_items ms) ≡ true
unfolding is_unique
are_unique-text_items [] = refl
are_unique-text_items (m ∷ ms) = are_unique-text_items ms

is_unique-payload_of : (ms : List Text) → is_unique (payload_of ms) ≡ true
unfolding is_unique has_name
is_unique-payload_of ms = rw (are_unique-text_items ms) refl

module _ (loads : Text → Option Json) where
  parse_payload_sound :
      (n k : ℕ) (text : Text) (ms : List Text)
      → parse_payload loads n k text ≡ ok ms
      → All (IsSendable k) ms × (length ms ≤ n) × (loads text ≡ some (payload_of ms))
  unfolding parse_payload
  parse_payload_sound n k text ms h = by_value (loads text) refl
    where
      by_value :
          (o : Option Json)
          → loads text ≡ o
          → All (IsSendable k) ms × (length ms ≤ n) × (loads text ≡ some (payload_of ms))
      by_value none e = ground arith
      by_value (some p) e =
          let checked : check_payload n k p ≡ ok ms = ground arith in
          let (good, few, shown) = check_payload_sound n k p ms checked in
          (good, few, e ∙ ap some shown)

  parse_payload_complete :
      (n k : ℕ) (text : Text) (ms : List Text)
      → loads text ≡ some (payload_of ms)
      → All (IsSendable k) ms
      → length ms ≤ n
      → parse_payload loads n k text ≡ ok ms
  unfolding parse_payload
  parse_payload_complete n k text ms read good few =
      let checked = check_payload_complete n k ms good few in
      let unique = is_unique-payload_of ms in ground arith

  abbrev pub Accepted : Text → ℕ → ℕ → Reply → Type 0
  Accepted content n k r =
      (e : FinalEnvelope) × (parse_final_envelope content true ≡ ok e)
      × (has_marker e.to_self || has_marker e.to_user ≡ false)
      × (r.to_self ≡ e.to_self)
      × (loads e.to_user ≡ some (payload_of r.messages))
      × All (IsSendable k) r.messages
      × (length r.messages ≤ n)

  -- A reply that is accepted is that of a strict envelope without markers inside, whose second part
  -- is read as an object with nothing but the messages; there are at most as many messages as
  -- allowed, and each is nonblank, plain text without markers and not longer than allowed.
  pub parse_reply_sound :
      (content : Text) (n k : ℕ) (r : Reply)
      → parse_reply loads content n k ≡ ok r
      → Accepted content n k r
  unfolding parse_reply
  parse_reply_sound content n k r h = by_envelope (parse_final_envelope content true) refl
    where
      by_payload :
          (e : FinalEnvelope) (p : Result ReplyError (List Text))
          → parse_final_envelope content true ≡ ok e
          → parse_payload loads n k e.to_user ≡ p
          → Accepted content n k r
      by_payload e (err x) f g = ground arith
      by_payload e (ok ms) f g =
          let clean : has_marker e.to_self || has_marker e.to_user ≡ false = ground arith in
          let (good, few, shown) = parse_payload_sound n k e.to_user ms g in
          let same_self : r.to_self ≡ e.to_self = ground arith in
          let same : ms ≡ r.messages = ground arith in
          (
            e,
            f,
            clean,
            same_self,
            shown ∙ ap (λ l. some (payload_of l)) same,
            subst (λ l. All (IsSendable k) l) same good,
            subst (λ l. length l ≤ n) same few,
          )

      by_envelope :
          (e : Result OutputProtocolError FinalEnvelope)
          → parse_final_envelope content true ≡ e
          → Accepted content n k r
      by_envelope (err x) f = ground arith
      by_envelope (ok e) f = by_payload e (parse_payload loads n k e.to_user) f refl

  -- An envelope written from a note and from the text of admissible messages, both without markers,
  -- is read back as the note, stripped, and the messages, for limits of at least one.
  pub parse_reply-format :
      (to_self to_user : Text) (n k : ℕ) (ms : List Text)
      → 1 ≤ n
      → 1 ≤ k
      → has_marker (strip to_self) ≡ false
      → has_marker (strip to_user) ≡ false
      → loads (strip to_user) ≡ some (payload_of ms)
      → All (IsSendable k) ms
      → length ms ≤ n
      → parse_reply loads (format_final_envelope to_self to_user) n k
        ≡ ok (record { to_self = strip to_self; messages = ms })
  unfolding parse_reply
  parse_reply-format to_self to_user n k ms some_messages some_chars clean_self clean_user read good
        few =
      let no_self : contains self_close (strip to_self) ≡ false = ground arith in
      let no_user : contains user_close (strip to_user) ≡ false = ground arith in
      let parsed = parse-format to_self to_user true no_self no_user in
      let limits : ltb n 1 || ltb k 1 ≡ false = ground arith in
      let payload : parse_payload loads n k (strip to_user) ≡ ok ms =
        parse_payload_complete n k (strip to_user) ms read good few in
      rw (limits, parsed, clean_self, clean_user, payload) refl
