-- ===== src/Ledger/Actors.antt =====
-- Who is known, and what an inbound message may change about an actor.
use mutsumi_s_sync.Common.{
  ℕ, ◌≡◌, refl, ◌&&◌, Option, none, some, inl, inr, Bool-cases, List, [], ◌∷◌, arith, if◌then◌else◌,
}
use mutsumi_s_sync.Common.{Text, text_eq, text_eq_iff, text_eq_refl}
use mutsumi_s_sync.Ledger.{
  ActorRecord, Ledger, find_actor, get_actor, upsert_actor, ensure_actor, given_or, is_none,
  set_profile, update_actor_profile,
}

-- The row of an actor after an upsert: what the platform says is new, what was curated is kept.
abbrev pub refreshed : ℕ → ActorRecord → Option ActorRecord → ActorRecord
refreshed now actor none = record actor { updated_at = now }
refreshed now actor (some old) = record actor {
  private_alias = old.private_alias;
  relationship = old.relationship;
  updated_at = now;
}

upsert_actor-find :
    (now : ℕ) (actor : ActorRecord) (id : Text) (actors : List ActorRecord)
    → find_actor id (upsert_actor now actor actors) ≡ (
        if text_eq actor.actor_id id
        then some (refreshed now actor (find_actor actor.actor_id actors))
        else find_actor id actors)
unfolding find_actor upsert_actor
upsert_actor-find now actor id [] = refl
upsert_actor-find now actor id (a ∷ actors) = ground (
  arith,
  upsert_actor-find now actor id actors,
  text_eq_iff a.actor_id actor.actor_id,
  text_eq_iff a.actor_id id,
  text_eq_iff actor.actor_id id,
)

-- Seeing an actor again takes over its name and platform, keeps the alias and the relationship that
-- were curated, returns the stored row, and leaves every other actor alone.
pub ensure_actor_lem :
    (now : ℕ) (actor : ActorRecord) (ledger : Ledger)
    → let row = refreshed now actor (get_actor actor.actor_id ledger) in
      ((ensure_actor now actor ledger).0 ≡ row)
      × ((id : Text)
          → get_actor id (ensure_actor now actor ledger).1
            ≡ (if text_eq actor.actor_id id then some row else get_actor id ledger))
unfolding ensure_actor get_actor
ensure_actor_lem now actor ledger = (
  rw (upsert_actor-find now actor actor.actor_id ledger.actors, ensure_actor)
      (rw (text_eq_refl actor.actor_id)),
  λ id. upsert_actor-find now actor id ledger.actors,
)

-- What a profile update does to a row.
abbrev pub profiled : ℕ → Option Text → Option Text → Option ActorRecord → Option ActorRecord
profiled now private_alias relationship none = none
profiled now private_alias relationship (some a) = some (record a {
  private_alias = given_or private_alias a.private_alias;
  relationship = given_or relationship a.relationship;
  updated_at = now;
})

set_profile-find :
    (now : ℕ) (actor_id id : Text) (alias relationship : Option Text) (actors : List ActorRecord)
    → find_actor id (set_profile now actor_id alias relationship actors) ≡ (
        if text_eq actor_id id
        then profiled now alias relationship (find_actor id actors)
        else find_actor id actors)
unfolding find_actor set_profile
set_profile-find now actor_id id alias relationship [] = ground arith
set_profile-find now actor_id id alias relationship (a ∷ actors) = ground (
  arith,
  set_profile-find now actor_id id alias relationship actors,
  text_eq_iff a.actor_id actor_id,
  text_eq_iff a.actor_id id,
  text_eq_iff actor_id id,
)

-- A profile update stores the given texts stripped at its own actor, if there is one, keeps a
-- column that is not given, and returns what is stored; without a given text nothing changes.
pub update_actor_profile_lem :
    (now : ℕ) (actor_id : Text) (alias relationship : Option Text) (ledger : Ledger)
    → let (result, after) = update_actor_profile now actor_id alias relationship ledger in
      (result ≡ get_actor actor_id after)
      × ((id : Text)
          → get_actor id after ≡ (
              if text_eq actor_id id
              then (if is_none alias && is_none relationship
                  then get_actor id ledger
                  else profiled now alias relationship (get_actor id ledger))
              else get_actor id ledger))
unfolding update_actor_profile get_actor
update_actor_profile_lem now actor_id alias relationship ledger =
    elim (Bool-cases (is_none alias && is_none relationship)) [
      | inl e ↦ (rw e, λ id. rw e (ground arith))
      | inr e ↦
          (rw e, λ id. rw e (set_profile-find now actor_id id alias relationship ledger.actors))
    ]
