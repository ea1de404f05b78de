-- ===== src/Store/State.antt =====
-- The bot's state, with a version that every write raises.
use mutsumi_s_sync.Common.{ℕ, ◌+◌, ◌≡◌, refl, Option, none, some, List, if◌then◌else◌}
use mutsumi_s_sync.Common.{Text, text_eq, text_eq_refl, Dict, get, put, remove, get-put, get-remove}

pub record CanonicalState : Type 0 where
  pub content : Text
  pub source_event_ids : List Text
  pub version : ℕ
  pub updated_at : ℕ

-- The table, by its primary key `state_key`.
abbrev pub States : Type 0
States = Dict CanonicalState

unfoldable pub get_canonical_state : Text → States → Option CanonicalState
unfolding get
get_canonical_state state_key states = get state_key states

abbrev version_of : Option CanonicalState → ℕ
version_of none = 0
version_of (some s) = s.version

unfoldable pub upsert_canonical_state : ℕ → Text → Text → List Text → States → ℕ × States
unfolding get_canonical_state put
upsert_canonical_state now state_key content source_event_ids states =
    let version = version_of (get_canonical_state state_key states) + 1 in
    (
      version,
      put state_key
          (record {
            content = content;
            source_event_ids = source_event_ids;
            version = version;
            updated_at = now;
          })
          states,
    )

unfoldable pub clear_canonical_state : Text → States → States
unfolding remove
clear_canonical_state state_key states = remove state_key states

abbrev pub versions : ℕ → Text → Text → List Text → States → CanonicalState
versions now state_key content ids states = record {
  content = content;
  source_event_ids = ids;
  version = version_of (get_canonical_state state_key states) + 1;
  updated_at = now;
}

-- A write returns the version after the one that was stored, or 1, stores the content under it at
-- its own key, and leaves every other key as it was.
pub upsert_canonical_state_lem :
    (now : ℕ) (key content : Text) (ids : List Text) (states : States) (other : Text)
    → let (version, after) = upsert_canonical_state now key content ids states in
      (version ≡ (versions now key content ids states).version)
      × (get_canonical_state other after ≡ (
          if text_eq key other
          then some (versions now key content ids states)
          else get_canonical_state other states))
unfolding upsert_canonical_state get_canonical_state
upsert_canonical_state_lem now key content ids states other =
    (refl, get-put key other (versions now key content ids states) states)

-- Clearing removes the state of its key alone, and the next write starts at version 1.
pub clear_canonical_state_lem :
    (now : ℕ) (key content : Text) (ids : List Text) (states : States) (other : Text)
    → (get_canonical_state other (clear_canonical_state key states)
        ≡ (if text_eq key other then none else get_canonical_state other states))
      × ((upsert_canonical_state now key content ids (clear_canonical_state key states)).0 ≡ 1)
unfolding clear_canonical_state get_canonical_state upsert_canonical_state
clear_canonical_state_lem now key content ids states other =
    (get-remove key other states, rw (get-remove key key states, text_eq_refl key))
