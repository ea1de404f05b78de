-- ===== src/Scheduler/Heartbeats.antt =====
-- The heartbeats of archive/v3/src/mutsumi_sync/scheduler.py: `_heartbeat_loop`,
-- `run_heartbeat_once` and `_run_heartbeat_for_conversation`, whose pipeline is a parameter.
-- Times are natural numbers of a tenth of a second.
use mutsumi_s_sync.Common.{
  ℕ, ◌+◌, ◌-◌, ◌*◌, ◌≤◌, Bool, true, false, not, ◌&&◌, ◌||◌, Option, none, some, List, [], ◌∷◌,
  ◌++◌, ◌≡◌, ◌⊎◌, arith,
}
use mutsumi_s_sync.Common.{Text, codes, text_eq, any, leb, starts_with, if◌then◌else◌, All}
use mutsumi_s_sync.Common.{Dict, map}
use mutsumi_s_sync.Ledger.{Ledger, has_unanswered_proactive}
use mutsumi_s_sync.Scheduler.Keys.{Peer, peer_from_key, split_key}

-- `_select_heartbeat_key`; `windows` are the keys of `_windows`.
unfoldable pub select_heartbeat_key : Bool → Option Text → List Text → Text
select_heartbeat_key aggressive last_active windows =
    let first = elim windows as (λ x. Text) [ [] ↦ codes "private:heartbeat" | key ∷ keys ↦ key ] in
    if aggressive
    then elim last_active [
      | none ↦ first
      | some key ↦ if any (λ k. text_eq k key) windows && not (text_eq key []) then key else first
    ]
    else codes "private:heartbeat"

-- A row of `get_recent_active_conversations`.
pub record Candidate : Type 0 where
  pub conversation_id : Text
  pub actor_id : Text
  pub actor_name : Text

-- What the pipeline of a heartbeat is given besides what all heartbeats have in common.
pub record Heartbeat : Type 0 where
  pub peer : Peer
  pub group_key : Text
  pub conversation_id : Text
  pub actor_id : Text
  pub actor_name : Text
  pub allow_visible_output : Bool

-- `str.rsplit(":", 1)[-1]`
unfoldable pub last_part : List Text → Text
last_part [] = []
last_part (part ∷ []) = part
last_part (part ∷ next ∷ parts) = last_part (next ∷ parts)

unfoldable pub heartbeat_for : Candidate → Bool → Heartbeat
unfolding last_part peer_from_key
heartbeat_for c waiting_for_reply = record {
  peer = peer_from_key c.conversation_id;
  group_key =
      if starts_with c.conversation_id (codes "group:") && starts_with c.actor_id (codes "qq:user:")
      then c.conversation_id ++ (codes ":" ++ last_part (split_key c.actor_id))
      else c.conversation_id;
  conversation_id = c.conversation_id;
  actor_id = c.actor_id;
  actor_name = c.actor_name;
  allow_visible_output = not waiting_for_reply;
}

-- A task of `_tasks` is done or not.
pub data Task : Type 0 where
  ended going : Task

-- What a round reads and writes: the entries of `_tasks`, the keys of `_windows`, the ledger, and
-- the rest of the program.
pub record World (R : Type 0) : Type 0 where
  pub tasks : Dict (Option Task)
  pub windows : List Text
  pub ledger : Ledger
  pub rest : R

-- `task and not task.done()`
abbrev is_going : Text × Option Task → Bool
is_going (key, some going) = true
is_going (key, _) = false

-- `any(task and not task.done() for task in self._tasks.values())`
abbrev pub is_active : {R : Type 0} → World R → Bool
is_active w = any is_going w.tasks

-- `_ensure_user_state`
abbrev ensure_window : {R : Type 0} → Text → World R → World R
ensure_window key w = record w {
  windows = if any (λ k. text_eq k key) w.windows then w.windows else w.windows ++ key ∷ [];
}

-- A heartbeat that began: its candidate, and the state in which it did.
pub record Beat (R : Type 0) : Type 0 where
  pub candidate : Candidate
  pub world : World R

abbrev pub candidate_of : {R : Type 0} → Beat R → Candidate
candidate_of b = b.candidate

-- `read` is the query for the candidates and `others` the other tasks while the ledger is read;
-- `pipeline` runs the heartbeat, and whatever else happens meanwhile.
module _ {R : Type 0} (read : World R → List Candidate × World R) (others : World R → World R)
    (pipeline : Heartbeat → World R → World R) where
  -- `_run_heartbeat_for_conversation`
  unfoldable pub run_heartbeat : Candidate → World R → World R
  unfolding heartbeat_for has_unanswered_proactive
  run_heartbeat c w =
      let known = ensure_window c.conversation_id w in
      let beat = heartbeat_for c (has_unanswered_proactive c.conversation_id known.ledger) in
      pipeline beat (others known)

  -- The loop over the candidates, with the heartbeats that began.
  unfoldable pub run_candidates : List Candidate → World R → List (Beat R) × World R
  run_candidates [] w = ([], w)
  run_candidates (c ∷ cs) w =
      let later = run_candidates cs (run_heartbeat c w) in
      if is_active w then ([], w) else (record { candidate = c; world = w } ∷ later.0, later.1)

  -- `run_heartbeat_once`
  unfoldable pub run_heartbeat_once : World R → List (Beat R) × World R
  unfolding run_candidates
  run_heartbeat_once w = if is_active w then ([], w) else run_candidates (read w).0 (read w).1

  -- What the loop does with the candidates `cs`: it takes them one after another, and leaves some
  -- only if a pipeline of a user runs.
  abbrev pub IsOrderly : List Candidate → List (Beat R) × World R → Type 0
  IsOrderly cs result =
      All (λ b. is_active (b.world) ≡ false) result.0
      × ((left : List Candidate) × (cs ≡ map candidate_of result.0 ++ left)
          × ((left ≡ []) ⊎ (is_active result.1 ≡ true)))

-- `next_private` and `next_group`
pub record Clock : Type 0 where
  pub next_private : ℕ
  pub next_group : ℕ

-- `max(60, …)` seconds
abbrev interval : ℕ → ℕ
interval seconds = if leb 60 seconds then seconds * 10 else 600

-- What the loop sleeps before its next round.
unfoldable pub heartbeat_delay : ℕ → Clock → ℕ
heartbeat_delay now c =
    let next = if leb c.next_private c.next_group then c.next_private else c.next_group in
    if leb 1 (next - now) then next - now else 1

-- A round of `_heartbeat_loop` that wakes at `now`: which batches it starts, and the times after.
-- The private batch is over at `between`, and the group's at `later`.
unfoldable pub heartbeat_round : ℕ → ℕ → ℕ → ℕ → ℕ → Clock → Bool × Bool × Clock
heartbeat_round private_seconds group_seconds now between later c =
    let private_due = leb c.next_private now in
    let group_due = leb c.next_group now in
    (
      private_due,
      group_due,
      record {
        next_private = if private_due then between + interval private_seconds else c.next_private;
        next_group = if group_due then later + interval group_seconds else c.next_group;
      },
    )

-- A round that wakes after its delay starts a batch, and a batch that it starts is not due again for
-- sixty seconds.
pub heartbeat_round_lem :
    (private_seconds group_seconds now woken between later : ℕ) (c : Clock)
    → now + heartbeat_delay now c ≤ woken
    → woken ≤ between
    → between ≤ later
    → let r = heartbeat_round private_seconds group_seconds woken between later c in
      (r.0 || r.1 ≡ true)
      × ((r.0 ≡ false) ⊎ (woken + 600 ≤ r.2.next_private))
      × ((r.1 ≡ false) ⊎ (woken + 600 ≤ r.2.next_group))
unfolding heartbeat_delay heartbeat_round
heartbeat_round_lem private_seconds group_seconds now woken between later c slept before after =
    (ground arith, ground arith, ground arith)
