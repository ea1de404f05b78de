-- ===== src/Prototype/Worker/Failures.antt =====
-- How often a tool is started by the worker of archive/v3/src/mutsumi_sync/prototype/runtime.py, and
-- which tools.
use mutsumi_s_sync.Common.{
  ℕ, zero, suc, ◌+◌, ◌≤◌, true, false, ◌||◌, none, some, List, [], ◌∷◌, ◌≡◌, refl, ◌⊎◌, inl, inr,
  arith, ap, sym, ◌∙◌,
}
use mutsumi_s_sync.Common.{
  Text, codes, text_eq, text_eq_iff, starts_with, leb, if◌then◌else◌, Result, ok, err, get, get-put,
  Bool-cases,
}
use mutsumi_s_sync.Jobs.{JobError}
use mutsumi_s_sync.Prototype.Tasks.{Work, Call}
use mutsumi_s_sync.Prototype.Worker.{
  Shop, Outside, Executed, returned, timed_out, Acted, blocked, interrupted_action, raised,
  answered, Gate, go_round, skipped, count_failure, unavailable, stopped_after_failures, may_start,
  failures_of, worker_gate, start_action, finish_action, run_action, worker_action, run_call,
  run_calls, add_message, tool_result,
}

-- How often a tool was started.
abbrev pub count_starts : Text → List Text → ℕ
count_starts name [] = 0
count_starts name (t ∷ ts) = (if text_eq t name then 1 else 0) + count_starts name ts

-- The rest of the program neither starts worker tools nor counts their failures.
pub record LeavesAlone (o : Outside) : Type 0 where
  pub opened_failures :
      (s : Shop) (n : Text) → failures_of n (o.opened s).work ≡ failures_of n s.work
  pub opened_log : (s : Shop) → (o.opened s).log ≡ s.log
  pub execute_failures :
      (call : Call) (s : Shop) (n : Text)
      → failures_of n (o.execute call s).1.work ≡ failures_of n s.work
  pub execute_log : (call : Call) (s : Shop) → (o.execute call s).1.log ≡ s.log

-- The tool returns, and what it returns is an error.
abbrev pub AlwaysFails : Outside → Text → Type 0
AlwaysFails o name =
    (call : Call) (s : Shop)
    → call.name ≡ name
    → (text : Text) × ((o.execute call s).0 ≡ returned text)
      × (starts_with text (codes "[Error:") ≡ true)

start_action-parts :
    (call : Call) (s : Shop) (n : Text)
    → let after = (start_action call s).1 in
      (failures_of n after.work ≡ failures_of n s.work)
      × (((start_action call s).0 ≡ ok tt) × (after.log ≡ call.name ∷ s.log)
          ⊎ (after.log ≡ s.log) × ((e : JobError) × ((start_action call s).0 ≡ err e)))
unfolding start_action
start_action-parts call s n = ground arith

-- The failures of a tool after a result of a call, from those before.
abbrev next_failures : Call → Executed → Text → ℕ → ℕ
next_failures call timed_out n before = before
next_failures call (returned text) n before =
    if text_eq call.name n
    then (if starts_with text (codes "[Error:") then suc before else 0)
    else before

count_failure-next :
    (call : Call) (text n : Text) (w : Work)
    → failures_of n (count_failure call.name text w)
      ≡ next_failures call (returned text) n (failures_of n w)
count_failure-next call text n w = elim (Bool-cases (text_eq call.name n)) [
  | inl e ↦
      let same : failures_of call.name w ≡ failures_of n w =
        ap (λ x. failures_of x w) ((text_eq_iff call.name n).0 e) in
      ground (
        arith,
        get-put call.name n
            (if starts_with text (codes "[Error:") then suc (failures_of call.name w) else 0)
            w.failures,
      )
  | inr e ↦ ground (
    arith,
    get-put call.name n
        (if starts_with text (codes "[Error:") then suc (failures_of call.name w) else 0)
        w.failures,
  )
]

finish_action-parts :
    (call : Call) (x : Executed) (s : Shop) (n : Text)
    → let after = (finish_action call x s).1 in
      (after.log ≡ s.log)
      × (failures_of n after.work ≡ next_failures call x n (failures_of n s.work))
unfolding finish_action
finish_action-parts call timed_out s n = (ground arith, ground arith)
finish_action-parts call (returned text) s n =
    let kept : (finish_action call (returned text) s).1.work.failures
        ≡ (count_failure call.name text s.work).failures =
      ground arith in
    (
      ground arith,
      ap (λ d. elim (get {V = ℕ} n d) as (λ x. ℕ) [ none ↦ 0 | some k ↦ k ]) kept
          ∙ count_failure-next call text n s.work,
    )

gate-few :
    (o : Outside) (call : Call) (s : Shop)
    → worker_gate o.has_tool call.name s ≡ may_start
    → leb 3 (failures_of call.name s.work) ≡ false
unfolding worker_gate
gate-few o call s e = ground arith

module _ (o : Outside) (alone : LeavesAlone o) (n : Text) where
  -- From a state to a later one: the bound on the failures is kept, and for a tool that always
  -- fails the starts are the failures that are counted.
  record Fair (s t : Shop) : Type 0 where
    bounded : failures_of n s.work ≤ 3 → failures_of n t.work ≤ 3
    started :
        AlwaysFails o n
        → count_starts n t.log + failures_of n s.work ≡ count_starts n s.log + failures_of n t.work

  alike-Fair : (s t : Shop) → failures_of n t.work ≡ failures_of n s.work → t.log ≡ s.log → Fair s t
  alike-Fair s t f l = record {
    bounded = λ b. ground arith;
    started = λ always. λ i. count_starts n (l i) + sym f i;
  }

  through : (s t u : Shop) → Fair s t → Fair t u → Fair s u
  through s t u p q = record {
    bounded = λ b. q.bounded (p.bounded b);
    started = λ always. ground (arith, p.started always, q.started always);
  }

  round-Fair :
      (call : Call) (x : Executed) (s t : Shop)
      → failures_of n t.work ≡ next_failures call x n (failures_of n s.work)
      → t.log ≡ call.name ∷ s.log
      → leb 3 (failures_of call.name s.work) ≡ false
      → (AlwaysFails o n
          → call.name ≡ n
          → (text : Text) × (x ≡ returned text) × (starts_with text (codes "[Error:") ≡ true))
      → Fair s t
  round-Fair call x s t f l few fails = elim (Bool-cases (text_eq call.name n)) [
    | inl e ↦
        let same = (text_eq_iff call.name n).0 e in
        let counts : failures_of call.name s.work ≡ failures_of n s.work =
          ap (λ y. failures_of y s.work) same in
        record {
          bounded = λ b. ground arith;
          started = λ always.
              let (text, is, failed) = fails always same in
              let more : failures_of n t.work ≡ suc (failures_of n s.work) = ground arith in
              let logged : count_starts n t.log ≡ suc (count_starts n s.log) = ground arith in
              ground arith;
        }
    | inr e ↦
        let logged : count_starts n t.log ≡ count_starts n s.log = ground arith in
        let kept : failures_of n t.work ≡ failures_of n s.work = ground arith in
        record { bounded = λ b. ground arith; started = λ always. ground arith }
  ]

  run_action-Fair :
      (call : Call) (s : Shop)
      → leb 3 (failures_of call.name s.work) ≡ false
      → Fair s (run_action o call s).1
  unfolding run_action
  run_action-Fair call s few = by_start (start_action call s).0 refl
    where
      by_start :
          (r : Result JobError (Unit {0}))
          → (start_action call s).0 ≡ r
          → Fair s (run_action o call s).1
      by_start (err x) e =
          let parts = start_action-parts call s n in
          rw (e, run_action) (alike-Fair s (start_action call s).1 (ground arith) (ground arith))
      by_start (ok u) e =
          let begun = (start_action call s).1 in
          let result = (o.execute call begun).0 in
          let later = (o.execute call begun).1 in
          let parts = start_action-parts call s n in
          let (same_log, next) = finish_action-parts call result later n in
          rw (e, run_action)
            (round-Fair call result s (finish_action call result later).1
              (ground (arith, alone.execute_failures call begun n))
              (ground (arith, alone.execute_log call begun)) few
              (λ always same. always call begun same))

  worker_action-Fair :
      (rounds : ℕ) (call : Call) (s : Shop) → Fair s (worker_action rounds o call s).1
  unfolding worker_action
  worker_action-Fair zero call s = alike-Fair s s refl refl
  worker_action-Fair (suc rounds) call s =
      by_gate (worker_action-Fair rounds call (o.opened s))
        (worker_gate o.has_tool call.name (o.opened s)) refl
    where
      waited : Fair s (o.opened s)
      waited = alike-Fair s (o.opened s) (alone.opened_failures s n) (alone.opened_log s)

      by_gate :
          Fair (o.opened s) (worker_action rounds o call (o.opened s)).1
          → (g : Gate) → worker_gate o.has_tool call.name (o.opened s) ≡ g
          → Fair s (worker_action (suc rounds) o call s).1
      by_gate ih go_round e =
          rw (e, worker_action)
            (through s (o.opened s) (worker_action rounds o call (o.opened s)).1 waited ih)
      by_gate ih skipped e = rw (e, worker_action) waited
      by_gate ih unavailable e = rw (e, worker_action) waited
      by_gate ih stopped_after_failures e = rw (e, worker_action) waited
      by_gate ih may_start e =
          rw (e, worker_action)
            (through s (o.opened s) (run_action o call (o.opened s)).1 waited
              (run_action-Fair call (o.opened s) (gate-few o call (o.opened s) e)))

  run_call-Fair : (rounds : ℕ) (call : Call) (s : Shop) → Fair s (run_call rounds o call s).1
  unfolding run_call
  run_call-Fair rounds call s = elim (Bool-cases (s.work.restart || s.work.stop)) [
    | inl e ↦ rw e (alike-Fair s s refl refl)
    | inr e ↦ elim (Bool-cases (o.cut s)) [
      | inl cut ↦ rw (e, cut) (worker_action-Fair rounds call s)
      | inr going ↦ rw (e, going) (worker_action-Fair rounds call s)
    ]
  ]

  run_calls-Fair :
      (rounds : ℕ) (calls : List Call) (s : Shop) → Fair s (run_calls rounds o calls s).1
  unfolding run_calls
  run_calls-Fair rounds [] s = alike-Fair s s refl refl
  run_calls-Fair rounds (call ∷ calls) s =
      by_done (λ text. run_calls-Fair rounds calls (shown text)) (run_call rounds o call s).0 refl
    where
      after : Shop
      after = (run_call rounds o call s).1

      shown : Text → Shop
      shown text = add_message (tool_result call.id text) after

      by_done :
          ((text : Text) → Fair (shown text) (run_calls rounds o calls (shown text)).1)
          → (a : Acted) → (run_call rounds o call s).0 ≡ a
          → Fair s (run_calls rounds o (call ∷ calls) s).1
      by_done ih blocked e = rw (e, run_calls) (run_call-Fair rounds call s)
      by_done ih interrupted_action e = rw (e, run_calls) (run_call-Fair rounds call s)
      by_done ih (raised x) e = rw (e, run_calls) (run_call-Fair rounds call s)
      by_done ih (answered text) e =
          let told = alike-Fair after (shown text) refl refl in
          let rest =
            through after (shown text) (run_calls rounds o calls (shown text)).1 told (ih text) in
          rw (e, run_calls)
            (through s after (run_calls rounds o calls (shown text)).1 (run_call-Fair rounds call s)
              rest)

  -- The count of consecutive failures stays at most three.
  pub failures_bounded :
      (rounds : ℕ) (calls : List Call) (s : Shop)
      → failures_of n s.work ≤ 3
      → failures_of n (run_calls rounds o calls s).1.work ≤ 3
  failures_bounded rounds calls s b = (run_calls-Fair rounds calls s).bounded b

  -- A tool that always returns an error is started at most three times, less the failures already
  -- counted, over any list of calls, given that the other tasks neither start worker tools nor
  -- count their failures.
  pub failing_tool_starts :
      (rounds : ℕ) (calls : List Call) (s : Shop)
      → AlwaysFails o n
      → failures_of n s.work ≤ 3
      → count_starts n (run_calls rounds o calls s).1.log + failures_of n s.work
        ≤ count_starts n s.log + 3
  failing_tool_starts rounds calls s always b =
      let fair = run_calls-Fair rounds calls s in
      let bound = fair.bounded b in let equal = fair.started always in ground arith
