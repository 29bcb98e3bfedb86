-- ===== src/Queue/Stale.antt =====
-- A worker whose lease ran out before its job was enqueued again.
use mathlib.Core.List.{Memᴰ}
use speakertrail.Common.{
  ℕ, ◌+◌, ◌<◌, ◌≤◌, Option, ◌≡◌, refl, sym, ap, ◌∙◌, ==_iff, Bool, true, false, none, some, List,
  inl, inr, All, All_at, arith,
}
use speakertrail.Queue.Rows.{Row, done}
use speakertrail.Queue.Invariant.{IsValid, key_of, enqueue-IsValid, claim-IsValid}
use speakertrail.Queue.Enqueues.{find_same-IsFound, enqueue-Enqueued}
use speakertrail.Queue.Finish.{complete-Finished}
use speakertrail.Queue.Claims.{claim-Picks}
use speakertrail.Queue.{
  Options, Fault, Queue, Job, NewJob, Result, ok, enqueue, claim, complete, finish, is_held_by,
  completed, taken,
}
use speakertrail.Queue.History.{Call, run, run_from-IsValid}
use speakertrail.Queue.Updates.{same_row}

-- Complete knows a worker by the job's id and attempt alone.
pub complete_same :
    (f : Fault) (t : ℕ) (i j : Job) (q : Queue)
    → i.id ≡ j.id
    → i.attempts ≡ j.attempts
    → complete f t i q ≡ complete f t j q
unfolding complete finish
complete_same none t i j q e h = rw (e, h)
complete_same (some x) t i j q e h = refl

All-not :
    (j : Job) (rs : List Row) (r : Row)
    → All (λ x. is_held_by j x ≡ false) rs
    → Memᴰ r rs
    → is_held_by j r ≡ true
    → ⊥
All-not j rs r a m h = cc (All_at (λ x. is_held_by j x ≡ false) r rs a m, h)

-- Complete stores a row as done for a worker whose attempt some row runs under.
done_for_holder :
    (now : ℕ) (j : Job) (q : Queue) (held : Row)
    → is_held_by j held ≡ true
    → Memᴰ held q.rows
    → (r : Row) × (is_held_by j r ≡ true)
      × Memᴰ (completed now r) (complete none now j q).0.rows
      × ((complete none now j q).1 ≡ ok tt)
done_for_holder now j q held h m = elim (complete-Finished now j q) [
  | inl (none_held, _) ↦ absurd (All-not j q.rows held none_held m h)
  | inr (r, _, k, st, fine) ↦ (r, k, st, fine)
]

-- Complete answers the worker of `old` as it does the worker of `j`: without an error, and with the row
-- of that job stored as done.
abbrev pub AnswersAs : Job → Job → ℕ → Queue → Type 0
AnswersAs old j now q =
    (complete none now old q ≡ complete none now j q)
    × ((complete none now old q).1 ≡ ok tt)
    × ((r : Row) × Memᴰ r (complete none now old q).0.rows × (r.id ≡ j.id) × (r.status ≡ done))

module _ (o : Options) (f : Fault) (t u : ℕ) (new : NewJob) (q q₁ q₂ : Queue) (j : Job) where
  -- The job that a claim hands out right after it was enqueued is at its first attempt.
  first_attempt :
      IsValid q
      → enqueue f t new q ≡ (q₁, ok true)
      → claim o none none u q₁ ≡ (q₂, ok (some j))
      → j.kind ≡ new.kind
      → j.key ≡ new.key
      → j.attempts ≡ 1
  first_attempt v e c k l =
      let valid : IsValid q₁ =
        rw (ap (λ (x : Queue × Result Bool). x.0) e) at (enqueue-IsValid f t new q v) in
      let entry = enqueue-Enqueued f t new q q₁ true e in
      let found = find_same-IsFound new.kind new.key q₁.rows entry.row entry.found in
      let pick = claim-Picks o u q₁ q₂ j c in
      let same : pick.row ≡ entry.row =
        same_row key_of q₁.rows pick.row entry.row valid.keys_distinct pick.member found.member
          (ground (arith, pick.job, found.kind_eq, found.key_eq)) in
      ground (arith, pick.job, same, (entry.fresh refl).attempts)

  -- A job of that id at its first attempt is the one that holds the row now.
  known_as_holder :
      (old : Job) (now : ℕ)
      → IsValid q
      → enqueue f t new q ≡ (q₁, ok true)
      → claim o none none u q₁ ≡ (q₂, ok (some j))
      → j.kind ≡ new.kind
      → j.key ≡ new.key
      → old.id ≡ j.id
      → old.attempts ≡ 1
      → AnswersAs old j now q₂
  known_as_holder old now v e c k l same once =
      let first = first_attempt v e c k l in
      let pick = claim-Picks o u q₁ q₂ j c in
      let held : is_held_by old (taken o u pick.row) ≡ true =
        ground (arith, pick.job, (==_iff pick.row.id old.id).1) in
      let (r, h, st, fine) = done_for_holder now old q₂ (taken o u pick.row) held pick.stored in
      (
        complete_same none now old j q₂ same (once ∙ sym first),
        fine,
        (completed now r, st, ground (arith, h, (==_iff r.id old.id).0, same), refl),
      )

-- A result is told apart by the job's id and attempt alone, and enqueueing a job again starts its
-- attempts anew. So let a worker take the first attempt of a job and work past its lease, while any
-- other calls are made, and let the job be enqueued anew after that and be handed to another worker.
-- The first worker's result is then recorded: Complete does for it what it does for the worker that
-- holds the job now, is no error, and stores the job as done.
pub stale_result_recorded :
    (o : Options) (s : ℕ) (q₀ qa : Queue) (old : Job)
    → IsValid q₀
    → claim o none none s q₀ ≡ (qa, ok (some old))
    → old.attempts ≡ 1
    → (cs : List Call) (f : Fault) (t : ℕ) (new : NewJob) (q₁ : Queue) → s + o.lease < t
    → enqueue f t new (run o qa cs) ≡ (q₁, ok true)
    → old.kind ≡ new.kind
    → old.key ≡ new.key
    → (u : ℕ) (q₂ : Queue) (j : Job) → t ≤ u
    → claim o none none u q₁ ≡ (q₂, ok (some j))
    → j.id ≡ old.id
    → j.kind ≡ new.kind
    → j.key ≡ new.key
    → (now : ℕ) → u ≤ now
    → AnswersAs old j now q₂
stale_result_recorded o s q₀ qa old v c₀ once cs f t new q₁ _ e _ _ u q₂ j _ c same k l now _ =
    let valid : IsValid qa =
      rw (ap (λ (x : Queue × Result (Option Job)). x.0) c₀) at (claim-IsValid o none none s q₀ v) in
    known_as_holder o f t u new (run o qa cs) q₁ q₂ j old now (run_from-IsValid o qa cs valid) e c k
      l (sym same) once
