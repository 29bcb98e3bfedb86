-- ===== src/Queue/Finish.antt =====
-- Complete and Fail: a result is recorded exactly while the worker still holds the job.
use mathlib.Core.List.{Memᴰ}
use speakertrail.Common.{
  ℕ, zero, suc, ◌+◌, ◌≡◌, refl, Bool, true, false, none, some, List, [], ◌∷◌, Text, ◌⊎◌, inl, inr,
  All, if◌then◌else◌, ltb, leb, arith, Bool-cases,
}
use speakertrail.Queue.Rows.{Row, update_where, count_where, queued, failed}
use speakertrail.Queue.Updates.{mem_updated}
use speakertrail.Queue.{
  Options, Queue, Job, Result, ok, err, lost_lease, finish, complete, fail, completed, given_up,
  retried, backoff, is_held_by, fail_limit,
}

module _ (p : Row → Bool) (f : Row → Row) where
  update_none : (rs : List Row) → count_where p rs ≡ 0 → update_where p f rs ≡ rs
  update_none [] e = refl
  update_none (r ∷ rs) e = ground (arith, update_none rs)

  none_of_count : (rs : List Row) → count_where p rs ≡ 0 → All (λ r. p r ≡ false) rs
  none_of_count [] e = tt
  none_of_count (r ∷ rs) e = (ground arith, none_of_count rs (ground arith))

  some_of_count :
      (rs : List Row) (n : ℕ) → count_where p rs ≡ suc n → (r : Row) × Memᴰ r rs × (p r ≡ true)
  some_of_count [] n e = absurd (omega arith)
  some_of_count (r ∷ rs) n e = elim (Bool-cases (p r)) [
    | inl h ↦ (r, Memᴰ.head refl, h)
    | inr h ↦ let (x, m, k) = some_of_count rs n (ground arith) in (x, Memᴰ.tail m, k)
  ]

-- What finishing a job did: the table is as it was and the lease is lost, or a row that the worker
-- still held now has the form f.
abbrev pub Finished : Job → (Row → Row) → Queue → Queue × Result (Unit {0}) → Type 0
Finished j f q out =
    (All (λ r. is_held_by j r ≡ false) q.rows × (out ≡ (q, err (lost_lease j.id))))
    ⊎ ((r : Row) × Memᴰ r q.rows
        × (is_held_by j r ≡ true)
        × Memᴰ (f r) out.0.rows
        × (out.1 ≡ ok tt))

finish-Finished : (j : Job) (f : Row → Row) (q : Queue) → Finished j f q (finish none j f q)
unfolding finish
finish-Finished j f q = go (count_where (is_held_by j) q.rows) refl
  where
    go : (n : ℕ) → count_where (is_held_by j) q.rows ≡ n → Finished j f q (finish none j f q)
    go zero e =
        inl (none_of_count (is_held_by j) f q.rows e, rw (e, update_none (is_held_by j) f q.rows e))
    go (suc n) e =
        let (r, m, h) = some_of_count (is_held_by j) f q.rows n e in
        inr (r, m, h, mem_updated (is_held_by j) f r q.rows m h, rw e (ground arith))

-- Complete reports the lost lease, and changes nothing, exactly where no row runs under the worker's
-- attempt; otherwise it stores that row as done and is no error.
pub complete-Finished :
    (now : ℕ) (j : Job) (q : Queue) → Finished j (completed now) q (complete none now j q)
unfolding complete
complete-Finished now j q = finish-Finished j (completed now) q

-- The form that Fail gives a row: failed on the last attempt, and queued after the backoff before.
abbrev pub failed_row : Options → ℕ → Job → Text → Row → Row
failed_row o now j msg r =
    if ltb j.attempts (fail_limit o j)
    then record r {
      status = queued;
      locked_until = none;
      last_error = msg;
      run_after = now + backoff o j.attempts;
      updated_at = now;
    }
    else record r { status = failed; locked_until = none; last_error = msg; updated_at = now }

-- Fail does the same with the form of a failed attempt, and keeps the cause.
pub fail-Finished :
    (o : Options) (now : ℕ) (j : Job) (msg : Text) (q : Queue)
    → Finished j (failed_row o now j msg) q (fail o none now j (some msg) q)
unfolding fail
fail-Finished o now j msg q = elim (Bool-cases (leb (fail_limit o j) j.attempts)) [
  | inl e ↦
      let e' : ltb j.attempts (fail_limit o j) ≡ false = ground arith in
      rw (e, e') (finish-Finished j (given_up now msg) q)
  | inr e ↦
      let e' : ltb j.attempts (fail_limit o j) ≡ true = ground arith in
      rw (e, e') (finish-Finished j (retried now msg (backoff o j.attempts)) q)
]
