-- ===== src/Queue/Budget.antt =====
-- The attempts that a job has left, and that what no claim does uses none of them.
use speakertrail.Common.{
  ℕ, ◌+◌, ◌≤◌, ◌<◌, ◌≡◌, true, false, Option, Text, inl, inr, All, All-append, arith, Option-cases,
  leb, text_eq_iff,
}
use speakertrail.Queue.Rows.{Status, queued, running, Row, update_where}
use speakertrail.Queue.Updates.{All-update_mem}
use speakertrail.Queue.Cases.{fail_cases}
use speakertrail.Queue.History.{Call, enqueues, claims, completes, fails}
use speakertrail.Queue.{
  Options, Fault, Queue, Job, NewJob, find_same, upsert, expire_leases, fail, is_held_by,
  is_expired, expired, requeued, limit, fail_limit, completed, given_up, retried,
}

-- The job with the given id, kind and key, at most m attempts, and n of them left.
module _ (o : Options) (id : ℕ) (kind key : Text) (m : ℕ) where
  abbrev pub Room : ℕ → Row → Status → Type 0
  Room n r queued = (r.attempts < m) × (m ≤ r.attempts + n)
  Room n r running = (r.attempts ≤ m) × (m ≤ r.attempts + n)
  Room n r _ = Unit

  abbrev pub HasRoom : ℕ → Row → Type 0
  HasRoom n r = r.id ≡ id → (r.kind ≡ kind) × (r.key ≡ key) × (limit o r ≡ m) × Room n r r.status

  pub record Budget (n : ℕ) (q : Queue) : Type 0 where
    pub old : id < q.next_id
    pub room : All (HasRoom n) q.rows

  -- A call that does not enqueue the job again, and fails it only with its own limit.
  abbrev pub IsRetry : Call → Type 0
  IsRetry (enqueues f now j) = ¬ ((j.kind ≡ kind) × (j.key ≡ key))
  IsRetry (claims f g now) = Unit
  IsRetry (completes f now j) = Unit
  IsRetry (fails f now j cause) = j.id ≡ id → fail_limit o j ≡ m

  pub upsert-Budget :
      (n now : ℕ) (payload : Text) (t : ℕ) (j : NewJob) (q : Queue)
      → ¬ ((j.kind ≡ kind) × (j.key ≡ key))
      → Budget n q
      → Budget n (upsert now payload t j q).0
  unfolding upsert
  upsert-Budget n now payload t j q other b = elim (Option-cases (find_same j.kind j.key q.rows)) [
    | inl e ↦
        rw (e, upsert)
          (record {
            old = omega (arith, b.old);
            room = All-append (HasRoom n) q.rows _ b.room (λ h. absurd (omega (arith, b.old)), tt);
          })
    | inr (r, e) ↦
        rw (e, upsert)
          (record {
            old = omega (arith, b.old);
            room =
                All-update_mem _ (requeued now payload t j) (HasRoom n) (HasRoom n) q.rows
                  (λ x _ p k h.
                    ground (arith, k h, other, text_eq_iff x.kind j.kind, text_eq_iff x.key j.key))
                  (λ x _ p k. k) b.room;
          })
  ]

  pub expire_leases-Budget :
      (n now : ℕ) (q : Queue)
      → Budget n q
      → Budget n (record q { rows = expire_leases o now q.rows })
  unfolding expire_leases
  expire_leases-Budget n now q b = record {
    old = b.old;
    room =
        All-update_mem (is_expired o now) (expired now) (HasRoom n) (HasRoom n) q.rows
          (λ x _ p k h. ground (arith, k h)) (λ x _ p k. k) b.room;
  }

  pub finish-Budget :
      (n : ℕ) (j : Job) (f : Row → Row) (q : Queue)
      → ((x : Row) → is_held_by j x ≡ true → HasRoom n x → HasRoom n (f x))
      → Budget n q
      → Budget n (record q { rows = update_where (is_held_by j) f q.rows })
  finish-Budget n j f q keep b = record {
    old = b.old;
    room =
        All-update_mem (is_held_by j) f (HasRoom n) (HasRoom n) q.rows (λ x _. keep x)
          (λ x _ p k. k) b.room;
  }

  pub completed-room : (n now : ℕ) (x : Row) → HasRoom n x → HasRoom n (completed now x)
  completed-room n now x k h = let fit = k h in (fit.0, fit.1, fit.2, tt)

  given_up-room : (n now : ℕ) (msg : Text) (x : Row) → HasRoom n x → HasRoom n (given_up now msg x)
  given_up-room n now msg x k h = let fit = k h in (fit.0, fit.1, fit.2, tt)

  retried-room :
      (n now : ℕ) (j : Job) (msg : Text) (wait : ℕ) (x : Row)
      → (j.id ≡ id → fail_limit o j ≡ m)
      → leb (fail_limit o j) j.attempts ≡ false
      → is_held_by j x ≡ true
      → HasRoom n x
      → HasRoom n (retried now msg wait x)
  retried-room n now j msg wait x own early held k h =
      let fit = k h in
      let same : j.id ≡ id = ground arith in
      (fit.0, fit.1, fit.2, (ground (arith, own same), ground arith))

  pub fail-Budget :
      (n : ℕ) (f : Fault) (now : ℕ) (j : Job) (cause : Option Text) (q : Queue)
      → (j.id ≡ id → fail_limit o j ≡ m)
      → Budget n q
      → Budget n (fail o f now j cause q).0
  fail-Budget n f now j cause q own b =
      fail_cases (Budget n) o f now j cause q b
        (λ msg e. finish-Budget n j (given_up now msg) q (λ x p. given_up-room n now msg x) b)
        (λ msg w e.
          finish-Budget n j (retried now msg w) q (λ x p. retried-room n now j msg w x own e p) b)
