-- ===== src/Queue/Cases.antt =====
-- Rules for the methods of queue.go: what each statement keeps, the method keeps.
use speakertrail.Common.{
  ℕ, ◌≡◌, inl, inr, true, false, Option, none, some, Text, is_empty, leb, ◌||◌, Bool-cases,
}
use speakertrail.Queue.Rows.{Row, update_where}
use speakertrail.Queue.{
  Options, Fault, Queue, Job, NewJob, Result, ok, err, encode, insert_job, enqueue, claim, complete,
  fail, upsert, expire_leases, take_next, take_job, finish, is_held_by, completed, given_up,
  retried, fail_limit,
}

-- What holds of the queue before Enqueue and after each of its statements holds after it.
insert_job_cases {ℓ} :
    (P : Queue → Type ℓ) (fault : Fault) (now : ℕ) (j : NewJob) (p : Result Text) (q : Queue)
    → P q
    → ((payload : Text) (t : ℕ) → P (upsert now payload t j q).0)
    → P (insert_job fault now j p q).0
unfolding insert_job
insert_job_cases P fault now j (err e) q h k = h
insert_job_cases P (some e) now j (ok p) q h k = h
insert_job_cases P none now j (ok p) q h k = k p _

pub enqueue_cases {ℓ} :
    (P : Queue → Type ℓ) (fault : Fault) (now : ℕ) (j : NewJob) (q : Queue)
    → P q
    → ((payload : Text) (t : ℕ) → P (upsert now payload t j q).0)
    → P (enqueue fault now j q).0
unfolding enqueue
enqueue_cases P fault now j q h k = elim (Bool-cases (is_empty j.kind || is_empty j.key)) [
  | inl e ↦ rw e h
  | inr e ↦ rw e (insert_job_cases P fault now j (encode j.payload) q h k)
]

-- The same for Claim.
take_job_cases {ℓ} :
    (P : Queue → Type ℓ) (o : Options) (fault : Fault) (now : ℕ) (q : Queue)
    → P q
    → P (record q { rows = (take_next o now q.rows).0 })
    → P (take_job o fault now q).0
unfolding take_job
take_job_cases P o (some e) now q h k = h
take_job_cases P o none now q h k = k

pub claim_cases {ℓ} :
    (P : Queue → Type ℓ) (o : Options) (f g : Fault) (now : ℕ) (q : Queue)
    → P q
    → ((q : Queue) → P q → P (record q { rows = expire_leases o now q.rows }))
    → ((q : Queue) → P q → P (record q { rows = (take_next o now q.rows).0 }))
    → P (claim o f g now q).0
unfolding claim
claim_cases P o (some e) g now q h ex tk = h
claim_cases P o none g now q h ex tk =
    take_job_cases P o g now _ (ex q h)
      (tk (record q { rows = expire_leases o now q.rows }) (ex q h))

-- The same for `finish`, which Complete and Fail end with.
finish_cases {ℓ} :
    (P : Queue → Type ℓ) (fault : Fault) (j : Job) (f : Row → Row) (q : Queue)
    → P q
    → P (record q { rows = update_where (is_held_by j) f q.rows })
    → P (finish fault j f q).0
unfolding finish
finish_cases P (some e) j f q h k = h
finish_cases P none j f q h k = k

pub complete_cases {ℓ} :
    (P : Queue → Type ℓ) (fault : Fault) (now : ℕ) (j : Job) (q : Queue)
    → P q
    → P (record q { rows = update_where (is_held_by j) (completed now) q.rows })
    → P (complete fault now j q).0
unfolding complete
complete_cases P fault now j q h k = finish_cases P fault j (completed now) q h k

pub fail_cases {ℓ} :
    (P : Queue → Type ℓ) (o : Options) (fault : Fault) (now : ℕ) (j : Job) (cause : Option Text)
    (q : Queue)
    → P q
    → ((m : Text)
        → leb (fail_limit o j) j.attempts ≡ true
        → P (record q { rows = update_where (is_held_by j) (given_up now m) q.rows }))
    → ((m : Text) (w : ℕ)
        → leb (fail_limit o j) j.attempts ≡ false
        → P (record q { rows = update_where (is_held_by j) (retried now m w) q.rows }))
    → P (fail o fault now j cause q).0
unfolding fail
fail_cases P o fault now j cause q h g r = elim (Bool-cases (leb (fail_limit o j) j.attempts)) [
  | inl e ↦ rw e (finish_cases P fault j _ q h (g _ e))
  | inr e ↦ rw e (finish_cases P fault j _ q h (r _ _ e))
]
