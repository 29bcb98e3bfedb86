-- ===== src/Queue/Leases.antt =====
-- A lease: while it lasts, and its holder does not finish the job, no claim hands the job out again.
use speakertrail.Common.{
  ℕ, suc, ◌+◌, ◌≤◌, ◌<◌, ◌≡◌, ◌≢◌, refl, ap, Bool, true, none, some, List, [], ◌∷◌, Text, map, inl,
  inr, All, All-append, All_at, arith, Bool-cases, Option-cases, ◌==◌, ◌&&◌,
}
use speakertrail.Queue.Rows.{Row, is_finished, is_running, is_due, next_due, update_where}
use speakertrail.Queue.Updates.{All-update_where}
use speakertrail.Queue.Cases.{enqueue_cases, claim_cases, complete_cases, fail_cases}
use speakertrail.Queue.Invariant.{IsValid}
use speakertrail.Queue.Claims.{next_due-IsNext, claim-Picks}
use speakertrail.Queue.History.{
  Call, enqueues, claims, completes, fails, claimed_id, step, handed_out, claimed_ids,
}
use speakertrail.Queue.{
  Options, Fault, Queue, Job, NewJob, ok, find_same, upsert, expire_leases, take_next, take_job,
  claim, is_held_by, is_same, is_expired, expired, taken, requeued,
}

module _ (id until : ℕ) where
  -- The row of the job, if there is one, runs with a lease until then.
  abbrev pub IsHeld : Row → Type 0
  IsHeld r = r.id ≡ id → (is_running r.status ≡ true) × (r.locked_until ≡ some until)

  pub record Holds (q : Queue) : Type 0 where
    pub old : id < q.next_id
    pub held : All IsHeld q.rows

  -- A call that comes within the lease and does not finish the job.
  abbrev pub IsQuiet : Call → Type 0
  IsQuiet (enqueues f now j) = Unit
  IsQuiet (claims f g now) = now ≤ until
  IsQuiet (completes f now j) = j.id ≢ id
  IsQuiet (fails f now j cause) = j.id ≢ id

  -- An UPDATE that does not touch the job.
  Holds-update :
      (p : Row → Bool) (f : Row → Row) (q : Queue)
      → ((x : Row) → (f x).id ≡ x.id)
      → ((x : Row) → p x ≡ true → IsHeld x → x.id ≢ id)
      → Holds q
      → Holds (record q { rows = update_where p f q.rows })
  Holds-update p f q same other h = record {
    old = h.old;
    held =
        All-update_where p f IsHeld q.rows (λ x e k n. absurd (other x e k (rw same at n))) h.held;
  }

  upsert-Holds :
      (now : ℕ) (payload : Text) (t : ℕ) (j : NewJob) (q : Queue)
      → Holds q
      → Holds (upsert now payload t j q).0
  unfolding upsert
  upsert-Holds now payload t j q h = elim (Option-cases (find_same j.kind j.key q.rows)) [
    | inl e ↦
        rw (e, upsert)
          (record {
            old = omega (arith, h.old);
            held = All-append IsHeld q.rows _ h.held (λ n. absurd (omega (arith, h.old)), tt);
          })
    | inr (r, e) ↦
        rw (e, upsert)
          (Holds-update (λ x. is_same j.kind j.key x && is_finished x.status)
            (requeued now payload t j) (record q { next_id = suc q.next_id }) (λ x. refl)
            (λ x p k n. ground (arith, k n)) (record { old = omega (arith, h.old); held = h.held }))
  ]

  expire_leases-Holds :
      (o : Options) (now : ℕ) (q : Queue)
      → now ≤ until
      → Holds q
      → Holds (record q { rows = expire_leases o now q.rows })
  unfolding expire_leases
  expire_leases-Holds o now q w h =
      Holds-update (is_expired o now) (expired now) q (λ x. refl) (λ x p k n. ground (arith, k n)) h

  not_due : (now : ℕ) (r : Row) → now ≤ until → IsHeld r → is_due now r ≡ true → r.id ≢ id
  unfolding is_due
  not_due now r w k d n = ground (arith, k n)

  -- The job that a claim takes is another one.
  take_next_other :
      (o : Options) (now : ℕ) (rs : List Row) (r : Row)
      → now ≤ until
      → All IsHeld rs
      → next_due now rs ≡ some r
      → r.id ≢ id
  take_next_other o now rs r w h e =
      let n = next_due-IsNext now rs r e in not_due now r w (All_at IsHeld r rs h n.member) n.due

  take_next-Holds :
      (o : Options) (now : ℕ) (q : Queue)
      → now ≤ until
      → Holds q
      → Holds (record q { rows = (take_next o now q.rows).0 })
  unfolding take_next
  take_next-Holds o now q w h = elim (Option-cases (next_due now q.rows)) [
    | inl e ↦ rw (e, take_next) h
    | inr (r, e) ↦
        let other = take_next_other o now q.rows r w h.held e in
        rw (e, take_next)
          (Holds-update (λ x. x.id == r.id) (taken o now) q (λ x. refl)
            (λ x p k n. other (ground arith)) h)
  ]

  finish-Holds :
      (j : Job) (f : Row → Row) (q : Queue)
      → ((x : Row) → (f x).id ≡ x.id)
      → j.id ≢ id
      → Holds q
      → Holds (record q { rows = update_where (is_held_by j) f q.rows })
  finish-Holds j f q same other h =
      Holds-update (is_held_by j) f q same (λ x p k n. other (ground arith)) h

  step-Holds : (o : Options) (q : Queue) (c : Call) → IsQuiet c → Holds q → Holds (step o q c)
  unfolding step
  step-Holds o q (enqueues f now j) w h =
      enqueue_cases Holds f now j q h (λ p t. upsert-Holds now p t j q h)
  step-Holds o q (claims f g now) w h =
      claim_cases Holds o f g now q h (λ q h. expire_leases-Holds o now q w h)
        (λ q h. take_next-Holds o now q w h)
  step-Holds o q (completes f now j) w h =
      complete_cases Holds f now j q h (finish-Holds j _ q (λ x. refl) w h)
  step-Holds o q (fails f now j cause) w h =
      fail_cases Holds o f now j cause q h (λ m e. finish-Holds j _ q (λ x. refl) w h)
        (λ m t e. finish-Holds j _ q (λ x. refl) w h)

  take_job_other :
      (o : Options) (f g : Fault) (now : ℕ) (q : Queue)
      → now ≤ until
      → Holds q
      → All (λ i. i ≢ id) (claimed_id (claim o f g now q).1)
  unfolding claim take_job take_next
  take_job_other o (some e) g now q w h = tt
  take_job_other o none (some e) now q w h = tt
  take_job_other o none none now q w h =
      elim (Option-cases (next_due now (expire_leases o now q.rows))) [
        | inl e ↦ rw (e, take_next) tt
        | inr (r, e) ↦
            rw (e, take_next)
              (take_next_other o now _ r w (expire_leases-Holds o now q w h).held e, tt)
      ]

  handed_out_other :
      (o : Options) (q : Queue) (c : Call)
      → IsQuiet c
      → Holds q
      → All (λ i. i ≢ id) (handed_out o q c)
  unfolding handed_out
  handed_out_other o q (enqueues f now j) w h = tt
  handed_out_other o q (claims f g now) w h = take_job_other o f g now q w h
  handed_out_other o q (completes f now j) w h = tt
  handed_out_other o q (fails f now j cause) w h = tt

  Holds-not_claimed :
      (o : Options) (q : Queue) (cs : List Call)
      → All IsQuiet cs
      → Holds q
      → All (λ i. i ≢ id) (claimed_ids o q cs)
  unfolding claimed_ids
  Holds-not_claimed o q [] w h = tt
  Holds-not_claimed o q (c ∷ cs) w h =
      All-append (λ i. i ≢ id) (handed_out o q c) _ (handed_out_other o q c w.0 h)
        (Holds-not_claimed o (step o q c) cs w.1 (step-Holds o q c w.0 h))

-- Every row with the id that a claim took runs with the claim's lease.
taken-IsHeld :
    (o : Options) (now id : ℕ) (rs : List Row)
    → All (IsHeld id (now + o.lease)) (update_where (λ x. x.id == id) (taken o now) rs)
taken-IsHeld o now id [] = tt
taken-IsHeld o now id (x ∷ rs) = (
  elim (Bool-cases (x.id == id)) [
    | inl e ↦ rw e (λ _. (refl, refl))
    | inr e ↦ rw e (λ h. absurd (ground arith))
  ],
  taken-IsHeld o now id rs,
)

next_id-claim :
    (o : Options) (now : ℕ) (q q' : Queue) (j : Job)
    → claim o none none now q ≡ (q', ok (some j))
    → q'.next_id ≡ q.next_id
unfolding claim take_job
next_id-claim o now q q' j e = ground arith

pub of_map :
    (n : ℕ) (rs : List Row) → All (λ i. i < n) (map (λ r. r.id) rs) → All (λ r. r.id < n) rs
of_map n [] h = tt
of_map n (r ∷ rs) h = (h.0, of_map n rs h.1)

claim-Holds :
    (o : Options) (now : ℕ) (q q' : Queue) (j : Job)
    → IsValid q
    → claim o none none now q ≡ (q', ok (some j))
    → Holds j.id (now + o.lease) q'
claim-Holds o now q q' j v e =
    let p = claim-Picks o now q q' j e in
    let same_id : j.id ≡ p.row.id = ap (λ (k : Job). k.id) p.job in
    let below =
      All_at (λ r. r.id < q.next_id) p.row q.rows (of_map q.next_id q.rows v.ids_below) p.member in
    record {
      old = rw same_id (rw next below);
      held = rw (same_id, p.after) (taken-IsHeld o now p.row.id (expire_leases o now q.rows));
    }
  where
    next : q'.next_id ≡ q.next_id
    next = next_id-claim o now q q' j e

-- While the lease of a claimed job lasts and nobody finishes it, no claim of any worker hands it out
-- again, whatever else happens in between: other claims, also failing ones, new jobs, and results of
-- other jobs.
pub no_double_claim :
    (o : Options) (now : ℕ) (q q' : Queue) (j : Job) (cs : List Call)
    → IsValid q
    → claim o none none now q ≡ (q', ok (some j))
    → All (IsQuiet j.id (now + o.lease)) cs
    → All (λ i. i ≢ j.id) (claimed_ids o q' cs)
no_double_claim o now q q' j cs v e w =
    Holds-not_claimed j.id (now + o.lease) o q' cs w (claim-Holds o now q q' j v e)
