-- ===== src/Queue/Spent.antt =====
-- Each claim of a job uses one of the attempts that it has left.
use mathlib.Core.List.{Memᴰ}
use speakertrail.Common.{
  ℕ, zero, suc, ◌+◌, ◌≤◌, ◌<◌, ◌≡◌, ◌≢◌, none, some, List, [], ◌∷◌, ◌++◌, Text, map, inl, inr, All,
  All_at, Distinct, arith, Option-cases, if◌then◌else◌, ◌==◌,
}
use native.Mathlib.Decide.{ℕ_discrete}
use speakertrail.Queue.Rows.{Row, is_due, next_due, update_where}
use speakertrail.Queue.Updates.{same_row, All-update_mem}
use speakertrail.Queue.Budget.{
  HasRoom, Budget, IsRetry, upsert-Budget, expire_leases-Budget, finish-Budget, completed-room,
  fail-Budget,
}
use speakertrail.Queue.Cases.{enqueue_cases, complete_cases}
use speakertrail.Queue.Invariant.{IsValid, expire_leases-IsValid}
use speakertrail.Queue.Claims.{next_due-IsNext, IsClaimable, IsNext-IsClaimable}
use speakertrail.Queue.History.{
  Call, enqueues, claims, completes, fails, claimed_id, step, handed_out, claimed_ids, step-IsValid,
}
use speakertrail.Queue.{
  Options, Fault, Queue, expire_leases, take_next, take_job, claim, taken, completed,
}

-- How often an id stands in a list.
abbrev pub count_id : ℕ → List ℕ → ℕ
count_id id [] = 0
count_id id (i ∷ is) = let n = count_id id is in if i == id then suc n else n

count_id-append :
    (id : ℕ) (is js : List ℕ) → count_id id (is ++ js) ≡ count_id id is + count_id id js
count_id-append id [] js = omega arith
count_id-append id (i ∷ is) js = ground (arith, count_id-append id is js)

module _ (o : Options) (id : ℕ) (kind key : Text) (m : ℕ) where
  claimable_room :
      (n now : ℕ) (r : Row)
      → HasRoom o id kind key m n r
      → r.id ≡ id
      → IsClaimable o now r
      → (r.attempts < m) × (m ≤ r.attempts + n)
  unfolding is_due
  claimable_room n now r h e c = ground (arith, h e)

  -- The claim takes the job: one attempt fewer is left.
  take_it :
      (n now : ℕ) (rs : List Row) (r : Row)
      → Distinct (map (λ x. x.id) rs)
      → Memᴰ r rs
      → r.id ≡ id
      → r.attempts < m
      → m ≤ r.attempts + suc n
      → All (HasRoom o id kind key m (suc n)) rs
      → All (HasRoom o id kind key m n) (update_where (λ x. x.id == r.id) (taken o now) rs)
  take_it n now rs r d mem e low high a =
      All-update_mem (λ x. x.id == r.id) (taken o now) (HasRoom o id kind key m (suc n))
        (HasRoom o id kind key m n) rs
        (λ x mx p k h.
          let same : x ≡ r = same_row (λ y. y.id) rs x r d mx mem (ground arith) in
          let fit = k h in (fit.0, fit.1, fit.2, (ground (arith, same), ground (arith, same))))
        (λ x mx p k h. absurd (ground arith)) a

  -- The claim takes another job.
  take_other :
      (n now : ℕ) (rs : List Row) (r : Row)
      → r.id ≢ id
      → All (HasRoom o id kind key m n) rs
      → All (HasRoom o id kind key m n) (update_where (λ x. x.id == r.id) (taken o now) rs)
  take_other n now rs r e a =
      All-update_mem (λ x. x.id == r.id) (taken o now) (HasRoom o id kind key m n)
        (HasRoom o id kind key m n) rs (λ x mx p k h. absurd (e (ground arith))) (λ x mx p k. k) a

  -- What a call that handed out the ids `is` left of a budget of n attempts.
  record Spent (n : ℕ) (q : Queue) (is : List ℕ) : Type 0 where
    left : ℕ
    paid : left + count_id id is ≤ n
    budget : Budget o id kind key m left q

  Spent-nothing : (n : ℕ) (q : Queue) → Budget o id kind key m n q → Spent n q []
  Spent-nothing n q b = record { left = n; paid = omega arith; budget = b }

  Spent-on :
      (n now : ℕ) (q : Queue) (r : Row)
      → Distinct (map (λ x. x.id) q.rows)
      → Memᴰ r q.rows
      → (r.id ≡ id → (r.attempts < m) × (m ≤ r.attempts + n))
      → Budget o id kind key m n q
      → Spent n
          (record q { rows = update_where (λ x. x.id == r.id) (taken o now) q.rows })
          (r.id ∷ [])
  Spent-on zero now q r d mem low b = record {
    left = zero;
    paid = ground (arith, low);
    budget = record {
      old = b.old;
      room = take_other zero now q.rows r (λ e. absurd (omega (arith, low e))) b.room;
    };
  }
  Spent-on (suc n) now q r d mem low b = elim (ℕ_discrete r.id id) [
    | yes e ↦ record {
      left = n;
      paid = ground arith;
      budget = record {
        old = b.old;
        room = take_it n now q.rows r d mem e (low e).0 (low e).1 b.room;
      };
    }
    | no e ↦ record {
      left = suc n;
      paid = ground arith;
      budget = record { old = b.old; room = take_other (suc n) now q.rows r e b.room };
    }
  ]

  claim-Spent :
      (n : ℕ) (f g : Fault) (now : ℕ) (q : Queue)
      → IsValid q
      → Budget o id kind key m n q
      → Spent n (claim o f g now q).0 (claimed_id (claim o f g now q).1)
  unfolding claim take_job take_next
  claim-Spent n (some e) g now q v b = Spent-nothing n q b
  claim-Spent n none (some e) now q v b =
      Spent-nothing n _ (expire_leases-Budget o id kind key m n now q b)
  claim-Spent n none none now q v b =
      let b' = expire_leases-Budget o id kind key m n now q b in
      elim (Option-cases (next_due now (expire_leases o now q.rows))) [
        | inl e ↦ rw (e, take_next) (Spent-nothing n _ b')
        | inr (r, e) ↦
            let next = next_due-IsNext now (expire_leases o now q.rows) r e in
            let (mem, c, f) = IsNext-IsClaimable o now q.rows r next in
            rw (e, take_next)
              (Spent-on n now (record q { rows = expire_leases o now q.rows }) r
                (expire_leases-IsValid o now q v).ids_distinct next.member
                (λ h.
                  claimable_room n now r (All_at (HasRoom o id kind key m n) r q.rows b.room mem) h
                    c)
                b')
      ]

  step-Spent :
      (n : ℕ) (q : Queue) (c : Call)
      → IsRetry o id kind key m c
      → IsValid q
      → Budget o id kind key m n q
      → Spent n (step o q c) (handed_out o q c)
  unfolding step handed_out
  step-Spent n q (enqueues f now j) r v b = Spent-nothing n _ (
      enqueue_cases (Budget o id kind key m n) f now j q b
        (λ p t. upsert-Budget o id kind key m n now p t j q r b))
  step-Spent n q (claims f g now) r v b = claim-Spent n f g now q v b
  step-Spent n q (completes f now j) r v b = Spent-nothing n _ (
      complete_cases (Budget o id kind key m n) f now j q b (
        finish-Budget o id kind key m n j (completed now) q
          (λ x p. completed-room o id kind key m n now x) b))
  step-Spent n q (fails f now j cause) r v b =
      Spent-nothing n _ (fail-Budget o id kind key m n f now j cause q r b)

  pub Budget-bounds :
      (n : ℕ) (q : Queue) (cs : List Call)
      → All (IsRetry o id kind key m) cs
      → IsValid q
      → Budget o id kind key m n q
      → count_id id (claimed_ids o q cs) ≤ n
  unfolding claimed_ids
  Budget-bounds n q [] r v b = omega arith
  Budget-bounds n q (c ∷ cs) r v b =
      let s = step-Spent n q c r.0 v b in
      omega (
        arith,
        s.paid,
        count_id-append id (handed_out o q c) (claimed_ids o (step o q c) cs),
        Budget-bounds s.left (step o q c) cs r.1 (step-IsValid o q c v) s.budget,
      )
