-- ===== src/Queue/Claims.antt =====
-- What Claim hands out: the due job that stands first by run_after and id.
use mathlib.Core.List.{Memᴰ}
use speakertrail.Common.{
  ℕ, ◌<◌, All-weaken, All_at, ◌≡◌, refl, true, false, Option, none, some, List, [], ◌∷◌, All, ◌==◌,
  arith, inl, inr, Bool-cases, Option-cases, ==_iff,
}
use speakertrail.Queue.Rows.{Row, is_running, is_due, next_due, is_before, update_where}
use speakertrail.Queue.Updates.{mem-update_where, All-of-update_where, mem_updated}
use speakertrail.Queue.{
  Options, Queue, Job, ok, claim, take_next, take_job, expire_leases, taken, limit, is_expired,
  expired, job_of,
}

-- No due row of the list stands before r.
abbrev pub IsFirst : ℕ → Row → List Row → Type 0
IsFirst now r = All λ x. is_due now x ≡ true → is_before x r ≡ false

module _ (now : ℕ) where
  IsFirst-weaken :
      (r b : Row) (rs : List Row) → is_before b r ≡ false → IsFirst now b rs → IsFirst now r rs
  IsFirst-weaken r b [] h f = tt
  IsFirst-weaken r b (x ∷ rs) h f =
      (λ d. let e : is_before x b ≡ false = f.0 d in ground arith, IsFirst-weaken r b rs h f.1)

  IsFirst-of_none : (r : Row) (rs : List Row) → next_due now rs ≡ none → IsFirst now r rs
  unfolding next_due
  IsFirst-of_none r [] e = tt
  IsFirst-of_none r (x ∷ rs) e = (λ d. ground arith, IsFirst-of_none r rs (ground arith))

  -- The row that the inner SELECT returns.
  pub record IsNext (rs : List Row) (r : Row) : Type 0 where
    pub member : Memᴰ r rs
    pub due : is_due now r ≡ true
    pub first : IsFirst now r rs

  is_before_irrefl : (r : Row) → is_before r r ≡ false
  is_before_irrefl r = ground arith

  is_before_asym : (a b : Row) → is_before a b ≡ true → is_before b a ≡ false
  is_before_asym a b h = ground arith

  IsNext-of_tail :
      (x r : Row) (rs : List Row)
      → (is_due now x ≡ true → is_before x r ≡ false)
      → IsNext rs r
      → IsNext (x ∷ rs) r
  IsNext-of_tail x r rs h n = record {
    member = Memᴰ.tail n.member;
    due = n.due;
    first = (h, n.first);
  }

  IsNext-of_head :
      (x : Row) (rs : List Row) → is_due now x ≡ true → IsFirst now x rs → IsNext (x ∷ rs) x
  IsNext-of_head x rs h f = record {
    member = Memᴰ.head refl;
    due = h;
    first = (λ _. is_before_irrefl x, f);
  }

  pub next_due-IsNext : (rs : List Row) (r : Row) → next_due now rs ≡ some r → IsNext rs r
  unfolding next_due
  next_due-IsNext [] r e = cc
  next_due-IsNext (x ∷ rs) r e = elim (Bool-cases (is_due now x)) [
    | inr not_due ↦
        IsNext-of_tail x r rs (λ d. cc (d, not_due)) (next_due-IsNext rs r (ground arith))
    | inl due ↦ elim (Option-cases (next_due now rs)) [
      | inl n ↦
          let h : x ≡ r = ground arith in
          rw (← h) (IsNext-of_head x rs due (IsFirst-of_none x rs n))
      | inr (b, eb) ↦ elim (Bool-cases (is_before b x)) [
        | inl sooner ↦
            let h : b ≡ r = ground arith in
            rw (← h)
              (IsNext-of_tail x b rs (λ _. is_before_asym b x sooner) (next_due-IsNext rs b eb))
        | inr later ↦
            let h : x ≡ r = ground arith in
            rw (← h) (
              IsNext-of_head x rs due (IsFirst-weaken x b rs later (next_due-IsNext rs b eb).first))
      ]
    ]
  ]

  pub next_due-none : (rs : List Row) → next_due now rs ≡ none → All (λ x. is_due now x ≡ false) rs
  unfolding next_due
  next_due-none [] e = tt
  next_due-none (x ∷ rs) e = (ground arith, next_due-none rs (ground arith))

module _ (o : Options) (now : ℕ) where
  -- A row that a claim may hand out: it is due, and the first statement does not fail it.
  abbrev pub IsClaimable : Row → Type 0
  IsClaimable r = (is_due now r ≡ true) × (is_expired o now r ≡ false)

  -- No claimable row of the list stands before r.
  abbrev pub IsFirstClaimable : Row → List Row → Type 0
  IsFirstClaimable r = All λ x. IsClaimable x → is_before x r ≡ false

  expired_not_due : (r : Row) → is_due now (expired now r) ≡ false
  unfolding is_due
  expired_not_due r = refl

  attempts_left : (r : Row) → IsClaimable r → is_running r.status ≡ true → r.attempts < limit o r
  unfolding is_due
  attempts_left r c h = ground arith

  pub IsNext-IsClaimable :
      (rs : List Row) (r : Row)
      → IsNext now (expire_leases o now rs) r
      → Memᴰ r rs × IsClaimable r × IsFirstClaimable r rs
  unfolding expire_leases
  IsNext-IsClaimable rs r n =
      elim (mem-update_where (is_expired o now) (expired now) r rs n.member) [
        | inl (m, e) ↦ (
          m,
          (n.due, e),
          All-weaken rs (λ x h c. h c.1 c.0)
              (All-of-update_where (is_expired o now) (expired now)
                (λ x. is_due now x ≡ true → is_before x r ≡ false) rs n.first),
        )
        | inr (x, m, e, h) ↦
            let d : is_due now (expired now x) ≡ true = rw h at n.due in cc (d, expired_not_due x)
      ]

  -- What Claim hands out: the job j of the row r, from the rows before to the rows after.
  pub record Picks (rs rs' : List Row) (j : Job) : Type 0 where
    pub row : Row
    pub member : Memᴰ row rs
    pub claimable : IsClaimable row
    pub first : IsFirstClaimable row rs
    pub job : j ≡ job_of o (taken o now row)
    pub stored : Memᴰ (taken o now row) rs'
    pub after : rs' ≡ update_where (λ x. x.id == row.id) (taken o now) (expire_leases o now rs)

  take_next-Picks :
      (rs rs' : List Row) (j : Job)
      → take_next o now (expire_leases o now rs) ≡ (rs', some j)
      → Picks rs rs' j
  unfolding take_next
  take_next-Picks rs rs' j e = elim (Option-cases (next_due now (expire_leases o now rs))) [
    | inl n ↦ ground arith
    | inr (r, h) ↦
        let next = next_due-IsNext now (expire_leases o now rs) r h in
        let (m, c, f) = IsNext-IsClaimable rs r next in
        let same : rs' ≡ update_where (λ x. x.id == r.id) (taken o now) (expire_leases o now rs) =
          ground arith in
        record {
          row = r;
          member = m;
          claimable = c;
          first = f;
          job = ground arith;
          stored = rw same (
              mem_updated (λ x. x.id == r.id) (taken o now) r (expire_leases o now rs) next.member
                ((==_iff r.id r.id).1 refl));
          after = same;
        }
  ]

  -- A claim that the database answers hands out the claimable row that stands first by run_after
  -- and id: the job is that row with one more attempt, and the table after it is the table after
  -- the leases were expired, with that row running until its new lease ends.
  pub claim-Picks :
      (q q' : Queue) (j : Job)
      → claim o none none now q ≡ (q', ok (some j))
      → Picks q.rows q'.rows j
  unfolding claim take_job
  claim-Picks q q' j e = take_next-Picks q.rows q'.rows j (ground arith)

  take_next-none :
      (rs rs' : List Row)
      → take_next o now (expire_leases o now rs) ≡ (rs', none)
      → All (λ r. ¬ IsClaimable r) rs
  unfolding take_next expire_leases
  take_next-none rs rs' e =
      let n : next_due now (expire_leases o now rs) ≡ none = ground arith in
      All-weaken rs (λ x h c. cc (h c.1, c.0))
        (All-of-update_where (is_expired o now) (expired now) (λ x. is_due now x ≡ false) rs
          (next_due-none now (expire_leases o now rs) n))

  -- It hands out nothing only if no row is claimable.
  claim_idle :
      (q q' : Queue) → claim o none none now q ≡ (q', ok none) → All (λ r. ¬ IsClaimable r) q.rows
  unfolding claim take_job
  claim_idle q q' e = take_next-none q.rows q'.rows (ground arith)

  claim_of_take_next :
      (q : Queue) (t : Option Job) (rows : List Row)
      → take_next o now (expire_leases o now q.rows) ≡ (rows, t)
      → claim o none none now q ≡ (record q { rows = rows }, ok t)
  unfolding claim take_job
  claim_of_take_next q t rows e = ground arith

  -- Where a row is claimable, a claim that the database answers does hand out a job.
  pub claim_progress :
      (q : Queue) (r : Row)
      → Memᴰ r q.rows
      → IsClaimable r
      → (j : Job) × (q' : Queue) × (claim o none none now q ≡ (q', ok (some j)))
  claim_progress q r m c = go _ _ refl
    where
      go :
          (rows : List Row) (t : Option Job)
          → take_next o now (expire_leases o now q.rows) ≡ (rows, t)
          → (j : Job) × (q' : Queue) × (claim o none none now q ≡ (q', ok (some j)))
      go rows (some j) e = (j, record q { rows = rows }, claim_of_take_next q (some j) rows e)
      go rows none e =
          absurd (All_at (λ x. ¬ IsClaimable x) r q.rows (take_next-none q.rows rows e) m c)
