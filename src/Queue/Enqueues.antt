-- ===== src/Queue/Enqueues.antt =====
-- Enqueue: the row of a job that it leaves in the table, and that repeating it is safe.
use mathlib.Core.List.{Memᴰ}
use speakertrail.Common.{
  ℕ, suc, ◌≡◌, ◌≢◌, refl, sym, ap, Bool, true, false, none, some, List, [], ◌∷◌, ◌++◌, Text, inl,
  inr, All, Distinct, map, arith, Bool-cases, Option-cases, text_eq, text_eq_iff, text_eq_refl,
  if◌then◌else◌, ◌&&◌,
}
use speakertrail.Queue.Rows.{queued, Row, is_finished, update_where}
use speakertrail.Queue.Invariant.{IsValid, key_of, enqueue-IsValid}
use speakertrail.Queue.{
  Fault, Queue, NewJob, Result, ok, err, encode, insert_job, enqueue, upsert, find_same, inserted,
  requeued, is_same,
}

module _ (kind key : Text) where
  -- The row that find_same finds.
  pub record IsFound (rs : List Row) (r : Row) : Type 0 where
    pub member : Memᴰ r rs
    pub kind_eq : r.kind ≡ kind
    pub key_eq : r.key ≡ key

  pub find_same-IsFound : (rs : List Row) (r : Row) → find_same kind key rs ≡ some r → IsFound rs r
  unfolding find_same
  find_same-IsFound [] r e = cc
  find_same-IsFound (x ∷ rs) r e = elim (Bool-cases (is_same kind key x)) [
    | inl h ↦
        let same : x ≡ r = ground arith in
        rw (← same) (record {
          member = Memᴰ.head refl;
          kind_eq = ground (arith, text_eq_iff x.kind kind);
          key_eq = ground (arith, text_eq_iff x.key key);
        })
    | inr h ↦
        let f = find_same-IsFound rs r (ground arith) in
        record { member = Memᴰ.tail f.member; kind_eq = f.kind_eq; key_eq = f.key_eq }
  ]

  find_same-snoc :
      (rs : List Row) (x : Row)
      → find_same kind key rs ≡ none
      → is_same kind key x ≡ true
      → find_same kind key (rs ++ x ∷ []) ≡ some x
  unfolding find_same
  find_same-snoc [] x e h = rw h
  find_same-snoc (y ∷ rs) x e h = ground (arith, find_same-snoc rs x)

  find_same-update :
      (f : Row → Row) (rs : List Row) (r : Row)
      → ((x : Row) → is_same kind key (f x) ≡ is_same kind key x)
      → find_same kind key rs ≡ some r
      → find_same kind key (update_where (λ x. is_same kind key x && is_finished x.status) f rs)
        ≡ some (if is_finished r.status then f r else r)
  unfolding find_same
  find_same-update f [] r h e = cc
  find_same-update f (x ∷ rs) r h e = elim (Bool-cases (is_same kind key x)) [
    | inl s ↦ let same : x ≡ r = ground arith in rw (← same) (ground (arith, h x))
    | inr s ↦ ground (arith, find_same-update f rs r h)
  ]

-- The row that an insert or update by Enqueue leaves: queued, and with no attempt made.
pub record IsFresh (j : NewJob) (r : Row) : Type 0 where
  pub status : r.status ≡ queued
  pub attempts : r.attempts ≡ 0

-- What Enqueue left: the job's row, fresh if it was added, and not finished either way.
pub record Enqueued (j : NewJob) (q : Queue) (added : Bool) : Type 0 where
  pub row : Row
  pub found : find_same j.kind j.key q.rows ≡ some row
  pub open_row : is_finished row.status ≡ false
  pub fresh : added ≡ true → IsFresh j row

is_same-own : (j : NewJob) → text_eq j.kind j.kind && text_eq j.key j.key ≡ true
is_same-own j = ground (arith, text_eq_refl j.kind, text_eq_refl j.key)

upsert-Enqueued :
    (now : ℕ) (payload : Text) (t : ℕ) (j : NewJob) (q : Queue)
    → Enqueued j (upsert now payload t j q).0 (upsert now payload t j q).1
unfolding upsert
upsert-Enqueued now payload t j q = elim (Option-cases (find_same j.kind j.key q.rows)) [
  | inl e ↦
      rw (e, upsert)
        (record {
          row = inserted q.next_id now payload t j;
          found =
              find_same-snoc j.kind j.key q.rows (inserted q.next_id now payload t j) e
                (is_same-own j);
          open_row = refl;
          fresh = λ _. record { status = refl; attempts = refl };
        })
  | inr (r, e) ↦
      rw (e, upsert)
        (record {
          row = if is_finished r.status then requeued now payload t j r else r;
          found = find_same-update j.kind j.key (requeued now payload t j) q.rows r (λ x. refl) e;
          open_row = ground arith;
          fresh = λ h. record { status = ground arith; attempts = ground arith };
        })
]

insert_job-Enqueued :
    (fault : Fault) (now : ℕ) (j : NewJob) (p : Result Text) (q q' : Queue) (b : Bool)
    → insert_job fault now j p q ≡ (q', ok b)
    → Enqueued j q' b
unfolding insert_job
insert_job-Enqueued fault now j (err x) q q' b e = ground arith
insert_job-Enqueued (some x) now j (ok p) q q' b e = ground arith
insert_job-Enqueued none now j (ok p) q q' b e =
    let t : ℕ = elim j.run_after [ none ↦ now | some u ↦ u ] in
    let same_queue : (upsert now p t j q).0 ≡ q' = ground arith in
    let same_flag : (upsert now p t j q).1 ≡ b = ground arith in
    rw (← same_queue, ← same_flag) (upsert-Enqueued now p t j q)

-- After an Enqueue that is no error the table holds the job's row, queued or running, and the row is
-- queued with no attempt made if Enqueue says that it added the job.
pub enqueue-Enqueued :
    (fault : Fault) (now : ℕ) (j : NewJob) (q q' : Queue) (b : Bool)
    → enqueue fault now j q ≡ (q', ok b)
    → Enqueued j q' b
unfolding enqueue
enqueue-Enqueued fault now j q q' b e =
    insert_job-Enqueued fault now j (encode j.payload) q q' b (ground arith)

same_key : (kind key : Text) (x : Row) → is_same kind key x ≡ true → key_of x ≡ (kind, key)
same_key kind key x s = ground (arith, text_eq_iff x.kind kind, text_eq_iff x.key key)

update_absent :
    (kind key : Text) (f : Row → Row) (rs : List Row)
    → All (λ k. (kind, key) ≢ k) (map key_of rs)
    → update_where (λ x. is_same kind key x && is_finished x.status) f rs ≡ rs
update_absent kind key f [] a = refl
update_absent kind key f (x ∷ rs) a = elim (Bool-cases (is_same kind key x)) [
  | inl s ↦ absurd (a.0 (sym (same_key kind key x s)))
  | inr s ↦ ground (arith, update_absent kind key f rs a.1)
]

-- With unique keys, an update of a job that is queued or running changes no row.
update_same :
    (kind key : Text) (f : Row → Row) (rs : List Row) (r : Row)
    → Distinct (map key_of rs)
    → find_same kind key rs ≡ some r
    → is_finished r.status ≡ false
    → update_where (λ x. is_same kind key x && is_finished x.status) f rs ≡ rs
unfolding find_same
update_same kind key f [] r d e h = refl
update_same kind key f (x ∷ rs) r d e h = elim (Bool-cases (is_same kind key x)) [
  | inl s ↦
      let mine : x ≡ r = ground arith in
      let others : All (λ k. (kind, key) ≢ k) (map key_of rs) = rw (same_key kind key x s) at d.0 in
      ground (arith, mine, update_absent kind key f rs others)
  | inr s ↦ ground (arith, update_same kind key f rs r d.1)
]

upsert_again :
    (now : ℕ) (payload : Text) (t : ℕ) (j : NewJob) (q : Queue) (r : Row)
    → Distinct (map key_of q.rows)
    → find_same j.kind j.key q.rows ≡ some r
    → is_finished r.status ≡ false
    → upsert now payload t j q ≡ (record q { next_id = suc q.next_id }, false)
unfolding upsert
upsert_again now payload t j q r d e h =
    rw (e, upsert) (rw (update_same j.kind j.key (requeued now payload t j) q.rows r d e h, h))

insert_job_again :
    (fault : Fault) (now : ℕ) (j : NewJob) (p : Result Text) (q q' : Queue) (b : Bool) (r : Row)
    → Distinct (map key_of q.rows)
    → find_same j.kind j.key q.rows ≡ some r
    → is_finished r.status ≡ false
    → insert_job fault now j p q ≡ (q', ok b)
    → (b ≡ false) × (q'.rows ≡ q.rows)
unfolding insert_job
insert_job_again fault now j (err x) q q' b r d f h e = ground arith
insert_job_again (some x) now j (ok p) q q' b r d f h e = ground arith
insert_job_again none now j (ok p) q q' b r d f h e =
    let t : ℕ = elim j.run_after [ none ↦ now | some u ↦ u ] in
    ground (arith, upsert_again now p t j q r d f h)

-- Enqueueing is safe to repeat: after an Enqueue that is no error, another one of the same kind and
-- key, with any payload and at any time, adds nothing and changes no row.
pub enqueue_repeat :
    (f g : Fault) (t u : ℕ) (j k : NewJob) (q q' q'' : Queue) (b c : Bool)
    → IsValid q
    → j.kind ≡ k.kind
    → j.key ≡ k.key
    → enqueue f t j q ≡ (q', ok b)
    → enqueue g u k q' ≡ (q'', ok c)
    → (c ≡ false) × (q''.rows ≡ q'.rows)
unfolding enqueue
enqueue_repeat f g t u j k q q' q'' b c v same_kind same_key e e' =
    let first = enqueue-Enqueued f t j q q' b e in
    let valid : IsValid q' =
      rw (ap (λ (x : Queue × Result Bool). x.0) e) at (enqueue-IsValid f t j q v) in
    insert_job_again g u k (encode k.payload) q' q'' c first.row valid.keys_distinct
      (rw (same_kind, same_key) at first.found) first.open_row (ground arith)
