-- ===== src/Queue/Invariant.antt =====
-- The table stays well formed: ids and keys are unique, and a row has a lease exactly while it runs.
use mathlib.Core.List.{map-append}
use speakertrail.Common.{
  ℕ, suc, ◌<◌, ◌≡◌, ◌≢◌, refl, ap, inl, inr, Bool, Option, none, List, [], ◌∷◌, ◌++◌, map, Text,
  is_some, text_eq_iff, All, All-append, All-weaken, Distinct, Distinct-snoc, arith, Option-cases,
}
use speakertrail.Queue.Rows.{Row, is_running, next_due, update_where}
use speakertrail.Queue.Updates.{map-update_where, All-update_where}
use speakertrail.Queue.Cases.{enqueue_cases, claim_cases, complete_cases, fail_cases}
use speakertrail.Queue.{
  Options, Fault, Queue, Job, NewJob, enqueue, claim, complete, fail, upsert, find_same, inserted,
  expire_leases, take_next,
}

abbrev pub key_of : Row → Text × Text
key_of r = (r.kind, r.key)

abbrev pub IsLeased : Row → Type 0
IsLeased r = is_running r.status ≡ is_some r.locked_until

pub record IsValid (q : Queue) : Type 0 where
  pub ids_below : All (λ i. i < q.next_id) (map (λ r. r.id) q.rows)
  pub ids_distinct : Distinct (map (λ r. r.id) q.rows)
  pub keys_distinct : Distinct (map key_of q.rows)
  pub leased : All IsLeased q.rows

module _ (p : Row → Bool) (f : Row → Row) where
  -- An UPDATE that keeps ids and keys and leaves each row leased keeps the table valid.
  pub IsValid-update :
      (rs : List Row) (n : ℕ)
      → ((r : Row) → (f r).id ≡ r.id)
      → ((r : Row) → key_of (f r) ≡ key_of r)
      → ((r : Row) → IsLeased (f r))
      → IsValid (record { rows = rs; next_id = n })
      → IsValid (record { rows = update_where p f rs; next_id = n })
  IsValid-update rs n hi hk hl v = record {
    ids_below = rw (map-update_where p f (λ r. r.id) rs hi) v.ids_below;
    ids_distinct = rw (map-update_where p f (λ r. r.id) rs hi) v.ids_distinct;
    keys_distinct = rw (map-update_where p f key_of rs hk) v.keys_distinct;
    leased = All-update_where p f IsLeased rs (λ r _ _. hl r) v.leased;
  }

find_same-none :
    (kind key : Text) (rs : List Row)
    → find_same kind key rs ≡ none
    → All (λ k. k ≢ (kind, key)) (map key_of rs)
unfolding find_same
find_same-none kind key [] h = tt
find_same-none kind key (r ∷ rs) h = (
  λ e. ground (
    arith,
    (text_eq_iff r.kind kind).1 (ap (λ (k : Text × Text). k.0) e),
    (text_eq_iff r.key key).1 (ap (λ (k : Text × Text). k.1) e),
  ),
  find_same-none kind key rs (ground arith),
)

ids-ne : (n : ℕ) (is : List ℕ) → All (λ i. i < n) is → All (λ i. i ≢ n) is
ids-ne n is = All-weaken is (λ i h. omega arith)

ids_below_suc : (n : ℕ) (is : List ℕ) → All (λ i. i < n) is → All (λ i. i < suc n) is
ids_below_suc n is = All-weaken is (λ i h. omega arith)

IsValid-insert :
    (q : Queue) (now : ℕ) (payload : Text) (run_after : ℕ) (j : NewJob)
    → IsValid q
    → find_same j.kind j.key q.rows ≡ none
    → IsValid (record {
      rows = q.rows ++ inserted q.next_id now payload run_after j ∷ [];
      next_id = suc q.next_id;
    })
unfolding inserted
IsValid-insert q now payload run_after j v e = record {
  ids_below = rw map-append (
      All-append (λ i. i < suc q.next_id) (map (λ r. r.id) q.rows) (q.next_id ∷ [])
        (ids_below_suc q.next_id _ v.ids_below) (omega arith));
  ids_distinct = rw map-append (
      Distinct-snoc (map (λ r. r.id) q.rows) q.next_id (ids-ne q.next_id _ v.ids_below)
        v.ids_distinct);
  keys_distinct = rw map-append (
      Distinct-snoc (map key_of q.rows) (j.kind, j.key) (find_same-none j.kind j.key q.rows e)
        v.keys_distinct);
  leased = All-append IsLeased q.rows _ v.leased (refl, tt);
}

IsValid-next_id :
    (rs : List Row) (n : ℕ)
    → IsValid (record { rows = rs; next_id = n })
    → IsValid (record { rows = rs; next_id = suc n })
IsValid-next_id rs n v = record {
  ids_below = ids_below_suc n _ v.ids_below;
  ids_distinct = v.ids_distinct;
  keys_distinct = v.keys_distinct;
  leased = v.leased;
}

upsert-IsValid :
    (now : ℕ) (payload : Text) (run_after : ℕ) (j : NewJob) (q : Queue)
    → IsValid q
    → IsValid (upsert now payload run_after j q).0
unfolding upsert
upsert-IsValid now payload run_after j q v = elim (Option-cases (find_same j.kind j.key q.rows)) [
  | inl e ↦ rw (e, upsert) (IsValid-insert q now payload run_after j v e)
  | inr (r, e) ↦
      rw (e, upsert)
        (IsValid-update _ _ q.rows _ (λ r. refl) (λ r. refl) (λ r. refl)
          (IsValid-next_id q.rows q.next_id v))
]

pub enqueue-IsValid :
    (fault : Fault) (now : ℕ) (j : NewJob) (q : Queue)
    → IsValid q
    → IsValid (enqueue fault now j q).0
enqueue-IsValid fault now j q v =
    enqueue_cases IsValid fault now j q v (λ p t. upsert-IsValid now p t j q v)

pub expire_leases-IsValid :
    (o : Options) (now : ℕ) (q : Queue)
    → IsValid q
    → IsValid (record q { rows = expire_leases o now q.rows })
unfolding expire_leases
expire_leases-IsValid o now q v = IsValid-update _ _ q.rows _ (λ r. refl) (λ r. refl) (λ r. refl) v

take_next-IsValid :
    (o : Options) (now : ℕ) (q : Queue)
    → IsValid q
    → IsValid (record q { rows = (take_next o now q.rows).0 })
unfolding take_next
take_next-IsValid o now q v = elim (Option-cases (next_due now q.rows)) [
  | inl e ↦ rw (e, take_next) v
  | inr (r, e) ↦
      rw (e, take_next) (IsValid-update _ _ q.rows _ (λ r. refl) (λ r. refl) (λ r. refl) v)
]

pub claim-IsValid :
    (o : Options) (f g : Fault) (now : ℕ) (q : Queue) → IsValid q → IsValid (claim o f g now q).0
claim-IsValid o f g now q v =
    claim_cases IsValid o f g now q v (expire_leases-IsValid o now) (take_next-IsValid o now)

pub complete-IsValid :
    (fault : Fault) (now : ℕ) (j : Job) (q : Queue) → IsValid q → IsValid (complete fault now j q).0
complete-IsValid fault now j q v =
    complete_cases IsValid fault now j q v
      (IsValid-update _ _ q.rows _ (λ r. refl) (λ r. refl) (λ r. refl) v)

pub fail-IsValid :
    (o : Options) (fault : Fault) (now : ℕ) (j : Job) (cause : Option Text) (q : Queue)
    → IsValid q
    → IsValid (fail o fault now j cause q).0
fail-IsValid o fault now j cause q v =
    fail_cases IsValid o fault now j cause q v
      (λ m e. IsValid-update _ _ q.rows _ (λ r. refl) (λ r. refl) (λ r. refl) v)
      (λ m w e. IsValid-update _ _ q.rows _ (λ r. refl) (λ r. refl) (λ r. refl) v)
