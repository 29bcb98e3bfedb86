-- ===== src/Search/Budgets.antt =====
-- No provider's budget of a month is passed, whatever the workers do at once.
use speakertrail.Common.{
  ℕ, ◌+◌, ◌≤◌, ◌<◌, ◌≡◌, refl, inl, inr, ◌&&◌, List, [], ◌∷◌, ◌++◌, Text, text_eq, text_eq_iff, All,
  leb, arith, if◌then◌else◌, ◌==◌, Bool-cases,
}
use speakertrail.Search.{
  Call, Pool, new_call, used, reserve, Answer, found, failed, record_outcome, recorded,
}

used-append :
    (p : Text) (m : ℕ) (cs : List Call) (c : Call)
    → used p m (cs ++ c ∷ [])
      ≡ used p m cs + (if text_eq c.provider p && leb m c.called_at then 1 else 0)
unfolding used
used-append p m [] c = ground arith
used-append p m (x ∷ cs) c = ground (arith, used-append p m cs c)

-- Recording an outcome counts no call and uncounts none.
used-record_outcome :
    (p : Text) (m id : ℕ) (a : Answer) (cs : List Call)
    → used p m (record_outcome id a cs) ≡ used p m cs
unfolding used record_outcome
used-record_outcome p m id a [] = refl
used-record_outcome p m id (found n) (c ∷ cs) = elim (Bool-cases (c.id == id)) [
  | inl e ↦ rw (e, used-record_outcome p m id (found n) cs) refl
  | inr e ↦ rw (e, used-record_outcome p m id (found n) cs) refl
]
used-record_outcome p m id (failed n x) (c ∷ cs) = elim (Bool-cases (c.id == id)) [
  | inl e ↦ rw (e, used-record_outcome p m id (failed n x) cs) refl
  | inr e ↦ rw (e, used-record_outcome p m id (failed n x) cs) refl
]

-- The calls of a provider since a month began are within its budget.
abbrev pub IsWithin : Text → ℕ → Pool → Type 0
IsWithin p m db = used p m db.calls ≤ db.budget p

pub reserve-IsWithin :
    (p : Text) (m month now : ℕ) (name query : Text) (db : Pool)
    → (m ≤ now → month ≡ m)
    → IsWithin p m db
    → IsWithin p m (reserve month now name query db).0
unfolding reserve
reserve-IsWithin p m month now name query db same h =
    elim (Bool-cases (leb (db.budget name) (used name month db.calls))) [
      | inl e ↦ rw (e, reserve) h
      | inr e ↦ elim (Bool-cases (text_eq name p && leb m now)) [
        | inr f ↦
            rw (e, reserve)
              (ground (arith, used-append p m db.calls (new_call db.next_id now name query)))
        | inl f ↦
            let named : name ≡ p = (text_eq_iff name p).0 (ground arith) in
            let monthly : month ≡ m = same (ground arith) in
            let free : used name month db.calls < db.budget name = ground arith in
            let room : used p m db.calls < db.budget p = rw (named, monthly) at free in
            rw (e, reserve)
              (ground (arith, used-append p m db.calls (new_call db.next_id now name query)))
      ]
    ]

pub recorded-IsWithin :
    (p : Text) (m id : ℕ) (a : Answer) (db : Pool)
    → IsWithin p m db
    → IsWithin p m (recorded id a db)
recorded-IsWithin p m id a db h = rw (used-record_outcome p m id a db.calls) h

-- What the workers do to the table, in the order in which the database does it.
pub data Deed : Type 0 where
  reserves : ℕ → ℕ → Text → Text → Deed
  records : ℕ → Answer → Deed

unfoldable pub do_deed : Pool → Deed → Pool
do_deed db (reserves month now name query) = (reserve month now name query db).0
do_deed db (records id a) = recorded id a db

unfoldable pub do_all : Pool → List Deed → Pool
unfolding do_deed
do_all db [] = db
do_all db (d ∷ ds) = do_all (do_deed db d) ds

-- A reservation made since the month m began is made in that month.
abbrev pub IsIn : ℕ → Deed → Type 0
IsIn m (reserves month now name query) = m ≤ now → month ≡ m
IsIn m (records id a) = Unit

-- However the reservations and results of several workers follow each other, as long as the month
-- lasts, a provider's calls of the month stay within its budget if they were before.
pub do_all-IsWithin :
    (p : Text) (m : ℕ) (ds : List Deed) (db : Pool)
    → All (IsIn m) ds
    → IsWithin p m db
    → IsWithin p m (do_all db ds)
unfolding do_all
do_all-IsWithin p m [] db a h = h
do_all-IsWithin p m (reserves month now name query ∷ ds) db a h =
    do_all-IsWithin p m ds _ a.1 (reserve-IsWithin p m month now name query db a.0 h)
do_all-IsWithin p m (records id x ∷ ds) db a h =
    do_all-IsWithin p m ds _ a.1 (recorded-IsWithin p m id x db h)
