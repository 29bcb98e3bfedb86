-- ===== src/Search/Failover.antt =====
-- A search that fails over: who answered, and when the budgets are spent.
use mathlib.Core.List.{Memᴰ}
use mathlib.Core.List.Memᴰ
use speakertrail.Common.{
  ℕ, suc, ◌≤◌, ◌≡◌, refl, sym, ◌⊎◌, inl, inr, Option, none, some, List, [], ◌∷◌, ◌++◌, Text, All,
  All_at, All-of_mem, leb, arith, Bool-cases, Option-cases,
}
use speakertrail.Search.{
  Pool, used, reserve, Answer, found, failed, recorded, World, ended, try_each, order, place,
  has_more, try_providers, Result, ok, err, store, no_budget, all_failed,
}
use speakertrail.Search.Budgets.{IsWithin, reserve-IsWithin, recorded-IsWithin}

answer_cases : (a : Answer) → ((n : ℕ) × (a ≡ found n)) ⊎ ((n : ℕ) × (e : Text) × (a ≡ failed n e))
answer_cases (found n) = inl (n, refl)
answer_cases (failed n e) = inr (n, e, refl)

-- One round of the loop, by what happens in it.
module _ (w : World) (query : Text) (i : ℕ) (errs : List Text) (p : Text) (ps : List Text)
    (db : Pool) where
  abbrev round : Pool × Option ℕ
  round = reserve (w.month i) (w.now i) p query db

  -- What the round comes to: an error of the database, a spent budget, an answer, or a failed call.
  round_cases {κ} :
      (P : Pool × Result Text → Type κ)
      → ((db' : Pool) (e : Text) → (db' ≡ db) ⊎ (db' ≡ round.0) → P (db', err (store e)))
      → (round.1 ≡ none → P (try_each w query (suc i) errs ps round.0))
      → ((id n : ℕ)
          → round.1 ≡ some id
          → w.answer i p ≡ found n
          → P (recorded id (found n) round.0, ok p))
      → ((id n : ℕ) (e : Text)
          → round.1 ≡ some id
          → w.answer i p ≡ failed n e
          → P (try_each w query (suc i) (errs ++ e ∷ []) ps (recorded id (failed n e) round.0)))
      → P (try_each w query i errs (p ∷ ps) db)
  unfolding try_each
  round_cases P hs hn hf hx = elim (Option-cases (w.reserve_fault i)) [
    | inr (e, k) ↦ rw (try_each, k) (hs db e (inl refl))
    | inl k ↦ elim (Option-cases round.1) [
      | inl r ↦ rw (try_each, k, r) (hn r)
      | inr (id, r) ↦ elim (Option-cases (w.record_fault i)) [
        | inr (e, f) ↦ rw (try_each, k, r, f) (hs round.0 e (inr refl))
        | inl f ↦ elim (answer_cases (w.answer i p)) [
          | inl (n, a) ↦ rw (try_each, k, r, f, a) (hf id n r a)
          | inr (n, e, a) ↦ rw (try_each, k, r, f, a) (hx id n e r a)
        ]
      ]
    ]
  ]

try_each-IsWithin :
    (p : Text) (m : ℕ) (w : World) (query : Text) (i : ℕ) (errs ps : List Text) (db : Pool)
    → ((j : ℕ) → m ≤ w.now j → w.month j ≡ m)
    → IsWithin p m db
    → IsWithin p m (try_each w query i errs ps db).0
unfolding try_each
try_each-IsWithin p m w query i errs [] db same h = h
try_each-IsWithin p m w query i errs (x ∷ ps) db same h =
    let h' : IsWithin p m (round w query i errs x ps db).0 =
      reserve-IsWithin p m (w.month i) (w.now i) x query db (same i) h in
    round_cases w query i errs x ps db (λ out. IsWithin p m out.0)
      (λ db' e o. elim o [ inl k ↦ rw k h | inr k ↦ rw k h' ])
      (λ r. try_each-IsWithin p m w query (suc i) errs ps _ same h')
      (λ id n r a. recorded-IsWithin p m id (found n) (round w query i errs x ps db).0 h')
      (λ id n e r a.
        try_each-IsWithin p m w query (suc i) (errs ++ e ∷ []) ps _ same
          (recorded-IsWithin p m id (failed n e) (round w query i errs x ps db).0 h'))

-- A provider was asked and answered.
abbrev pub Answered : World → Text → Type 0
Answered w name = (j : ℕ) × (n : ℕ) × (w.answer j name ≡ found n)

try_each_ok :
    (w : World) (query : Text) (i : ℕ) (errs ps : List Text) (db db' : Pool) (name : Text)
    → try_each w query i errs ps db ≡ (db', ok name)
    → Memᴰ name ps × Answered w name
unfolding try_each
try_each_ok w query i errs [] db db' name h = absurd (none_left errs h)
  where
    none_left : (es : List Text) → ◌≡◌ {A = Pool × Result Text} (db, ended es) (db', ok name) → ⊥
    none_left [] h = ground arith
    none_left (e ∷ es) h = ground arith
try_each_ok w query i errs (x ∷ ps) db db' name eq =
    round_cases w query i errs x ps db
      (λ out. out ≡ (db', ok name) → Memᴰ name (x ∷ ps) × Answered w name)
      (λ d e o h. absurd (ground arith))
      (λ r h. let (m, a) = try_each_ok w query (suc i) errs ps _ db' name h in (Memᴰ.tail m, a))
      (λ id n r a h. let e : x ≡ name = cc in (Memᴰ.head (sym e), (i, n, rw e at a)))
      (λ id n e r a h.
        let (m, b) = try_each_ok w query (suc i) (errs ++ e ∷ []) ps _ db' name h in
        (Memᴰ.tail m, b))
      eq

-- A provider whose budget of the month of some turn is spent.
abbrev pub IsSpent : World → Pool → Text → Type 0
IsSpent w db name = (j : ℕ) × (db.budget name ≤ used name (w.month j) db.calls)

reserve-none :
    (month now : ℕ) (p query : Text) (db : Pool)
    → (reserve month now p query db).1 ≡ none
    → ((reserve month now p query db).0 ≡ db) × (db.budget p ≤ used p month db.calls)
unfolding reserve
reserve-none month now p query db h =
    elim (Bool-cases (leb (db.budget p) (used p month db.calls))) [
      | inl e ↦ (rw (e, reserve) refl, ground arith)
      | inr e ↦ absurd (ground arith)
    ]

try_each_no_budget :
    (w : World) (query : Text) (i : ℕ) (errs ps : List Text) (db db' : Pool)
    → try_each w query i errs ps db ≡ (db', err no_budget)
    → (errs ≡ []) × (db' ≡ db) × All (IsSpent w db) ps
unfolding try_each
try_each_no_budget w query i [] [] db db' h = (refl, cc, tt)
try_each_no_budget w query i (e ∷ errs) [] db db' h = absurd (ground arith)
try_each_no_budget w query i errs (x ∷ ps) db db' eq =
    round_cases w query i errs x ps db
      (λ out. out ≡ (db', err no_budget) → (errs ≡ []) × (db' ≡ db) × All (IsSpent w db) (x ∷ ps))
      (λ d e o h. absurd (ground arith))
      (λ r h.
        let (same, spent) = reserve-none (w.month i) (w.now i) x query db r in
        let (a, b, c) = try_each_no_budget w query (suc i) errs ps db db' (rw same at h) in
        (a, b, ((i, spent), c)))
      (λ id n r a h. absurd (ground arith))
      (λ id n e r a h.
        absurd (grown errs e (try_each_no_budget w query (suc i) (errs ++ e ∷ []) ps _ db' h).0))
      eq
  where
    grown : (es : List Text) (e : Text) → es ++ e ∷ [] ≡ [] → ⊥
    grown [] e h = cc
    grown (x ∷ es) e h = cc

mem-place :
    (month : ℕ) (db : Pool) (p x : Text) (qs : List Text)
    → (Memᴰ x (place month db p qs) → Memᴰ x (p ∷ qs))
      × (Memᴰ x (p ∷ qs) → Memᴰ x (place month db p qs))
unfolding place
mem-place month db p x [] = (λ m. m, λ m. m)
mem-place month db p x (q ∷ qs) = elim (Bool-cases (has_more month db q p)) [
  | inr e ↦ rw e (λ m. m, λ m. m)
  | inl e ↦ rw e (
    λ m. elim (Memᴰ.cases_cons m) [
      | inl h ↦ Memᴰ.tail (Memᴰ.head h)
      | inr n ↦ elim (Memᴰ.cases_cons ((mem-place month db p x qs).0 n)) [
        | inl h ↦ Memᴰ.head h
        | inr k ↦ Memᴰ.tail (Memᴰ.tail k)
      ]
    ],
    λ m. elim (Memᴰ.cases_cons m) [
      | inl h ↦ Memᴰ.tail ((mem-place month db p x qs).1 (Memᴰ.head h))
      | inr n ↦ elim (Memᴰ.cases_cons n) [
        | inl h ↦ Memᴰ.head h
        | inr k ↦ Memᴰ.tail ((mem-place month db p x qs).1 (Memᴰ.tail k))
      ]
    ],
  )
]

mem-order :
    (month : ℕ) (db : Pool) (x : Text) (ps : List Text)
    → (Memᴰ x (order month db ps) → Memᴰ x ps) × (Memᴰ x ps → Memᴰ x (order month db ps))
unfolding order
mem-order month db x [] = (λ m. m, λ m. m)
mem-order month db x (p ∷ ps) = (
  λ m. elim (Memᴰ.cases_cons ((mem-place month db p x (order month db ps)).0 m)) [
    | inl h ↦ Memᴰ.head h
    | inr n ↦ Memᴰ.tail ((mem-order month db x ps).0 n)
  ],
  λ m. (mem-place month db p x (order month db ps)).1 (elim (Memᴰ.cases_cons m) [
    | inl h ↦ Memᴰ.head h
    | inr n ↦ Memᴰ.tail ((mem-order month db x ps).1 n)
  ]),
)

-- What a search reports: a provider that answered is one of the providers and was asked, and if it
-- reports that the budgets are spent then no call was counted and each provider's budget is spent.
abbrev pub IsTrue : World → List Text → Pool → Pool → Result Text → Type 0
IsTrue w providers db db' (ok name) = Memᴰ name providers × Answered w name
IsTrue w providers db db' (err no_budget) = (db' ≡ db) × All (IsSpent w db) providers
IsTrue w providers db db' (err (store e)) = Unit
IsTrue w providers db db' (err (all_failed es)) = Unit

-- A search names a provider only if that provider was asked and answered. It says that the budgets are
-- spent only if each provider's is and it counted no call.
pub try_providers_reports :
    (w : World) (fault : Option Text) (month : ℕ) (query : Text) (providers : List Text) (db : Pool)
    → IsTrue w providers db
        (try_providers w fault month query providers db).0
        (try_providers w fault month query providers db).1
unfolding try_providers
try_providers_reports w (some e) month query providers db = tt
try_providers_reports w none month query providers db =
    told (try_each w query 0 [] (order month db providers) db) refl
  where
    told :
        (out : Pool × Result Text)
        → try_each w query 0 [] (order month db providers) db ≡ out
        → IsTrue w providers db out.0 out.1
    told (db', ok name) e =
        let (m, a) = try_each_ok w query 0 [] (order month db providers) db db' name e in
        ((mem-order month db name providers).0 m, a)
    told (db', err no_budget) e =
        let (a, same, spent) =
          try_each_no_budget w query 0 [] (order month db providers) db db' e in
        (
          same,
          All-of_mem (IsSpent w db) providers (λ x m.
              All_at (IsSpent w db) x (order month db providers) spent
                ((mem-order month db x providers).1 m)),
        )
    told (db', err (store x)) e = tt
    told (db', err (all_failed es)) e = tt

-- A search keeps a provider's calls of the month within its budget, while the month lasts, if they were
-- within it before.
pub try_providers-IsWithin :
    (w : World) (fault : Option Text) (month : ℕ) (query : Text) (providers : List Text) (db : Pool)
    (p : Text) (m : ℕ)
    → ((j : ℕ) → m ≤ w.now j → w.month j ≡ m)
    → IsWithin p m db
    → IsWithin p m (try_providers w fault month query providers db).0
unfolding try_providers
try_providers-IsWithin w (some e) month query providers db p m same h = h
try_providers-IsWithin w none month query providers db p m same h =
    try_each-IsWithin p m w query 0 [] (order month db providers) db same h
