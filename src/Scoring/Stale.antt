-- ===== src/Scoring/Stale.antt =====
-- internal/pipeline/score.go: ScoreStale ends, with everyone scored.
use speakertrail.Common.{
  ℕ, zero, suc, ◌+◌, ◌<◌, ◌==◌, Bool, true, false, not, ◌≡◌, ◌≢◌, ◌⊎◌, refl, ap, ◌∙◌, inl, inr,
  none, some, List, [], ◌∷◌, map, length, take, keep_if, any_where, All, All-both, All-weaken,
  All-unmap, Distinct, arith, Bool-cases,
}
use speakertrail.Scoring.{
  Env, Person, Db, mark, score_people, is_stale, batch, score_batch, score_stale,
}
use speakertrail.Scoring.Input.{Tables}
use speakertrail.Scoring.Stored.{
  IsRight, IsFresh, ids_of, any_of, keep_if-Distinct, rescored, score_people-done,
  score_people-people, score_people-IsFresh,
}

abbrev stale : List Person → List Person
stale people = keep_if is_stale people

rescored-id :
    (env : Env) (t : Tables) (ids : List ℕ) (p : Person) → (rescored env t ids p).id ≡ p.id
unfolding mark
rescored-id env t ids p = elim (Bool-cases (any_of ids p)) [ inl e ↦ rw e refl | inr e ↦ rw e refl ]

ids_of-rescored :
    (env : Env) (t : Tables) (ids : List ℕ) (people : List Person)
    → ids_of (map (rescored env t ids) people) ≡ ids_of people
ids_of-rescored env t ids [] = refl
ids_of-rescored env t ids (p ∷ ps) = rw (rescored-id env t ids p, ids_of-rescored env t ids ps) refl

-- Of the stale people, those stay that were not scored.
stale-rescored :
    (env : Env) (t : Tables) (ids : List ℕ) (people : List Person)
    → length (stale (map (rescored env t ids) people))
      ≡ length (keep_if (λ (p : Person). not (any_of ids p)) (stale people))
unfolding is_stale mark
stale-rescored env t ids [] = refl
stale-rescored env t ids (p ∷ ps) =
    let ih = stale-rescored env t ids ps in
    elim (Bool-cases (any_of ids p)) [
      | inl e ↦ elim (Bool-cases (is_stale p)) [
        | inl s ↦ rw (e, s) (rw e ih)
        | inr s ↦ rw (e, s) ih
      ]
      | inr e ↦ elim (Bool-cases (is_stale p)) [
        | inl s ↦ rw (e, s) (rw e (ap suc ih))
        | inr s ↦ rw (e, s) ih
      ]
    ]

length-keep_if_iff :
    (p q : Person → Bool) (xs : List Person)
    → All (λ x. p x ≡ q x) xs
    → length (keep_if p xs) ≡ length (keep_if q xs)
length-keep_if_iff p q [] h = refl
length-keep_if_iff p q (x ∷ xs) h = rw h.0 (ground (arith, length-keep_if_iff p q xs h.1))

other_id :
    (i : ℕ) (ids : List ℕ) (p : Person) → i ≢ p.id → not (any_of (i ∷ ids) p) ≡ not (any_of ids p)
unfolding any_where
other_id i ids p h = ground arith

-- A batch takes its people off the list.
batch_leaves :
    (n : ℕ) (xs : List Person)
    → Distinct (ids_of xs)
    → length (keep_if (λ (p : Person). not (any_of (ids_of (take n xs)) p)) xs)
        + length (ids_of (take n xs))
      ≡ length xs
unfolding any_where
batch_leaves zero [] d = refl
batch_leaves (suc n) [] d = refl
batch_leaves zero (x ∷ xs) d = let ih = batch_leaves zero xs d.1 in omega (arith, ih)
batch_leaves (suc n) (x ∷ xs) d =
    let ih = batch_leaves n xs d.1 in
    let rest =
      length-keep_if_iff (λ (p : Person). not (any_of (x.id ∷ ids_of (take n xs)) p))
        (λ (p : Person). not (any_of (ids_of (take n xs)) p)) xs
        (All-weaken xs (λ p. other_id x.id (ids_of (take n xs)) p)
          (All-unmap (λ i. x.id ≢ i) Person.id xs d.0)) in
    let self : (x.id == x.id) ≡ true = ground arith in rw self (omega (arith, ih, rest))

named_leave :
    (n : ℕ) (xs : List Person) (ids : List ℕ)
    → Distinct (ids_of xs)
    → ids_of (take n xs) ≡ ids
    → length (keep_if (λ (p : Person). not (any_of ids p)) xs) + length ids ≡ length xs
named_leave n xs ids d h = rw (← h) (batch_leaves n xs d)

-- One round: whom the batch names is scored, and as many fewer are stale.
round_scores :
    (env : Env) (id : ℕ) (ids : List ℕ) (db : Db)
    → Distinct (ids_of db.people)
    → batch db ≡ id ∷ ids
    → length (stale (score_people env none (id ∷ ids) db).0.people) + length (id ∷ ids)
      ≡ length (stale db.people)
unfolding batch
round_scores env id ids db d b =
    rw (score_people-done env id ids db d, score_people-people env id ids db d)
      (let left = stale-rescored env db.tables (id ∷ ids) db.people in
        let took =
          named_leave score_batch (stale db.people) (id ∷ ids)
            (keep_if-Distinct is_stale db.people d) b in
        omega (arith, left, took))

batch-none : (db : Db) → batch db ≡ [] → stale db.people ≡ []
unfolding batch
batch-none db h = no_batch (stale db.people) h
  where
    no_batch : (xs : List Person) → ids_of (take score_batch xs) ≡ [] → xs ≡ []
    no_batch [] h = refl
    no_batch (x ∷ xs) h = cc

List-cases {ℓ} : {A : Type ℓ} (xs : List A) → (xs ≡ []) ⊎ ((y : A) × (ys : List A) × (xs ≡ y ∷ ys))
List-cases [] = inl refl
List-cases (x ∷ xs) = inr (x, xs, refl)

none_stale : (people : List Person) → stale people ≡ [] → All (λ p. is_stale p ≡ false) people
none_stale [] h = tt
none_stale (p ∷ ps) h = elim (Bool-cases (is_stale p)) [
  | inl e ↦ ground arith
  | inr e ↦ (e, none_stale ps (ground arith))
]

not_stale-IsRight :
    (env : Env) (db : Db) (p : Person)
    → is_stale p ≡ false
    → (is_stale p ≡ true) ⊎ IsRight env db.tables db.person_signals p
    → IsRight env db.tables db.person_signals p
not_stale-IsRight env db p e (inl s) = ground arith
not_stale-IsRight env db p e (inr r) = r

-- What a round without a fault leaves.
round :
    (env : Env) (id : ℕ) (ids : List ℕ) (db : Db)
    → Distinct (ids_of db.people)
    → IsFresh env db
    → batch db ≡ id ∷ ids
    → (db' : Db) × (score_people env none (id ∷ ids) db ≡ (db', none))
      × (ids_of db'.people ≡ ids_of db.people)
      × IsFresh env db'
      × (length (stale db'.people) + length (id ∷ ids) ≡ length (stale db.people))
round env id ids db d h b =
    let e = score_people-done env id ids db d in
    (
      (score_people env none (id ∷ ids) db).0,
      rw e refl,
      rw (e, score_people-people env id ids db d)
          (ids_of-rescored env db.tables (id ∷ ids) db.people),
      score_people-IsFresh env id ids db d (All-weaken db.people (λ p k e. k) h),
      round_scores env id ids db d b,
    )

one_round :
    (env : Env) (fuel n id : ℕ) (ids : List ℕ) (db db' : Db)
    → batch db ≡ id ∷ ids
    → score_people env none (id ∷ ids) db ≡ (db', none)
    → score_stale env (λ _. none) (suc fuel) n db
      ≡ score_stale env (λ _. none) fuel (n + length (id ∷ ids)) db'
unfolding score_stale
one_round env fuel n id ids db db' e r = rw (e, score_stale) (rw r refl)

last_round :
    (env : Env) (fuel n : ℕ) (db : Db)
    → batch db ≡ []
    → score_stale env (λ _. none) (suc fuel) n db ≡ some (db, (n, none))
unfolding score_stale
last_round env fuel n db e = rw (e, score_stale) refl

-- ScoreStale, without faults and with a round for each stale person and one more, ends, and says how many
-- people it scored, which are all the stale ones. Then every person is there as before, with the score
-- and exactly the signals that the current rubric finds, if that was so of those that were not stale.
pub score_stale_done :
    (env : Env) (fuel n : ℕ) (db : Db)
    → Distinct (ids_of db.people)
    → IsFresh env db
    → length (keep_if is_stale db.people) < fuel
    → (db' : Db) × (score_stale env (λ _. none) fuel n db
        ≡ some (db', (n + length (keep_if is_stale db.people), none)))
      × (ids_of db'.people ≡ ids_of db.people)
      × All (IsRight env db'.tables db'.person_signals) db'.people
score_stale_done env zero n db d h f = ground arith
score_stale_done env (suc fuel) n db d h f = elim (List-cases (batch db)) [
  | inl e ↦
      let s = batch-none db e in
      (
        db,
        last_round env fuel n db e ∙ rw s (ap (λ m. some (db, (m, none))) (omega arith)),
        refl,
        All-both db.people (not_stale-IsRight env db) (none_stale db.people s) h,
      )
  | inr (id, ids, e) ↦
      let (db₁, r, same, h₁, fewer) = round env id ids db d h e in
      let (db', k, same', right) =
        score_stale_done env fuel (n + length (id ∷ ids)) db₁ (rw same d) h₁
          (omega (arith, fewer, f)) in
      (
        db',
        one_round env fuel n id ids db db₁ e r
            ∙ k
            ∙ ap (λ m. some (db', (m, none))) (omega (arith, fewer)),
        same' ∙ same,
        right,
      )
]
