-- ===== src/Scoring/Stored.antt =====
-- internal/pipeline/score.go: what ScorePeople stores, and of whom.
use mathlib.Core.List.{Memᴰ, append-nil}
use mathlib.Core.List.Memᴰ
use speakertrail.Common.{
  ℕ, ◌==◌, Bool, true, false, not, ◌≡◌, ◌≢◌, ◌⊎◌, refl, sym, ap, ◌∙◌, inl, inr, none, List, [], ◌∷◌,
  ◌++◌, map, keep_if, All, All-map, All-weaken, All-unmap, All_at, All-of_mem, Distinct, arith,
  if◌then◌else◌, Bool-cases,
}
use speakertrail.Rubric.{Signal, score}
use speakertrail.Scoring.{
  Env, Person, SignalRow, Db, is_any, row_of, mark, version, signals_for, scored_of, score_people,
  commit, is_stale,
}
use speakertrail.Scoring.Inserts.{
  Differ, signals_for-Differ, rows_at, rows_at-append, rows_at-own, rows_at-other, rows_all, marked,
  store_scored-done,
}
use speakertrail.Scoring.Input.{Tables}

-- The person's score and signals are those that the current rubric finds.
abbrev pub IsRight : Env → Tables → List SignalRow → Person → Type 0
IsRight env t rows p =
    (p.rubric ≡ version)
    × (p.fit_score ≡ score (signals_for env t p))
    × (rows_at p.id rows ≡ map (row_of env p.id) (signals_for env t p))

-- Whoever the current rubric has scored is scored right.
abbrev pub IsFresh : Env → Db → Type 0
IsFresh env db =
    All (λ p. (is_stale p ≡ true) ⊎ IsRight env db.tables db.person_signals p) db.people

-- The same but for some people.
abbrev pub IsFreshBut : Env → List ℕ → Db → Type 0
IsFreshBut env ids db =
    All
      (λ p.
        is_any ids p.id ≡ false → (is_stale p ≡ true) ⊎ IsRight env db.tables db.person_signals p)
      db.people

abbrev pub ids_of : List Person → List ℕ
ids_of people = map Person.id people

abbrev pub any_of : List ℕ → Person → Bool
any_of ids p = is_any ids p.id

abbrev scored : Env → Tables → Person → ℕ × List Signal
scored env t p = (p.id, signals_for env t p)

abbrev kept : List ℕ → List SignalRow → List SignalRow
kept ids rows = keep_if (λ (r : SignalRow). not (is_any ids r.person_id)) rows

All-map_keep_if {κ} :
    (P : ℕ → Type κ) (q : Person → Bool) (xs : List Person)
    → All P (ids_of xs)
    → All P (ids_of (keep_if q xs))
All-map_keep_if P q [] h = tt
All-map_keep_if P q (x ∷ xs) h = elim (Bool-cases (q x)) [
  | inl e ↦ rw e (h.0, All-map_keep_if P q xs h.1)
  | inr e ↦ rw e (All-map_keep_if P q xs h.1)
]

pub keep_if-Distinct :
    (q : Person → Bool) (xs : List Person) → Distinct (ids_of xs) → Distinct (ids_of (keep_if q xs))
keep_if-Distinct q [] h = tt
keep_if-Distinct q (x ∷ xs) h = elim (Bool-cases (q x)) [
  | inl e ↦ rw e (All-map_keep_if (λ i. x.id ≢ i) q xs h.0, keep_if-Distinct q xs h.1)
  | inr e ↦ rw e (keep_if-Distinct q xs h.1)
]

keep_if-All : (q : Person → Bool) (xs : List Person) → All (λ x. q x ≡ true) (keep_if q xs)
keep_if-All q [] = tt
keep_if-All q (x ∷ xs) = elim (Bool-cases (q x)) [
  | inl e ↦ rw e (e, keep_if-All q xs)
  | inr e ↦ rw e (keep_if-All q xs)
]

same_id : (ids : List ℕ) (a b : ℕ) → (a == b) ≡ true → is_any ids a ≡ is_any ids b
same_id ids a b h = let e : a ≡ b = ground arith in rw e refl

-- The delete leaves no row of the people that are scored, and all rows of the others.
kept_gone :
    (ids : List ℕ) (id : ℕ) (rows : List SignalRow)
    → is_any ids id ≡ true
    → rows_at id (kept ids rows) ≡ []
kept_gone ids id [] h = refl
kept_gone ids id (r ∷ rows) h =
    let ih = kept_gone ids id rows h in
    elim (Bool-cases (is_any ids r.person_id)) [
      | inl e ↦ rw e ih
      | inr e ↦
          let s = same_id ids r.person_id id in
          let k : (r.person_id == id) ≡ false = ground arith in rw (e, k) ih
    ]

kept_stays :
    (ids : List ℕ) (id : ℕ) (rows : List SignalRow)
    → is_any ids id ≡ false
    → rows_at id (kept ids rows) ≡ rows_at id rows
kept_stays ids id [] h = refl
kept_stays ids id (r ∷ rows) h =
    let ih = kept_stays ids id rows h in
    elim (Bool-cases (is_any ids r.person_id)) [
      | inl e ↦
          let s = same_id ids r.person_id id in
          let k : (r.person_id == id) ≡ false = ground arith in rw (e, k) ih
      | inr e ↦ elim (Bool-cases (r.person_id == id)) [
        | inl k ↦ rw (e, k) (ap (λ l. r ∷ l) ih)
        | inr k ↦ rw (e, k) ih
      ]
    ]

map-first :
    (env : Env) (t : Tables) (xs : List Person)
    → map (λ (a : ℕ × List Signal). a.0) (map (scored env t) xs) ≡ ids_of xs
map-first env t [] = refl
map-first env t (x ∷ xs) = ap (λ l. x.id ∷ l) (map-first env t xs)

-- What ScorePeople gives: people with new scores, and new rows behind those that were kept.
pub score_people-done :
    (env : Env) (id : ℕ) (ids : List ℕ) (db : Db)
    → Distinct (ids_of db.people)
    → score_people env none (id ∷ ids) db ≡ (
      record db {
        people = map (marked (scored_of env (id ∷ ids) db)) db.people;
        person_signals =
            kept (id ∷ ids) db.person_signals ++ rows_all env (scored_of env (id ∷ ids) db);
      },
      none,
    )
unfolding score_people scored_of commit
score_people-done env id ids db d =
    let them = keep_if (any_of (id ∷ ids)) db.people in
    rw
      (store_scored-done env (map (scored env db.tables) them) db.people
        (kept (id ∷ ids) db.person_signals)
        (rw (map-first env db.tables them) (keep_if-Distinct (any_of (id ∷ ids)) db.people d))
        (All-map (λ (a : ℕ × List Signal). Differ Signal.key a.1) (scored env db.tables) them
          (All-of_mem (λ (p : Person). Differ Signal.key (signals_for env db.tables p)) them
            (λ p m. signals_for-Differ env db.tables p)))
        (All-map (λ (a : ℕ × List Signal). rows_at a.0 (kept (id ∷ ids) db.person_signals) ≡ [])
          (scored env db.tables) them
          (All-weaken them (λ p. kept_gone (id ∷ ids) p.id db.person_signals)
            (keep_if-All (any_of (id ∷ ids)) db.people))))
      refl

-- Scoring one person leaves another one alone.
marked_skip :
    (env : Env) (t : Tables) (q : Person → Bool) (p x : Person) (xs : List Person)
    → p.id ≢ x.id
    → (marked (map (scored env t) (keep_if q (x ∷ xs))) p
        ≡ marked (map (scored env t) (keep_if q xs)) p)
      × (rows_at p.id (rows_all env (map (scored env t) (keep_if q (x ∷ xs))))
          ≡ rows_at p.id (rows_all env (map (scored env t) (keep_if q xs))))
unfolding marked rows_all
marked_skip env t q p x xs h = elim (Bool-cases (q x)) [
  | inr e ↦ rw e (refl, refl)
  | inl e ↦
      let k : (p.id == x.id) ≡ false = ground arith in
      let k' : (x.id == p.id) ≡ false = ground arith in
      rw (e, marked, rows_all)
        (
          rw k refl,
          rows_at-append p.id (map (row_of env x.id) (signals_for env t x))
                (rows_all env (map (scored env t) (keep_if q xs)))
              ∙ rw (rows_at-other env x.id p.id (signals_for env t x) k') refl,
        )
]

marked_away :
    (env : Env) (t : Tables) (q : Person → Bool) (p : Person) (people : List Person)
    → All (λ i. p.id ≢ i) (ids_of people)
    → (marked (map (scored env t) (keep_if q people)) p ≡ p)
      × (rows_at p.id (rows_all env (map (scored env t) (keep_if q people))) ≡ [])
unfolding marked rows_all
marked_away env t q p [] h = (refl, refl)
marked_away env t q p (x ∷ xs) h =
    let (s, s') = marked_skip env t q p x xs h.0 in
    let (ih, ih') = marked_away env t q p xs h.1 in (s ∙ ih, s' ∙ ih')

abbrev pub marks_of : Env → Tables → Bool → Person → Person
marks_of env t b p = if b then mark (signals_for env t p) p else p

abbrev adds_of : Env → Tables → Bool → Person → List SignalRow
adds_of env t b p = if b then map (row_of env p.id) (signals_for env t p) else []

marked_head :
    (env : Env) (t : Tables) (q : Person → Bool) (x : Person) (xs : List Person)
    → All (λ i. x.id ≢ i) (ids_of xs)
    → (marked (map (scored env t) (keep_if q (x ∷ xs))) x ≡ marks_of env t (q x) x)
      × (rows_at x.id (rows_all env (map (scored env t) (keep_if q (x ∷ xs))))
          ≡ adds_of env t (q x) x)
unfolding marked rows_all
marked_head env t q x xs h = elim (Bool-cases (q x)) [
  | inr e ↦ rw e (marked_away env t q x xs h)
  | inl e ↦
      let k : (x.id == x.id) ≡ true = ground arith in
      let ss = signals_for env t x in
      let (ih, ih') = marked_away env t q (mark ss x) xs h in
      rw (e, marked, rows_all)
        (
          rw k ih,
          rows_at-append x.id (map (row_of env x.id) ss)
                (rows_all env (map (scored env t) (keep_if q xs)))
              ∙ rw (rows_at-own env x.id ss, ih') (append-nil (map (row_of env x.id) ss)),
        )
]

-- Whoever is scored has the new score and the new rows, and no others.
marked_here :
    (env : Env) (t : Tables) (q : Person → Bool) (p : Person) (people : List Person)
    → Distinct (ids_of people)
    → Memᴰ p people
    → (marked (map (scored env t) (keep_if q people)) p ≡ marks_of env t (q p) p)
      × (rows_at p.id (rows_all env (map (scored env t) (keep_if q people)))
          ≡ adds_of env t (q p) p)
marked_here env t q p [] d m = absurd (Memᴰ.not-nil m)
marked_here env t q p (x ∷ xs) d m = elim (Memᴰ.cases_cons m) [
  | inl e ↦ rw e (marked_head env t q x xs d.0)
  | inr n ↦
      let apart =
        All_at (λ (y : Person). x.id ≢ y.id) p xs (All-unmap (λ i. x.id ≢ i) Person.id xs d.0) n in
      let (s, s') = marked_skip env t q p x xs (λ e. apart (sym e)) in
      let (ih, ih') = marked_here env t q p xs d.1 n in (s ∙ ih, s' ∙ ih')
]

-- The people after ScorePeople.
abbrev pub rescored : Env → Tables → List ℕ → Person → Person
rescored env t ids p = marks_of env t (any_of ids p) p

map-All {ℓ κ} :
    {A : Type ℓ} {B : Type κ} (f g : A → B) (xs : List A)
    → All (λ x. f x ≡ g x) xs
    → map f xs ≡ map g xs
map-All f g [] h = refl
map-All f g (x ∷ xs) h = rw (h.0, map-All f g xs h.1) refl

pub score_people-people :
    (env : Env) (id : ℕ) (ids : List ℕ) (db : Db)
    → Distinct (ids_of db.people)
    → map (marked (scored_of env (id ∷ ids) db)) db.people
      ≡ map (rescored env db.tables (id ∷ ids)) db.people
unfolding scored_of
score_people-people env id ids db d =
    map-All (marked (scored_of env (id ∷ ids) db)) (rescored env db.tables (id ∷ ids)) db.people (
      All-of_mem (λ p. marked (scored_of env (id ∷ ids) db) p ≡ rescored env db.tables (id ∷ ids) p)
        db.people (λ p m. (marked_here env db.tables (any_of (id ∷ ids)) p db.people d m).0))

-- The rows of a person after ScorePeople: the new ones, or those from before.
rows_after :
    (env : Env) (ids : List ℕ) (db : Db) (p : Person)
    → Distinct (ids_of db.people)
    → Memᴰ p db.people
    → rows_at p.id (kept ids db.person_signals ++ rows_all env (scored_of env ids db)) ≡ (
        if any_of ids p
        then map (row_of env p.id) (signals_for env db.tables p)
        else rows_at p.id db.person_signals)
unfolding scored_of
rows_after env ids db p d m =
    let own = (marked_here env db.tables (any_of ids) p db.people d m).1 in
    let both =
      rows_at-append p.id (kept ids db.person_signals) (rows_all env (scored_of env ids db)) in
    both ∙ elim (Bool-cases (any_of ids p)) [
      | inl e ↦ rw (e, kept_gone ids p.id db.person_signals e) (own ∙ rw e refl)
      | inr e ↦
          rw (e, kept_stays ids p.id db.person_signals e)
            (rw own (rw e (append-nil (rows_at p.id db.person_signals))))
    ]

rescored-IsRight :
    (env : Env) (t : Tables) (ids : List ℕ) (before after : List SignalRow) (p : Person)
    → rows_at p.id after
      ≡ (if any_of ids p then map (row_of env p.id) (signals_for env t p) else rows_at p.id before)
    → (any_of ids p ≡ false → (is_stale p ≡ true) ⊎ IsRight env t before p)
    → (is_stale (rescored env t ids p) ≡ true) ⊎ IsRight env t after (rescored env t ids p)
unfolding mark signals_for
rescored-IsRight env t ids before after p r h = elim (Bool-cases (any_of ids p)) [
  | inl e ↦ rw e (inr (refl, refl, r ∙ rw e refl))
  | inr e ↦ rw e (elim (h e) [ inl s ↦ inl s | inr (v, s, k) ↦ inr (v, s, r ∙ rw e k) ])
]

-- After ScorePeople, whoever the current rubric has scored is scored right.
pub score_people-IsFresh :
    (env : Env) (id : ℕ) (ids : List ℕ) (db : Db)
    → Distinct (ids_of db.people)
    → IsFreshBut env (id ∷ ids) db
    → IsFresh env (score_people env none (id ∷ ids) db).0
score_people-IsFresh env id ids db d h =
    rw (score_people-done env id ids db d, score_people-people env id ids db d)
      (All-map
        (λ p.
          (is_stale p ≡ true)
          ⊎ IsRight env db.tables
              (kept (id ∷ ids) db.person_signals ++ rows_all env (scored_of env (id ∷ ids) db)) p)
        (rescored env db.tables (id ∷ ids)) db.people
        (All-of_mem
          (λ p.
            (is_stale (rescored env db.tables (id ∷ ids) p) ≡ true)
            ⊎ IsRight env db.tables
                (kept (id ∷ ids) db.person_signals ++ rows_all env (scored_of env (id ∷ ids) db))
                (rescored env db.tables (id ∷ ids) p))
          db.people
          (λ p m.
            rescored-IsRight env db.tables (id ∷ ids) db.person_signals
              (kept (id ∷ ids) db.person_signals ++ rows_all env (scored_of env (id ∷ ids) db)) p
              (rows_after env (id ∷ ids) db p d m)
              (All_at
                (λ p.
                  any_of (id ∷ ids) p ≡ false
                  → (is_stale p ≡ true) ⊎ IsRight env db.tables db.person_signals p)
                p db.people h m))))
