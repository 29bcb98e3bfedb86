-- ===== src/Scoring/Touched.antt =====
-- internal/pipeline/score.go: what score leaves of the people that the pipeline has touched.
use speakertrail.Common.{
  ℕ, true, false, ◌≡◌, ◌⊎◌, refl, inl, inr, Option, none, some, List, [], ◌∷◌, Text, set_where, All,
  Distinct, Bool-cases,
}
use speakertrail.Scoring.{
  Env, Person, SignalRow, Db, is_any, signals_for, is_stale, score_people, unmark, mark_if_failed,
  score_touched,
}
use speakertrail.Scoring.Input.{Tables}
use speakertrail.Scoring.Stored.{
  IsRight, IsFresh, ids_of, any_of, score_people-done, score_people-IsFresh,
}

-- The tables say something else, but of no one who is not named.
abbrev pub ChangesOnly : Env → List ℕ → Tables → Tables → Type 0
ChangesOnly env ids t t' =
    (p : Person) → is_any ids p.id ≡ false → signals_for env t' p ≡ signals_for env t p

still-IsRight :
    (env : Env) (ids : List ℕ) (t t' : Tables) (rows : List SignalRow)
    → ChangesOnly env ids t t'
    → (people : List Person) → All (λ p. (is_stale p ≡ true) ⊎ IsRight env t rows p) people
    → All (λ p. any_of ids p ≡ false → (is_stale p ≡ true) ⊎ IsRight env t' rows p) people
still-IsRight env ids t t' rows c [] h = tt
still-IsRight env ids t t' rows c (p ∷ ps) (h, hs) = (
  λ e. elim h [ inl s ↦ inl s | inr r ↦ inr (rw (c p e) r) ],
  still-IsRight env ids t t' rows c ps hs,
)

unmarked :
    (env : Env) (ids : List ℕ) (t : Tables) (rows : List SignalRow) (people : List Person)
    → All (λ p. any_of ids p ≡ false → (is_stale p ≡ true) ⊎ IsRight env t rows p) people
    → All
        (λ p. (is_stale p ≡ true) ⊎ IsRight env t rows p)
        (set_where (any_of ids) (λ (p : Person). record p { rubric = 0 }) people)
unfolding set_where is_stale
unmarked env ids t rows [] h = tt
unmarked env ids t rows (p ∷ ps) (h, hs) =
    let ih = unmarked env ids t rows ps hs in
    elim (Bool-cases (any_of ids p)) [ inl e ↦ rw e (inl refl, ih) | inr e ↦ rw e (h e, ih) ]

touched_stored :
    (env : Env) (id : ℕ) (ids : List ℕ) (db db' : Db)
    → score_people env none (id ∷ ids) db ≡ (db', none)
    → score_touched env none none (id ∷ ids) db ≡ db'
unfolding score_touched mark_if_failed
touched_stored env id ids db db' e = rw e refl

-- Let what is known change of the people that score is called with, and of no one else. Then after score,
-- whether it can store their scores or fails and marks them for the next run, whoever the current rubric
-- has scored is scored right, if that was so before.
pub score_touched-IsFresh :
    (env : Env) (f : Option Text) (id : ℕ) (ids : List ℕ) (db : Db) (t : Tables)
    → Distinct (ids_of db.people)
    → IsFresh env db
    → ChangesOnly env (id ∷ ids) db.tables t
    → IsFresh env (score_touched env f none (id ∷ ids) (record db { tables = t }))
unfolding score_touched score_people unmark mark_if_failed
score_touched-IsFresh env none id ids db t d h c =
    let D = record db { tables = t } in
    let e = score_people-done env id ids D d in
    rw (touched_stored env id ids D (score_people env none (id ∷ ids) D).0 (rw e refl)) (
      score_people-IsFresh env id ids D d
        (still-IsRight env (id ∷ ids) db.tables t db.person_signals c db.people h))
score_touched-IsFresh env (some e) id ids db t d h c =
    unmarked env (id ∷ ids) t db.person_signals db.people
      (still-IsRight env (id ∷ ids) db.tables t db.person_signals c db.people h)
