-- ===== src/Decisions/Board.antt =====
-- internal/server/decisions.go: what a decision does, said of each person's standing and not of tables.
use mathlib.Core.Path.{fun_ext}
use mathlib.Core.Option
use speakertrail.Common.{
  ℕ, ◌≡◌, refl, ◌∙◌, true, false, ◌||◌, Option, none, some, List, [], ◌∷◌, Text, is_empty, is_some,
  ◌==◌, ==_iff, if◌then◌else◌, arith, Bool-cases, Option-cases, inl, inr,
}
use speakertrail.Rubric.{ℤ}
use speakertrail.Decisions.{
  Person, Decision, People, status_of, set_status, person_of, signals_of, forget, store_decision,
  decided, record_decision, decide,
}

-- Where a person stands: the status, what the rubric says, and the decision about them, if any.
pub record Standing : Type 0 where
  pub status : Text
  pub fit_score : ℤ
  pub rubric : ℕ
  pub decision : Option Decision

abbrev pub Board : Type 0
Board = ℕ → Option Standing

unfoldable pub decision_of : ℕ → List Decision → Option Decision
decision_of id [] = none
decision_of id (d ∷ ds) = let rest = decision_of id ds in if d.person_id == id then some d else rest

abbrev pub standing_of : Option Decision → Person → Standing
standing_of d p = record {
  status = p.podcast_status;
  fit_score = p.fit_score;
  rubric = p.rubric;
  decision = d;
}

-- The board that the tables show.
unfoldable pub board : People → Board
unfolding decision_of person_of
board db id = Option.map (standing_of (decision_of id db.decisions)) (person_of id db.people)

-- The decision that is kept with the evidence of its time, or none for one that is taken back.
unfoldable pub kept_decision : ℕ → Text → ℕ → List Text → Standing → Option Decision
kept_decision id decision now signals s =
    if is_empty decision
    then none
    else some (record {
      person_id = id;
      decision = decision;
      signals = signals;
      fit_score = s.fit_score;
      rubric = s.rubric;
      decided_at = now;
    })

unfoldable pub after : ℕ → Text → ℕ → List Text → Standing → Standing
unfolding kept_decision
after id decision now signals s = record s {
  status = status_of decision;
  decision = kept_decision id decision now signals s;
}

-- The abstract operation: one person's standing changes, if there is such a person.
unfoldable pub judge : ℕ → Text → ℕ → List Text → Board → Board
unfolding after
judge id decision now signals b j =
    if j == id then Option.map (after id decision now signals) (b j) else b j

person_of-set_status :
    (id j : ℕ) (status : Text) (now : ℕ) (ps : List Person)
    → person_of j (set_status id status now ps)
      ≡ Option.map
          (λ (p : Person).
            if j == id
            then record p { podcast_status = status; status_changed_at = now; updated_at = now }
            else p)
          (person_of j ps)
unfolding person_of set_status
person_of-set_status id j status now [] = refl
person_of-set_status id j status now (p ∷ ps) =
    ground (arith, person_of-set_status id j status now ps)

decision_of-forget :
    (id j : ℕ) (ds : List Decision)
    → decision_of j (forget id ds) ≡ (if j == id then none else decision_of j ds)
unfolding decision_of forget
decision_of-forget id j [] = ground arith
decision_of-forget id j (d ∷ ds) = ground (arith, decision_of-forget id j ds)

decision_of-store :
    (d : Decision) (j : ℕ) (ds : List Decision)
    → decision_of j (store_decision d ds) ≡ (if j == d.person_id then some d else decision_of j ds)
unfolding decision_of store_decision
decision_of-store d j [] = ground arith
decision_of-store d j (e ∷ ds) = ground (arith, decision_of-store d j ds)

module _ (sorted : List Text → List Text) (id : ℕ) (decision : Text) (now : ℕ) (db : People) where
  abbrev signals : List Text
  signals = sorted (signals_of id db.signals)

  abbrev updated : People
  updated = record db { people = set_status id (status_of decision) now db.people }

  -- The tables after the statements, where none fails.
  committed : People
  committed = (record_decision sorted none id decision now db updated).0

  taken_back :
      is_empty decision ≡ true → committed ≡ record updated { decisions = forget id db.decisions }
  unfolding committed record_decision
  taken_back e = ground arith

  recorded :
      is_empty decision ≡ false
      → committed ≡ record updated {
        decisions = decided sorted id decision now updated (person_of id updated.people);
      }
  unfolding committed record_decision
  recorded e = ground arith

  committed-people : committed.people ≡ set_status id (status_of decision) now db.people
  committed-people = elim (Bool-cases (is_empty decision)) [
    | inl e ↦ rw (taken_back e) refl
    | inr e ↦ rw (recorded e) refl
  ]

  abbrev judged : Person → Person
  judged p = record p {
    podcast_status = status_of decision;
    status_changed_at = now;
    updated_at = now;
  }

  judged-found :
      (p : Person) → person_of id db.people ≡ some p → person_of id updated.people ≡ some (judged p)
  judged-found p h =
      person_of-set_status id id (status_of decision) now db.people
      ∙ (rw (h, (==_iff id id).1 refl) refl)

  committed-decisions :
      (p : Person) (j : ℕ)
      → person_of id db.people ≡ some p
      → decision_of j committed.decisions ≡ (
          if j == id
          then kept_decision id decision now signals (standing_of none p)
          else decision_of j db.decisions)
  unfolding decided kept_decision
  committed-decisions p j h = elim (Bool-cases (is_empty decision)) [
    | inl e ↦ rw (taken_back e, e) (decision_of-forget id j db.decisions)
    | inr e ↦ rw (recorded e, e, judged-found p h) (decision_of-store _ j db.decisions)
  ]

  board-committed :
      (p : Person) (j : ℕ)
      → person_of id db.people ≡ some p
      → board committed j ≡ judge id decision now signals (board db) j
  unfolding judge board
  board-committed p j h =
      let people : person_of j committed.people
          ≡ Option.map (λ (q : Person). if j == id then judged q else q) (person_of j db.people) =
        rw committed-people (person_of-set_status id j (status_of decision) now db.people) in
      elim (Bool-cases (j == id)) [
        | inl e ↦
            let same : j ≡ id = (==_iff j id).0 e in
            rw (people, committed-decisions p j h, same, h, (==_iff id id).1 refl) refl
        | inr e ↦ ground (arith, people, committed-decisions p j h)
      ]

  missing :
      (fault : Option Text)
      → person_of id db.people ≡ none
      → (decide sorted none fault id decision now db).0 ≡ db
  unfolding decide
  missing fault n = ground arith

  found :
      (p : Person) (fault : Option Text)
      → person_of id db.people ≡ some p
      → decide sorted none fault id decision now db
        ≡ record_decision sorted fault id decision now db updated
  unfolding decide
  found p fault n = ground arith

  nobody :
      (fault : Option Text)
      → person_of id db.people ≡ none
      → board db ≡ (if is_some fault then board db else judge id decision now signals (board db))
  unfolding judge board
  nobody (some e) n = refl
  nobody none n = fun_ext λ j. elim (Bool-cases (j == id)) [
    | inl e ↦ let same : j ≡ id = (==_iff j id).0 e in rw (same, n, (==_iff id id).1 refl) refl
    | inr e ↦ rw e refl
  ]

  both :
      (p : Person) (fault : Option Text)
      → person_of id db.people ≡ some p
      → board (record_decision sorted fault id decision now db updated).0
        ≡ (if is_some fault then board db else judge id decision now signals (board db))
  unfolding committed
  both p (some e) n = unfold record_decision in refl
  both p none n = fun_ext λ j. board-committed p j n

  -- Whatever a decision says and whatever fails, the tables after it show what the abstract
  -- operation makes of the board that they showed: one person's status and decision change, with
  -- the evidence of that time, or the decision is taken back, and where a statement fails or nobody
  -- has the id nothing changes.
  pub decide_refines :
      (fault fault' : Option Text)
      → board (decide sorted fault fault' id decision now db).0 ≡ (
          if is_some fault || is_some fault'
          then board db
          else judge id decision now signals (board db))
  decide_refines (some e) fault' = unfold decide in refl
  decide_refines none fault' = elim (Option-cases (person_of id db.people)) [
    | inl n ↦ rw (missing fault' n) (nobody fault' n)
    | inr (p, n) ↦ rw (found p fault' n) (both p fault' n)
  ]
