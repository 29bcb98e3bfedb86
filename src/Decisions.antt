-- ===== src/Decisions.antt =====
-- internal/server/decisions.go: a decision about a person, which is stored with the signals that the
-- person has at that time, or taken back. The order in which the database sorts signals is a parameter.
pub mod Board
pub mod Examples
use speakertrail.Common.{
  ℕ, Bool, true, false, Option, none, some, List, [], ◌∷◌, Text, bytes, text_eq, is_empty, ◌==◌,
  if◌then◌else◌,
}
use speakertrail.Rubric.{ℤ}

pub record Person : Type 0 where
  pub id : ℕ
  pub podcast_status : Text
  pub status_changed_at : ℕ
  pub updated_at : ℕ
  pub fit_score : ℤ
  pub rubric : ℕ

-- A row of fit_decisions.
pub record Decision : Type 0 where
  pub person_id : ℕ
  pub decision : Text
  pub signals : List Text
  pub fit_score : ℤ
  pub rubric : ℕ
  pub decided_at : ℕ

pub record People : Type 0 where
  pub people : List Person
  -- person_signals
  pub signals : List (ℕ × Text)
  pub decisions : List Decision

-- The map from a decision to a status, with its zero value for any other.
unfoldable pub status_of : Text → Text
status_of decision =
    if is_empty decision
    then bytes "new"
    else if text_eq decision (bytes "kept")
    then bytes "kept"
    else if text_eq decision (bytes "skipped")
    then bytes "skipped"
    else []

unfoldable pub set_status : ℕ → Text → ℕ → List Person → List Person
set_status id status now [] = []
set_status id status now (p ∷ ps) =
    let rest = set_status id status now ps in
    (if p.id == id
      then record p { podcast_status = status; status_changed_at = now; updated_at = now }
      else p)
    ∷ rest

unfoldable pub person_of : ℕ → List Person → Option Person
person_of id [] = none
person_of id (p ∷ ps) = let rest = person_of id ps in if p.id == id then some p else rest

unfoldable pub signals_of : ℕ → List (ℕ × Text) → List Text
signals_of id [] = []
signals_of id ((i, s) ∷ rows) = let rest = signals_of id rows in if i == id then s ∷ rest else rest

-- DELETE FROM fit_decisions WHERE person_id = $1
unfoldable pub forget : ℕ → List Decision → List Decision
forget id [] = []
forget id (d ∷ ds) = let rest = forget id ds in if d.person_id == id then rest else d ∷ rest

-- INSERT … ON CONFLICT (person_id) DO UPDATE
unfoldable pub store_decision : Decision → List Decision → List Decision
store_decision d [] = d ∷ []
store_decision d (e ∷ es) =
    let rest = store_decision d es in if e.person_id == d.person_id then d ∷ es else e ∷ rest

decided : (List Text → List Text) → ℕ → Text → ℕ → People → Option Person → List Decision
unfolding store_decision signals_of
decided sorted id decision now db none = db.decisions
decided sorted id decision now db (some p) =
    store_decision
      (record {
        person_id = id;
        decision = decision;
        signals = sorted (signals_of id db.signals);
        fit_score = p.fit_score;
        rubric = p.rubric;
        decided_at = now;
      })
      db.decisions

-- The statements after the first one, for the table with the person's new status.
record_decision :
    (List Text → List Text)
    → Option Text
    → ℕ
    → Text
    → ℕ
    → People
    → People
    → People × (Bool × Option Text)
unfolding decided forget person_of
record_decision sorted (some e) id decision now db db' = (db, (true, some e))
record_decision sorted none id decision now db db' =
    if is_empty decision
    then (record db' { decisions = forget id db'.decisions }, (true, none))
    else (
      record db' { decisions = decided sorted id decision now db' (person_of id db'.people) },
      (true, none),
    )

-- decide: whether the person exists, and the error, if any, which rolls the transaction back. The
-- faults are those of its first statement and of the one that follows it.
unfoldable pub decide :
    (List Text → List Text)
    → Option Text
    → Option Text
    → ℕ
    → Text
    → ℕ
    → People
    → People × (Bool × Option Text)
unfolding record_decision person_of set_status status_of
decide sorted (some e) fault id decision now db = (db, (false, some e))
decide sorted none fault id decision now db = elim (person_of id db.people) [
  | none ↦ (db, (false, none))
  | some p ↦
      record_decision sorted fault id decision now db
        (record db { people = set_status id (status_of decision) now db.people })
]
