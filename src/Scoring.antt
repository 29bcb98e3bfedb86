-- ===== src/Scoring.antt =====
-- internal/pipeline/score.go: the signals and the score of people, stored in one transaction, and the
-- scoring of everyone whom the current rubric has not scored. The regular expressions, the labels of
-- the signals and the order of texts in the database are parameters.
pub mod Input
pub mod Inserts
pub mod Stored
pub mod Stale
pub mod Touched
mod Examples
use speakertrail.Common.{
  ℕ, zero, suc, ◌+◌, ◌==◌, Bool, true, false, not, ◌&&◌, Option, none, some, List, [], ◌∷◌, ◌++◌,
  map, Text, text_eq, length, take, keep_if, set_where, any_where, add_unless, if◌then◌else◌,
}
use speakertrail.Rubric.{Matcher, Rubric, Signal, ℤ, defs, signals, score}
use speakertrail.Scoring.Input.{Tables, PageSignal, score_input}

pub record Env : Type 0 where
  pub pattern : Text → Matcher
  pub unless : Text → Matcher
  pub contact : Text → Bool
  -- Lookup(key).Label
  pub label : Text → Text
  pub before : Text → Text → Bool

-- Version
unfoldable pub version : ℕ
version = 1

pub record Person : Type 0 where
  pub id : ℕ
  pub headline : Text
  pub fit_evidence : Text
  pub fit_score : ℤ
  pub rubric : ℕ

-- A row of person_signals.
pub record SignalRow : Type 0 where
  pub person_id : ℕ
  pub signal : Text
  pub is_for : Bool
  pub label : Text
  pub passage : Text
  pub found_in : Text

pub record Db : Type 0 where
  pub people : List Person
  pub person_signals : List SignalRow
  pub tables : Tables

abbrev pub has_id : ℕ → Person → Bool
has_id id p = p.id == id

-- id = ANY($1)
abbrev pub is_any : List ℕ → ℕ → Bool
is_any ids id = any_where (λ i. i == id) ids

abbrev rubric_of : Env → Rubric
rubric_of env = record { all = defs env.pattern env.unless; contact = env.contact }

-- rubric.Signals(in) for one person
unfoldable pub signals_for : Env → Tables → Person → List Signal
unfolding signals score_input
signals_for env t p =
    signals (rubric_of env) (score_input env.before t p.id p.headline p.fit_evidence)

abbrev pub row_of : Env → ℕ → Signal → SignalRow
row_of env id s = record {
  person_id = id;
  signal = s.key;
  is_for = s.is_for;
  label = env.label s.key;
  passage = s.passage;
  found_in = s.found_in;
}

-- The primary key of person_signals.
abbrev pub conflicts : ℕ → Text → SignalRow → Bool
conflicts id key r = r.person_id == id && text_eq r.signal key

-- The loop that inserts one person's signals: nothing if a row has a key that is taken.
unfoldable pub insert_signals : Env → ℕ → List Signal → List SignalRow → Option (List SignalRow)
unfolding any_where
insert_signals env id [] rows = some rows
insert_signals env id (s ∷ ss) rows =
    let rest = insert_signals env id ss (rows ++ row_of env id s ∷ []) in
    if any_where (conflicts id s.key) rows then none else rest

-- UPDATE people SET fit_score = $2, rubric = $3
unfoldable pub mark : List Signal → Person → Person
unfolding version
mark ss p = record p { fit_score = score ss; rubric = version }

-- The loop of the transaction over what was scored.
unfoldable pub store_scored :
    Env
    → List (ℕ × List Signal)
    → List Person × List SignalRow
    → Option (List Person × List SignalRow)
unfolding insert_signals set_where mark
store_scored env [] (people, rows) = some (people, rows)
store_scored env ((id, ss) ∷ all) (people, rows) = elim (insert_signals env id ss rows) [
  | none ↦ none
  | some rows' ↦ store_scored env all (set_where (has_id id) (mark ss) people, rows')
]

-- What the query and the loop over its rows give: each of the people with their signals.
unfoldable pub scored_of : Env → List ℕ → Db → List (ℕ × List Signal)
unfolding any_where
scored_of env ids db =
    map (λ (p : Person). (p.id, signals_for env db.tables p))
      (keep_if (λ (p : Person). is_any ids p.id) db.people)

-- Why a call returns an error: a statement fails, or a key is taken.
pub data Failure : Type 0 where
  fault : Text → Failure
  key_taken : Failure

unfoldable pub commit : Db → Option (List Person × List SignalRow) → Db × Option Failure
commit db none = (db, some key_taken)
commit db (some (people, rows)) = (record db { people = people; person_signals = rows }, none)

-- ScorePeople. The fault is the error of the statement that fails, if one does.
unfoldable pub score_people : Env → Option Text → List ℕ → Db → Db × Option Failure
unfolding commit store_scored scored_of
score_people env f [] db = (db, none)
score_people env (some e) (id ∷ ids) db = (db, some (fault e))
score_people env none (id ∷ ids) db = commit db (
    store_scored env (scored_of env (id ∷ ids) db) (
      db.people,
      keep_if (λ (r : SignalRow). not (is_any (id ∷ ids) r.person_id)) db.person_signals,
    ))

-- pageSignal
unfoldable pub page_signal : ℕ → Text → Text → Text → ℕ → Db → Db
unfolding add_unless
page_signal id signal passage found_in now db = record db {
  tables = record db.tables {
    page_signals =
        add_unless
          (λ (m : PageSignal).
            m.person_id == id && text_eq m.signal signal && text_eq m.passage passage)
          (record {
            person_id = id;
            signal = signal;
            passage = passage;
            found_in = found_in;
            found_at = now;
          })
          db.tables.page_signals;
  };
}

-- rubric <> Version
unfoldable pub is_stale : Person → Bool
unfolding version
is_stale p = not (p.rubric == version)

-- scoreBatch
abbrev pub score_batch : ℕ
score_batch = 200

-- SELECT id FROM people WHERE rubric <> $1 ORDER BY id LIMIT $2
unfoldable pub batch : Db → List ℕ
unfolding is_stale
batch db = map Person.id (take score_batch (keep_if is_stale db.people))

-- if err := ScorePeople(…); err != nil { return n, err }
abbrev unless_failed :
    ℕ
    → (Db → Option (Db × (ℕ × Option Failure)))
    → Db × Option Failure
    → Option (Db × (ℕ × Option Failure))
unless_failed n next (db, none) = next db
unless_failed n next (db, some err) = some (db, (n, some err))

-- ScoreStale, with what each of its rounds meets, the number of rounds that it may take, and how many
-- people it has scored: the new tables, how many, and the error. Nothing if the rounds do not suffice.
unfoldable pub score_stale :
    Env → (ℕ → Option Text) → ℕ → ℕ → Db → Option (Db × (ℕ × Option Failure))
unfolding score_people batch
score_stale env faults zero n db = none
score_stale env faults (suc fuel) n db = elim (batch db) [
  | [] ↦ some (db, (n, elim (faults fuel) [ none ↦ none | some e ↦ some (fault e) ]))
  | id ∷ ids ↦
      unless_failed n (score_stale env faults fuel (n + length (id ∷ ids)))
        (score_people env (faults fuel) (id ∷ ids) db)
]

-- UPDATE people SET rubric = 0 WHERE id = ANY($1)
unfoldable pub unmark : List ℕ → Db → Db
unfolding set_where any_where
unmark ids db = record db {
  people =
      set_where (λ (p : Person). is_any ids p.id) (λ (p : Person). record p { rubric = 0 })
        db.people;
}

-- What score does after ScorePeople: a failure marks the people for the next run, if the database lets it.
unfoldable mark_if_failed : Option Text → List ℕ → Db × Option Failure → Db
unfolding unmark
mark_if_failed g ids (db, none) = db
mark_if_failed none ids (db, some err) = unmark ids db
mark_if_failed (some e) ids (db, some err) = db

-- score
unfoldable pub score_touched : Env → Option Text → Option Text → List ℕ → Db → Db
unfolding score_people mark_if_failed
score_touched env f g ids db = mark_if_failed g ids (score_people env f ids db)
