-- ===== src/Scoring/Examples.antt =====
-- The theorems about the scoring for concrete people.
use speakertrail.Common.{
  ◌==◌, ◌&&◌, ◌≡◌, refl, inl, inr, false, none, some, [], ◌∷◌, Text, bytes, contains, has_prefix,
  All, Distinct, arith, if◌then◌else◌,
}
use speakertrail.Rubric.{Matcher, pos, score, defs}
use speakertrail.Scoring.{Env, Db, signals_for, is_stale, score_stale, score_touched, page_signal}
use speakertrail.Scoring.Input.{Tables, score_input, found_of}
use speakertrail.Scoring.Stored.{IsRight, IsFresh, ids_of}
use speakertrail.Scoring.Stale.{score_stale_done}
use speakertrail.Scoring.Touched.{ChangesOnly, score_touched-IsFresh}

-- An expression for each key: the word that the key starts with, at the start of a text.
abbrev matcher : Text → Matcher
matcher key text =
    if contains (bytes "author") key && has_prefix (bytes "Author") text then some (0, 6) else none

abbrev env : Env
env = record {
  pattern = matcher;
  unless = λ k s. none;
  contact = λ s. contains (bytes "@") s;
  label = λ k. k;
  before = λ a b. false;
}

abbrev no_tables : Tables
no_tables = record {
  events = [];
  appearances = [];
  organisations = [];
  affiliations = [];
  sources = [];
  sightings = [];
  startup_lookups = [];
  page_signals = [];
}

-- A writer whom nobody has scored, and someone who is scored and has no signals.
abbrev db : Db
db = record {
  people =
      record {
        id = 3;
        headline = bytes "Author and coach";
        fit_evidence = [];
        fit_score = pos 0;
        rubric = 0;
      }
      ∷ record { id = 4; headline = []; fit_evidence = []; fit_score = pos 0; rubric = 1 }
      ∷ [];
  person_signals = [];
  tables = no_tables;
}

db-Distinct : Distinct (ids_of db.people)
db-Distinct = ((omega arith, tt), (tt, tt))

db-IsFresh : IsFresh env db
unfolding is_stale signals_for score defs
db-IsFresh = (inl refl, (inr (refl, refl, refl), tt))

score_stale_done_example :
    (db' : Db) × (score_stale env (λ _. none) 2 0 db ≡ some (db', (1, none)))
    × (ids_of db'.people ≡ ids_of db.people)
    × All (IsRight env db'.tables db'.person_signals) db'.people
unfolding is_stale
score_stale_done_example = score_stale_done env 2 0 db db-Distinct db-IsFresh (omega arith)

-- What a page says about the writer.
abbrev told : Tables
told = record no_tables {
  page_signals =
      record {
        person_id = 3;
        signal = bytes "funded";
        passage = bytes "Raised two million";
        found_in = bytes "about page";
        found_at = 9;
      }
      ∷ [];
}

-- That is what page_signal keeps.
told-page_signal :
    page_signal 3 (bytes "funded") (bytes "Raised two million") (bytes "about page") 9 db
    ≡ record db { tables = told }
unfolding page_signal
told-page_signal = refl

told-ChangesOnly : ChangesOnly env (3 ∷ []) db.tables told
unfolding signals_for score_input found_of
told-ChangesOnly p h = let e : (3 == p.id) ≡ false = ground arith in rw (e, signals_for) refl

score_touched-IsFresh_example :
    IsFresh env (score_touched env none none (3 ∷ []) (record db { tables = told }))
score_touched-IsFresh_example =
    score_touched-IsFresh env none 3 [] db told db-Distinct db-IsFresh told-ChangesOnly
