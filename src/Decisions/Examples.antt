-- ===== src/Decisions/Examples.antt =====
-- A decision on small tables: the theorem about it at concrete tables, and a test.
use speakertrail.Common.{◌≡◌, refl, none, List, [], ◌∷◌, Text, bytes}
use speakertrail.Rubric.{pos}
use speakertrail.Decisions.{Person, People, decide, signals_of}
use speakertrail.Decisions.Board.{board, judge, decide_refines}

abbrev lea : Person
lea = record {
  id = 4;
  podcast_status = bytes "new";
  status_changed_at = 1;
  updated_at = 1;
  fit_score = pos 2;
  rubric = 3;
}

abbrev tables : People
tables = record { people = lea ∷ []; signals = (4, bytes "founder") ∷ []; decisions = [] }

-- The signals as they come.
abbrev as_is : List Text → List Text
as_is l = l

decide_refines_example :
    board (decide as_is none none 4 (bytes "kept") 9 tables).0
    ≡ judge 4 (bytes "kept") 9 (signals_of 4 tables.signals) (board tables)
decide_refines_example = decide_refines as_is 4 (bytes "kept") 9 tables none none

kept_once :
    (decide as_is none none 4 (bytes "kept") 9 tables).0.decisions
    ≡ record {
      person_id = 4;
      decision = bytes "kept";
      signals = bytes "founder" ∷ [];
      fit_score = pos 2;
      rubric = 3;
      decided_at = 9;
    }
      ∷ []
unfolding decide
kept_once = refl
