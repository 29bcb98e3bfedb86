-- ===== src/Rubric/Examples.antt =====
-- The theorems about the rubric for a concrete person, and tests of it.
use speakertrail.Common.{
  ◌&&◌, none, some, [], ◌∷◌, Text, bytes, contains, has_prefix, All, if◌then◌else◌,
}
use speakertrail.Rubric.{Matcher, Person, Rubric, defs, signals}
use speakertrail.Rubric.Signals.{IsShown, signals-All}

-- An expression for each key: the word that the key starts with, at the start of a text.
abbrev matcher : Text → Matcher
matcher key text =
    if contains (bytes "author") key && has_prefix (bytes "Author") text then some (0, 6) else none

abbrev never : Text → Matcher
never key text = none

abbrev rubric : Rubric
rubric = record { all = defs matcher never; contact = λ s. contains (bytes "@") s }

abbrev writer : Person
writer = record {
  headline = bytes "Author and coach. Lives here";
  fit_evidence = [];
  appearances =
      record {
        role = bytes "host";
        event = bytes "Reading night";
        evidence = bytes "Mail me@here.org";
      }
      ∷ [];
  companies = [];
  found = [];
}

signals-All_example : All (IsShown rubric) (signals rubric writer)
signals-All_example = signals-All rubric writer
