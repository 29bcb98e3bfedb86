-- ===== src/Fit.antt =====
-- internal/pipeline/fit.go: whether an event goes into the calendar, and why. Whether a text has a word,
-- at a word's start, is what a regular expression says: a parameter.
use speakertrail.Common.{
  Bool, true, false, not, Option, none, some, List, [], ◌∷◌, ◌++◌, Text, bytes, text_eq, is_empty,
  to_lower, trim_space, if◌then◌else◌,
}

-- FitRules. The region is the map's keys.
pub record FitRules : Type 0 where
  pub region : List Text
  pub keep_words : List Text
  pub drop_words : List Text

-- An event, as far as Fit reads it.
pub record Event : Type 0 where
  pub format : Text
  pub city : Text
  pub title : Text
  pub description : Text

unfoldable pub is_in : Text → List Text → Bool
is_in t [] = false
is_in t (x ∷ xs) = let rest = is_in t xs in if text_eq x t then true else rest

-- firstWord: `has text word` is the compiled expression of the word, run on the text.
unfoldable pub first_word : (Text → Text → Bool) → Text → List Text → Option Text
unfolding trim_space
first_word has text [] = none
first_word has text (w ∷ ws) =
    let rest = first_word has text ws in
    if is_empty (trim_space w)
    then rest
    else if has text (trim_space w)
    then some (trim_space w)
    else rest

kept_for : Text → Option Text → Option Text → Bool × Text
kept_for city (some w) description = (true, bytes "keep word: " ++ w)
kept_for city none (some w) = (true, bytes "keep word: " ++ w)
kept_for city none none = (true, bytes "in person in " ++ city)

-- Fit
unfoldable pub fit : (Text → Text → Bool) → FitRules → Event → Bool × Text
unfolding is_in first_word kept_for to_lower
fit has r e =
    if text_eq e.format (bytes "online")
    then (false, bytes "online")
    else if is_empty e.city
    then (false, bytes "city unknown")
    else if not (is_in (to_lower e.city) r.region)
    then (false, bytes "outside the region: " ++ e.city)
    else elim (first_word has e.title r.drop_words) [
      | some w ↦ (false, bytes "drop word: " ++ w)
      | none ↦
          kept_for e.city (first_word has e.title r.keep_words)
            (first_word has e.description r.keep_words)
    ]
