-- ===== src/Rubric/About.antt =====
-- internal/rubric/rubric.go: About, the signals on a website's about page for one of the people its
-- imprint names. The expressions for the name, made of its longer words, and for a page that speaks as
-- "ich" are parameters.
use speakertrail.Common.{
  Bool, true, false, not, ◌&&◌, ◌||◌, Option, none, some, List, [], ◌∷◌, ◌++◌, Text, bytes, text_eq,
  is_empty, is_some, is_space, length, ltb, if◌then◌else◌,
}
use speakertrail.Rubric.Passages.{passage, rune_count, sentences}
use speakertrail.Rubric.{Matcher, Def, Signal, Rubric, spoils}

-- strings.Fields
unfoldable pub fields_from : Text → Text → List Text
unfolding is_space
fields_from cur [] = if is_empty cur then [] else cur ∷ []
fields_from cur (c ∷ s) =
    let fresh = fields_from [] s in
    let longer = fields_from (cur ++ c ∷ []) s in
    if is_space c then if is_empty cur then fresh else cur ∷ fresh else longer

abbrev fields : Text → List Text
unfolding fields_from
fields s = fields_from [] s

unfoldable pub long_words : List Text → List Text
unfolding rune_count
long_words [] = []
long_words (w ∷ ws) = let rest = long_words ws in if ltb 2 (rune_count w) then w ∷ rest else rest

-- The sentences that About reads: without contact details, and about the person.
unfoldable pub told : Rubric → (Text → Bool) → Bool → Matcher → List Text → List Text
told r named alone first_person [] = []
told r named alone first_person (s ∷ ss) =
    let rest = told r named alone first_person ss in
    if not (r.contact s) && (named s || (alone && is_some (first_person s))) then s ∷ rest else rest

-- The loop over the texts for one definition.
unfoldable pub first_signal : Def → Matcher → List Text → Option Signal
unfolding passage
first_signal d m [] = none
first_signal d m (t ∷ ts) =
    let rest = first_signal d m ts in
    if spoils d.unless t then rest else elim (m t) [
      | none ↦ rest
      | some (i, j) ↦ some (record {
        key = d.key;
        is_for = d.is_for;
        passage = passage t i j;
        found_in = bytes "about page";
      })
    ]

unfoldable pub signal_for : Def → List Text → Option Signal
unfolding first_signal
signal_for d ts = elim d.pattern [ none ↦ none | some m ↦ first_signal d m ts ]

unfoldable pub page_signals : List Def → List Text → List Signal
unfolding signal_for
page_signals [] ts = []
page_signals (d ∷ ds) ts =
    let rest = page_signals ds ts in elim (signal_for d ts) [ none ↦ rest | some s ↦ s ∷ rest ]

unfoldable pub has_key : Text → List Signal → Bool
has_key key [] = false
has_key key (s ∷ ss) = text_eq s.key key || has_key key ss

-- The last loop: a sentence of four words or more that speaks as "ich".
unfoldable pub speaks : Matcher → List Text → List Signal
unfolding fields passage
speaks first_person [] = []
speaks first_person (t ∷ ts) =
    let rest = speaks first_person ts in
    if ltb (length (fields t)) 4 then rest else elim (first_person t) [
      | none ↦ rest
      | some (i, j) ↦
          record {
            key = bytes "owner_operator";
            is_for = true;
            passage = passage t i j;
            found_in = bytes "about page";
          }
          ∷ []
    ]

about_texts : Rubric → Matcher → Bool → List Text → List Signal
unfolding page_signals has_key speaks
about_texts r first_person alone texts =
    let out = page_signals r.all texts in
    if alone && not (has_key (bytes "owner_operator") out)
    then out ++ speaks first_person texts
    else out

about_named : Rubric → (List Text → Text → Bool) → Matcher → Text → Bool → List Text → List Signal
unfolding told about_texts sentences
about_named r named first_person text alone [] = []
about_named r named first_person text alone (w ∷ ws) =
    about_texts r first_person alone (told r (named (w ∷ ws)) alone first_person (sentences text))

-- About
unfoldable pub about :
    Rubric → (List Text → Text → Bool) → Matcher → Text → Text → Bool → List Signal
unfolding about_named long_words fields
about r named first_person text name alone =
    about_named r named first_person text alone (long_words (fields name))
