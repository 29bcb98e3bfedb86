-- ===== src/Rubric.antt =====
-- internal/rubric/rubric.go: the signals for and against a person's fit, and the score. The regular
-- expressions are parameters: where one matches a text, and whether one finds a contact detail.
pub mod Passages
pub mod Signals
pub mod About
mod Examples
use speakertrail.Common.{
  ℕ, zero, suc, ◌+◌, Bool, true, false, not, ◌&&◌, ◌||◌, Option, none, some, List, [], ◌∷◌, ◌++◌,
  Text, bytes, text_eq, is_empty, is_some, contains, trim_space, leb, if◌then◌else◌,
}
use speakertrail.Rubric.Passages.{passage}

-- A regular expression: where it first matches a text.
abbrev pub Matcher : Type 0
Matcher = Text → Option (ℕ × ℕ)

-- Def, without the texts for people and for the language model.
pub record Def : Type 0 where
  pub key : Text
  pub is_for : Bool
  pub pattern : Option Matcher
  pub unless : Option Matcher

-- Defs, by the expressions of each key.
unfoldable pub defs : (Text → Matcher) → (Text → Matcher) → List Def
defs pattern unless =
    spoiled "works_with_people" true
    ∷ spoiled "owner_operator" true
    ∷ plain "bootstrapped" true
    ∷ plain "runs_events" true
    ∷ plain "author" true
    ∷ plain "athlete" true
    ∷ plain "career_switch" true
    ∷ bare "still_active" true
    ∷ plain "funded" false
    ∷ spoiled "corporate" false
    ∷ plain "large_company" false
    ∷ plain "enterprise" false
    ∷ plain "therapist" false
    ∷ bare "backed" false
    ∷ bare "inactive" false
    ∷ []
  where
    bare : Prim.Native.String.String → Bool → Def
    bare k b = record { key = bytes k; is_for = b; pattern = none; unless = none }

    plain : Prim.Native.String.String → Bool → Def
    plain k b = record {
      key = bytes k;
      is_for = b;
      pattern = some (pattern (bytes k));
      unless = none;
    }

    spoiled : Prim.Native.String.String → Bool → Def
    spoiled k b = record {
      key = bytes k;
      is_for = b;
      pattern = some (pattern (bytes k));
      unless = some (unless (bytes k));
    }

pub record Signal : Type 0 where
  pub key : Text
  pub is_for : Bool
  pub passage : Text
  pub found_in : Text

pub record Appearance : Type 0 where
  pub role : Text
  pub event : Text
  pub evidence : Text

pub record Company : Type 0 where
  pub name : Text
  pub activity : Text
  pub activity_note : Text
  pub founders : ℕ
  pub portfolio : Text
  pub note : Text

pub record Person : Type 0 where
  pub headline : Text
  pub fit_evidence : Text
  pub appearances : List Appearance
  pub companies : List Company
  pub found : List Signal

-- The rubric's definitions and the expression for contact details.
pub record Rubric : Type 0 where
  pub all : List Def
  pub contact : Text → Bool

-- Lookup
unfoldable pub lookup : List Def → Text → Option Def
lookup [] key = none
lookup (d ∷ ds) key = let rest = lookup ds key in if text_eq d.key key then some d else rest

-- The map `found`, by key.
unfoldable pub signal_of : Text → List Signal → Option Signal
signal_of key [] = none
signal_of key (s ∷ ss) = let rest = signal_of key ss in if text_eq s.key key then some s else rest

-- add
unfoldable pub add : Rubric → Text → Text → Text → List Signal → List Signal
unfolding lookup signal_of
add r key shown found_in found = elim (lookup r.all key) [
  | none ↦ found
  | some d ↦
      if is_empty shown || r.contact shown || is_some (signal_of key found)
      then found
      else record { key = key; is_for = d.is_for; passage = shown; found_in = found_in } ∷ found
]

abbrev pub spoils : Option Matcher → Text → Bool
spoils none s = false
spoils (some u) s = is_some (u s)

-- The loop over the texts for one definition.
unfoldable pub scan : Rubric → Def → Matcher → List (Text × Text) → List Signal → List Signal
unfolding add passage
scan r d m [] found = found
scan r d m ((place, s) ∷ ts) found =
    let rest = scan r d m ts found in
    if spoils d.unless s
    then rest
    else elim (m s) [ none ↦ rest | some (i, j) ↦ add r d.key (passage s i j) place found ]

unfoldable pub scan_all : Rubric → List Def → List (Text × Text) → List Signal → List Signal
unfolding scan
scan_all r [] ts found = found
scan_all r (d ∷ ds) ts found =
    scan_all r ds ts (elim d.pattern [ none ↦ found | some m ↦ scan r d m ts found ])

-- if … { add(…) }
unfoldable pub add_if : Rubric → Bool → Text → Text → Text → List Signal → List Signal
unfolding add
add_if r true key shown place found = add r key shown place found
add_if r false key shown place found = found

abbrev pub hosts : Appearance → Bool
hosts a = text_eq a.role (bytes "host") || text_eq a.role (bytes "moderator")

unfoldable pub add_hosted : Rubric → List Appearance → List Signal → List Signal
unfolding add_if passage
add_hosted r [] found = found
add_hosted r (a ∷ more) found = add_hosted r more (
    add_if r (hosts a && not (is_empty a.evidence)) (bytes "runs_events") (passage a.evidence 0 0)
      (bytes "event page") found)

unfoldable pub add_events : Rubric → List Appearance → List Signal → List Signal
unfolding add_if
add_events r [] found = found
add_events r (a ∷ more) found = add_events r more (
    add_if r (hosts a && not (is_empty a.event)) (bytes "runs_events")
      (bytes "Hosts \"" ++ (a.event ++ bytes "\"")) (bytes "event") found)

abbrev note_of : Company → Text → Text
note_of c note = c.name ++ (bytes ": " ++ note)

-- The switch over the activity; an activity is one text, so at most one of the two is added.
unfoldable pub add_activity : Rubric → Company → List Signal → List Signal
unfolding add_if
add_activity r c found =
    add_if r (text_eq c.activity (bytes "dissolved") || text_eq c.activity (bytes "gone"))
      (bytes "inactive") (note_of c c.activity_note) (bytes "lookup")
      (add_if r (text_eq c.activity (bytes "active")) (bytes "still_active")
        (note_of c c.activity_note) (bytes "lookup") found)

-- One round of the loop over the companies.
unfoldable pub add_company : Rubric → Person → Bool → Company → List Signal → List Signal
unfolding add_if add_activity contains
add_company r p imprint c found =
    add_if r (contains (bytes "(AG)") c.note || contains (bytes "(SE)") c.note)
      (bytes "large_company") (note_of c c.note) (bytes "lookup")
      (add_activity r c (
        add_if r (not (is_empty c.portfolio)) (bytes "backed")
          (bytes "In the portfolio of " ++ c.portfolio) (bytes "portfolio")
          (add_if r (imprint && leb 1 c.founders && leb c.founders 2) (bytes "owner_operator")
            p.fit_evidence (bytes "imprint") found)))

unfoldable pub add_companies : Rubric → Person → Bool → List Company → List Signal → List Signal
unfolding add_company
add_companies r p imprint [] found = found
add_companies r p imprint (c ∷ cs) found =
    add_companies r p imprint cs (add_company r p imprint c found)

unfoldable pub add_found : Rubric → List Signal → List Signal → List Signal
unfolding add trim_space
add_found r [] found = found
add_found r (s ∷ ss) found = add_found r ss (
    add r s.key (trim_space s.passage) (if is_empty s.found_in then bytes "model" else s.found_in)
      found)

abbrev given : Text → Text → List (Text × Text) → List (Text × Text)
given place s rest = if is_empty s then rest else (place, s) ∷ rest

unfoldable pub evidence_texts : List Appearance → List (Text × Text)
evidence_texts [] = []
evidence_texts (a ∷ more) = given (bytes "event page") a.evidence (evidence_texts more)

abbrev by_imprint : Person → Bool
unfolding contains
by_imprint p = contains (bytes ", by its imprint") p.fit_evidence

-- The texts that the expressions are tried on, with where they come from.
unfoldable pub texts_of : Person → List (Text × Text)
unfolding evidence_texts by_imprint
texts_of p = given (bytes "title") p.headline (
    given (if by_imprint p then bytes "imprint" else bytes "event page") p.fit_evidence
      (evidence_texts p.appearances))

-- All that was found, in no order.
unfoldable pub found_in_person : Rubric → Person → List Signal
unfolding scan_all add_hosted add_events add_companies add_found texts_of by_imprint
found_in_person r p = add_found r p.found (
    add_companies r p (by_imprint p) p.companies
      (add_events r p.appearances (add_hosted r p.appearances (scan_all r r.all (texts_of p) []))))

-- The last loop: the signals in the rubric's order.
unfoldable pub in_order : List Def → List Signal → List Signal
unfolding signal_of
in_order [] found = []
in_order (d ∷ ds) found =
    let rest = in_order ds found in elim (signal_of d.key found) [ none ↦ rest | some s ↦ s ∷ rest ]

-- Signals
unfoldable pub signals : Rubric → Person → List Signal
unfolding found_in_person in_order
signals r p = in_order r.all (found_in_person r p)

pub data ℤ : Type 0 where
  pos negsuc : ℕ → ℤ

-- n++ and n--
unfoldable pub incr : ℤ → ℤ
incr (pos n) = pos (suc n)
incr (negsuc zero) = pos 0
incr (negsuc (suc n)) = negsuc n

unfoldable pub decr : ℤ → ℤ
decr (pos zero) = negsuc 0
decr (pos (suc n)) = pos n
decr (negsuc n) = negsuc (suc n)

unfoldable pub score_from : ℤ → List Signal → ℤ
unfolding incr decr
score_from n [] = n
score_from n (s ∷ ss) = score_from (if s.is_for then incr n else decr n) ss

-- Score
unfoldable pub score : List Signal → ℤ
unfolding score_from
score ss = score_from (pos 0) ss
