-- ===== src/Scoring/Input.antt =====
-- internal/pipeline/score.go: scoreInput, what the rubric reads about a person, over the tables of the
-- schema as far as it reads their columns. The tables stand in the order of their ids; the order of two
-- texts in the database is a parameter, and rows that it does not tell apart stay in the table's order.
use speakertrail.Common.{
  ℕ, ◌==◌, ltb, Bool, false, ◌&&◌, ◌||◌, Option, none, some, List, [], ◌∷◌, map, Text, bytes,
  text_eq, length, keep_if, first_where, any_where, if◌then◌else◌,
}
use speakertrail.Rubric
use speakertrail.Rubric.{Signal, Appearance, Company}

pub record EventRow : Type 0 where
  pub id : ℕ
  pub title : Text
  pub starts_at : ℕ

pub record AppearanceRow : Type 0 where
  pub person_id : ℕ
  pub event_id : ℕ
  pub role : Text
  pub evidence : Text

pub record OrganisationRow : Type 0 where
  pub id : ℕ
  pub name : Text
  pub activity : Text
  pub activity_note : Text

pub record AffiliationRow : Type 0 where
  pub person_id : ℕ
  pub organisation_id : ℕ
  pub role : Text

pub record SourceRow : Type 0 where
  pub id : ℕ
  pub name : Text
  pub kind : Text

pub record SightingRow : Type 0 where
  pub source_id : ℕ
  pub organisation_id : Option ℕ

pub record LookUpRow : Type 0 where
  pub organisation_id : ℕ
  pub note : Text

pub record PageSignal : Type 0 where
  pub person_id : ℕ
  pub signal : Text
  pub passage : Text
  pub found_in : Text
  pub found_at : ℕ

-- The tables that scoring reads and does not write.
pub record Tables : Type 0 where
  pub events : List EventRow
  pub appearances : List AppearanceRow
  pub organisations : List OrganisationRow
  pub affiliations : List AffiliationRow
  pub sources : List SourceRow
  pub sightings : List SightingRow
  pub startup_lookups : List LookUpRow
  pub page_signals : List PageSignal

-- ORDER BY: `before x y` says that x comes before y.
unfoldable pub insert_sorted {ℓ} : {A : Type ℓ} → (A → A → Bool) → A → List A → List A
insert_sorted before x [] = x ∷ []
insert_sorted before x (y ∷ ys) =
    let rest = insert_sorted before x ys in if before y x then y ∷ rest else x ∷ y ∷ ys

unfoldable pub order_by {ℓ} : {A : Type ℓ} → (A → A → Bool) → List A → List A
unfolding insert_sorted
order_by before [] = []
order_by before (x ∷ xs) = insert_sorted before x (order_by before xs)

-- ORDER BY id DESC LIMIT 1
unfoldable pub last_where {ℓ} : {A : Type ℓ} → (A → Bool) → List A → Option A
last_where p [] = none
last_where p (x ∷ xs) = elim (last_where p xs) [
  | some y ↦ some y
  | none ↦ if p x then some x else none
]

-- FROM appearances a JOIN events e ON e.id = a.event_id WHERE a.person_id = p.id
unfoldable pub joined_events : ℕ → Tables → List AppearanceRow → List (AppearanceRow × EventRow)
unfolding first_where
joined_events id t [] = []
joined_events id t (a ∷ more) =
    let rest = joined_events id t more in
    if a.person_id == id
    then elim (first_where (λ (e : EventRow). e.id == a.event_id) t.events) [
      | none ↦ rest
      | some e ↦ (a, e) ∷ rest
    ]
    else rest

-- ORDER BY e.starts_at, e.id
abbrev starts_before : AppearanceRow × EventRow → AppearanceRow × EventRow → Bool
starts_before (a, e) (b, f) =
    ltb e.starts_at f.starts_at || (e.starts_at == f.starts_at && ltb e.id f.id)

abbrev shown_appearance : AppearanceRow × EventRow → Appearance
shown_appearance (a, e) = record { role = a.role; event = e.title; evidence = a.evidence }

unfoldable pub appearances_of : ℕ → Tables → List Appearance
unfolding joined_events order_by
appearances_of id t =
    map shown_appearance (order_by starts_before (joined_events id t t.appearances))

abbrev is_founder : ℕ → AffiliationRow → Bool
is_founder organisation x = x.organisation_id == organisation && text_eq x.role (bytes "founder")

abbrev sees : ℕ → SightingRow → Bool
sees organisation si = elim si.organisation_id [ none ↦ false | some o ↦ o == organisation ]

-- The name of the portfolio that a sighting is from.
unfoldable pub portfolio_of : ℕ → Tables → List SightingRow → Text
unfolding first_where
portfolio_of organisation t [] = []
portfolio_of organisation t (si ∷ more) =
    let rest = portfolio_of organisation t more in
    if sees organisation si
    then elim (first_where
        (λ (s : SourceRow). s.id == si.source_id && text_eq s.kind (bytes "portfolio")) t.sources) [
          | none ↦ rest
          | some s ↦ s.name
        ]
    else rest

abbrev note_or_empty : Option LookUpRow → Text
note_or_empty none = []
note_or_empty (some l) = l.note

unfoldable pub company_of : Tables → OrganisationRow → Company
unfolding portfolio_of last_where
company_of t o = record {
  name = o.name;
  activity = o.activity;
  activity_note = o.activity_note;
  founders = length (keep_if (is_founder o.id) t.affiliations);
  portfolio = portfolio_of o.id t t.sightings;
  note =
      note_or_empty (last_where (λ (l : LookUpRow). l.organisation_id == o.id) t.startup_lookups);
}

-- FROM affiliations af JOIN organisations o …, ordered by o.id: a person and an organisation have one
-- row with the role, by the key of affiliations.
unfoldable pub companies_of : ℕ → Tables → List Company
unfolding company_of any_where
companies_of id t = map (company_of t) (
    keep_if
      (λ (o : OrganisationRow).
        any_where (λ (x : AffiliationRow). x.person_id == id && is_founder o.id x) t.affiliations)
      t.organisations)

-- ORDER BY m.found_at, m.signal
abbrev found_before : (Text → Text → Bool) → PageSignal → PageSignal → Bool
found_before before m n =
    ltb m.found_at n.found_at || (m.found_at == n.found_at && before m.signal n.signal)

abbrev shown_signal : PageSignal → Signal
shown_signal m = record {
  key = m.signal;
  is_for = false;
  passage = m.passage;
  found_in = m.found_in;
}

unfoldable pub found_of : (Text → Text → Bool) → ℕ → Tables → List Signal
unfolding order_by
found_of before id t = map shown_signal (
    order_by (found_before before) (keep_if (λ (m : PageSignal). m.person_id == id) t.page_signals))

-- scoreInput for one person
unfoldable pub score_input :
    (Text → Text → Bool) → Tables → ℕ → Text → Text → speakertrail.Rubric.Person
unfolding appearances_of companies_of found_of
score_input before t id headline fit_evidence = record {
  headline = headline;
  fit_evidence = fit_evidence;
  appearances = appearances_of id t;
  companies = companies_of id t;
  found = found_of before id t;
}
