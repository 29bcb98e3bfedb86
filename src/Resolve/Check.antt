-- ===== src/Resolve/Check.antt =====
-- internal/pipeline/resolve.go: resolveEvent, in its transaction, and the loop of Resolve over the events
-- of one check.
use speakertrail.Common.{
  ℕ, ◌+◌, Bool, true, false, not, ◌&&◌, Option, none, some, List, [], ◌∷◌, ◌++◌, Text, bytes,
  text_eq, is_empty, ltb, ◌==◌, if◌then◌else◌, set_where, add_unless,
}
use speakertrail.Fit
use speakertrail.Fit.{FitRules, fit}
use speakertrail.Resolve.Tables.{
  EventRow, Organising, Seen, Db, Refused, done, refused, Tx, ◌>>=◌, ◌>>◌, pure, exec,
}
use speakertrail.Resolve.Orgs.{upsert_organisation, kind_for_url}
use speakertrail.Resolve.People.{Person, Env, resolve_person}
use speakertrail.Resolve.Events.{Organiser, Event, Verdict, Placed, place_event}

-- sight
unfoldable pub sight : ℕ → ℕ → Seen → Bool → Db → Db
sight source now seen is_new db = record db {
  sightings =
      db.sightings
      ++ record { source_id = source; checked_at = now; seen = seen; is_new = is_new } ∷ [];
}

abbrev pub is_organising : ℕ → ℕ → Text → Organising → Bool
is_organising org event role g =
    g.organisation_id == org && (g.event_id == event && text_eq g.role role)

-- link, for organisings.
unfoldable pub add_organising : ℕ → ℕ → Text → Db → Db
unfolding add_unless text_eq
add_organising org event role db = record db {
  organisings =
      add_unless (is_organising org event role)
        (record { organisation_id = org; event_id = event; role = role }) db.organisings;
}

abbrev pub is_unset : Option ℕ → Bool
is_unset none = true
is_unset (some v) = false

abbrev pub has_no_venue : ℕ → EventRow → Bool
has_no_venue id r = r.id == id && is_unset r.venue_id

unfoldable pub set_venue : ℕ → ℕ → Db → Db
unfolding set_where
set_venue id venue db = record db {
  events =
      set_where (has_no_venue id) (λ (r : EventRow). record r { venue_id = some venue }) db.events;
}

unfoldable pub store_venue : Env → ℕ → Event → Tx (Unit {0})
unfolding upsert_organisation set_venue add_organising
store_venue env id e =
    if is_empty e.venue
    then pure tt
    else upsert_organisation env.unicode env.parse e.venue (bytes "venue") [] e.city >>= λ found.
        exec (set_venue id found.0) >> exec (add_organising found.0 id (bytes "venue"))

-- One organiser that has a name.
unfoldable pub store_organiser : Env → ℕ → ℕ → ℕ → Text → Organiser → Tx (Unit {0})
unfolding upsert_organisation kind_for_url add_organising sight
store_organiser env source now id city o =
    upsert_organisation env.unicode env.parse o.name (kind_for_url o.url) o.url city >>= λ found.
    exec (add_organising found.0 id (bytes "organiser"))
    >> exec (sight source now (Seen.organisation_seen found.0) found.1)

unfoldable pub store_organisers : Env → ℕ → ℕ → ℕ → Text → List Organiser → Tx (Unit {0})
unfolding store_organiser
store_organisers env source now id city [] = pure tt
store_organisers env source now id city (o ∷ os) =
    let rest = store_organisers env source now id city os in
    if is_empty o.name then rest else store_organiser env source now id city o >> rest

-- What resolveEvent counts of the people.
pub record Tally : Type 0 where
  pub people : ℕ
  pub new_people : ℕ
  pub ids : List ℕ

unfoldable pub counted : Tally → ℕ × Bool → Tally
counted t (id, is_new) = record {
  people = t.people + 1;
  new_people = if is_new then t.new_people + 1 else t.new_people;
  ids = t.ids ++ id ∷ [];
}

unfoldable pub store_one : Env → ℕ → ℕ → ℕ → Event → Person → Tx (ℕ × Bool)
unfolding resolve_person sight
store_one env source now id e p = resolve_person env id e.city p e.url now >>= λ found.
    exec (sight source now (Seen.person_seen found.0) found.1) >> pure found

unfoldable pub store_people : Env → ℕ → ℕ → ℕ → Event → Tally → List Person → Tx Tally
unfolding store_one counted
store_people env source now id e t [] = pure t
store_people env source now id e t (p ∷ ps) = store_one env source now id e p >>= λ found.
    store_people env source now id e (counted t found) ps

-- What the source of a check is, as far as Resolve reads it.
pub record Source : Type 0 where
  pub id : ℕ
  pub url : Text
  pub city : Text

pub record Resolved : Type 0 where
  pub kept : Bool
  pub is_new : Bool
  pub tally : Tally

abbrev pub no_people : Tally
no_people = record { people = 0; new_people = 0; ids = [] }

abbrev pub to_fit : Event → Fit.Event
to_fit e = record { format = e.format; city = e.city; title = e.title; description = e.description }

-- The statements after the event's row is written.
unfoldable pub store_around : Env → ℕ → Event → ℕ → Placed → Tx Tally
unfolding sight store_venue store_organisers store_people
store_around env source e now placed = do
  exec (sight source now (Seen.event_seen placed.id) placed.is_new)
  store_venue env placed.id e
  store_organisers env source now placed.id e.city e.organisers
  store_people env source now placed.id e no_people e.people

-- resolveEvent
unfoldable pub resolve_event : Env → Verdict → ℕ → Event → ℕ → Tx Resolved
resolve_event env v source e now = do
  placed ← place_event env v e now
  tally ← store_around env source e now placed
  pure (record { kept = placed.kept; is_new = placed.is_new; tally = tally })

-- The event as Resolve passes it on.
unfoldable pub with_city : Source → Event → Event
unfolding text_eq
with_city src e =
    if is_empty e.city && (not (is_empty src.city) && not (text_eq e.format (bytes "online")))
    then record e { city = src.city }
    else e

unfoldable pub prepared : Source → Event → Event
unfolding with_city text_eq
prepared src e =
    if text_eq e.url src.url then record (with_city src e) { url = [] } else with_city src e

-- ResolveStats
pub record Stats : Type 0 where
  pub events_found : ℕ
  pub events_kept : ℕ
  pub events_new : ℕ
  pub kept_with_people : ℕ
  pub people_found : ℕ
  pub people_new : ℕ
  pub people : List ℕ

abbrev pub one_if : Bool → ℕ
one_if b = if b then 1 else 0

unfoldable pub counts : Stats → Resolved → Stats
counts st r = record {
  events_found = st.events_found + 1;
  events_kept = st.events_kept + one_if r.kept;
  events_new = st.events_new + one_if r.is_new;
  kept_with_people = st.kept_with_people + one_if (r.kept && ltb 0 r.tally.people);
  people_found = st.people_found + r.tally.people;
  people_new = st.people_new + r.tally.new_people;
  people = st.people ++ r.tally.ids;
}

-- The event that a check could not store, and why.
pub record Trouble : Type 0 where
  pub title : Text
  pub why : Refused

-- The tables after the check, what it counted, and what ended it early.
pub record Outcome : Type 0 where
  pub db : Db
  pub stats : Stats
  pub trouble : Option Trouble

module _ (env : Env) (has : Text → Text → Bool) (rules : FitRules) (src : Source) (now : ℕ) where
  -- One event in its transaction.
  unfoldable pub in_tx : Event → Tx Resolved
  in_tx e = resolve_event env (fit has rules (to_fit e)) src.id e now

  -- The loop of Resolve.
  unfoldable pub resolve_from : Stats → Db → List Event → Outcome
  resolve_from st db [] = record { db = db; stats = st; trouble = none }
  resolve_from st db (e ∷ es) = elim (in_tx (prepared src e) db) [
    | done r db' ↦ resolve_from (counts st r) db' es
    | refused why ↦ record {
      db = db;
      stats = record st { events_found = st.events_found + 1 };
      trouble = some (record { title = e.title; why = why });
    }
  ]

  abbrev pub no_stats : Stats
  no_stats = record {
    events_found = 0;
    events_kept = 0;
    events_new = 0;
    kept_with_people = 0;
    people_found = 0;
    people_new = 0;
    people = [];
  }

  -- Resolve
  unfoldable pub resolve : Db → List Event → Outcome
  resolve db es = resolve_from no_stats db es
