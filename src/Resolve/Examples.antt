-- ===== src/Resolve/Examples.antt =====
-- The resolver on small tables: the theorems about it at concrete inputs, and tests.
use speakertrail.Common.{
  Order, any_where, any_where-append, ◌∙◌, ℕ, ◌≤◌, ◌≡◌, refl, Bool, true, false, none, some, List,
  [], ◌∷◌, ◌++◌, Text, bytes, arith, leb, ◌&&◌, contains, after_prefix, text_eq, first_where, ◌↔◌,
  ◌⊎◌,
}
use speakertrail.Urls.{Url}
use speakertrail.Fit.{FitRules}
use speakertrail.Resolve.Titles.{Unicode, same_title, byte_length, normalise_title, normalise_org}
use speakertrail.Resolve.Titles.Same.{same_title_iff}
use speakertrail.Resolve.Names.{is_one_of, Patterns, parse_affiliation, normalise_name}
use speakertrail.Resolve.Tables.{EventRow, Db, check_violated, Stored, done, refused}
use speakertrail.Resolve.People.{Person, Env}
use speakertrail.Resolve.Events.{Event, Verdict, Placed, find_event, place_event, is_event}
use speakertrail.Resolve.Check.{
  Source, Outcome, Resolved, prepared, resolve_event, in_tx, resolve, store_around,
}
use speakertrail.Resolve.Again.{with_orders, resolve_again}
use speakertrail.Resolve.Merge.{manual_stays, moved_event_refused}
use speakertrail.Resolve.Totals.{resolve_cut}
use speakertrail.Resolve.Typed.{IsTyped, IsTypedEvent}
use speakertrail.Resolve.Typed.Whole.{KnowsRoles, resolve-IsTyped}

abbrev ascii : Unicode
ascii = record { is_alnum = λ c. false; lower = λ c. c }

abbrev meetup : Url
meetup = record {
  scheme = bytes "https";
  host = bytes "meetup.com";
  hostname = bytes "meetup.com";
  path = bytes "/lea/";
  escaped_path = bytes "/lea/";
  raw_query = [];
}

is_letter : ℕ → Bool
is_letter c = leb b'a' c && leb c b'z'

abbrev patterns : Patterns
patterns = record {
  founderish = contains (bytes "ounder");
  roleish = contains (bytes "ounder");
  org_like = λ t. false;
  aff_at = λ t. none;
  role_for = λ t. none;
  unescape = λ t. t;
  strip_marks = λ t. t;
  is_letter = is_letter;
  print_url = λ u. u.host;
}

-- Rows read from the first to the last, and from the last to the first.
abbrev in_order : {A : Type 0} → Order A
in_order = record { read = λ xs. xs; same = λ p xs. refl }

abbrev backwards : {A : Type 0} → List A → List A
backwards [] = []
backwards (x ∷ xs) = backwards xs ++ x ∷ []

any_where-backwards :
    {A : Type 0} (p : A → Bool) (xs : List A) → any_where p (backwards xs) ≡ any_where p xs
unfolding any_where
any_where-backwards p [] = refl
any_where-backwards p (x ∷ xs) =
    let ih = any_where-backwards p xs in
    any_where-append p (backwards xs) (x ∷ []) ∙ rw ih (ground arith)

abbrev reversed : {A : Type 0} → Order A
reversed = record { read = backwards; same = any_where-backwards }

abbrev env : Env
env = record {
  unicode = ascii;
  patterns = patterns;
  parse = λ t. some meetup;
  run_id = 7;
  event_order = in_order;
  appearance_order = in_order;
}

abbrev empty : Db
empty = record {
  events = [];
  organisations = [];
  people = [];
  organisings = [];
  appearances = [];
  affiliations = [];
  profiles = [];
  sightings = [];
  next_event = 1;
  next_organisation = 1;
  next_person = 1;
}

abbrev lea : Person
lea = record {
  name = bytes "Dr. Lea Beispiel";
  role = bytes "speaker";
  affiliation = bytes "Founder, Jupus GmbH";
  links = bytes "https://meetup.com/lea/" ∷ [];
}

abbrev night : Event
night = record {
  title = bytes "Founders Night!";
  description = [];
  start = 100;
  end = some 200;
  venue = [];
  address = [];
  city = bytes "Bonn";
  format = bytes "in_person";
  kind = bytes "talk";
  url = bytes "https://e.de/1";
  price = [];
  organisers = record { name = bytes "Startup Club e.V."; url = [] } ∷ [];
  people = lea ∷ [];
}

abbrev kept : Verdict
kept = (true, bytes "in person in Bonn")

db_of {ℓ} : {A : Type ℓ} → Stored A → Db
db_of (done a db) = db
db_of (refused w) = empty

abbrev nothing : Resolved
nothing = record {
  kept = false;
  is_new = false;
  tally = record { people = 0; new_people = 0; ids = [] };
}

abbrev result_of : Stored Resolved → Resolved
result_of (done r db) = r
result_of (refused w) = nothing

once : Stored Resolved
once = resolve_event env kept 1 night 50 empty

twice : Stored Resolved
unfolding db_of once
twice = resolve_event (with_orders reversed reversed env) kept 1 night 60 (db_of once)

lea-name : normalise_name ascii patterns (bytes "Dr. Lea Beispiel") ≡ bytes "lea beispiel"
unfolding normalise_name is_letter contains after_prefix
lea-name = refl

jupus :
    parse_affiliation patterns (bytes "Founder, Jupus GmbH") ≡ (bytes "Jupus GmbH", bytes "founder")
unfolding parse_affiliation contains after_prefix
jupus = refl

club : normalise_org ascii (bytes "Startup Club e.V.") ≡ bytes "startup club"
unfolding normalise_org after_prefix
club = refl

is_done : Stored Resolved → Bool
is_done (done r db) = true
is_done (refused w) = false

done-of_is_done : (s : Stored Resolved) → is_done s ≡ true → s ≡ done (result_of s) (db_of s)
unfolding is_done db_of
done-of_is_done (done r db) h = refl
done-of_is_done (refused w) h = absurd (cc)

once-is_done : is_done once ≡ true
unfolding is_done once resolve_event is_letter db_of place_event store_around contains after_prefix
once-is_done = refl

once_new : (result_of once).tally ≡ record { people = 1; new_people = 1; ids = 1 ∷ [] }
unfolding once resolve_event is_letter db_of place_event store_around contains after_prefix
once_new = refl

twice-is_done : is_done twice ≡ true
unfolding is_done twice resolve_event is_letter place_event store_around contains after_prefix
twice-is_done = refl

-- An evening that was resolved before is not new, and neither is its speaker.
resolve_again_example :
    ((result_of twice).is_new ≡ false) × ((result_of twice).tally.new_people ≡ 0)
unfolding once twice
resolve_again_example =
    resolve_again env 1 night 0 reversed reversed kept kept 50 60 empty (db_of once) (db_of twice)
      (result_of once) (result_of twice) (unfold any_where in refl)
      (done-of_is_done once once-is_done) (done-of_is_done twice twice-is_done)

same_title_iff_example :
    (same_title (bytes "founders night") (bytes "founders night cologne") ≡ true) ↔ (
      (bytes "founders night" ≡ bytes "founders night cologne")
      ⊎ ((12 ≤ byte_length (bytes "founders night"))
          × (contains (bytes "founders night") (bytes "founders night cologne") ≡ true))
      ⊎ ((12 ≤ byte_length (bytes "founders night cologne"))
          × (contains (bytes "founders night cologne") (bytes "founders night") ≡ true)))
same_title_iff_example = same_title_iff (bytes "founders night") (bytes "founders night cologne")

-- The row of an evening that Tim dropped.
abbrev dropped : EventRow
dropped = record {
  id = 1;
  title = bytes "Founders Night";
  normalised_title = bytes "founders night";
  starts_at = 100;
  ends_at = some 200;
  address = [];
  city = bytes "Bonn";
  format = bytes "in_person";
  kind = bytes "talk";
  canonical_url = bytes "https://e.de/1";
  price = [];
  fit = bytes "dropped";
  fit_reason = bytes "by hand";
  fit_manual = true;
  description = [];
  venue_id = none;
  people_read_at = none;
  created_at = 10;
  updated_at = 10;
}

abbrev stocked : Db
stocked = record empty { events = dropped ∷ []; next_event = 2 }

placing : Stored Placed
placing = place_event env kept night 50 stocked

abbrev placed : Placed
placed = record { id = 1; is_new = false; kept = false }

manual_stays_example :
    (placed.kept ≡ text_eq dropped.fit (bytes "kept"))
    × ((r : EventRow) × (first_where (is_event 1) (db_of placing).events ≡ some r)
        × (r.fit ≡ dropped.fit)
        × (r.fit_reason ≡ dropped.fit_reason)
        × (r.fit_manual ≡ true))
manual_stays_example =
    manual_stays env kept night 50 stocked dropped (db_of placing) placed
      (unfold find_event normalise_title in refl) refl (unfold placing db_of place_event in refl)

abbrev rules : FitRules
rules = record { region = bytes "bonn" ∷ []; keep_words = []; drop_words = [] }

abbrev source : Source
source = record { id = 1; url = bytes "https://e.de/"; city = bytes "Bonn" }

-- The evening, moved to the next week, on a page that gives no end.
abbrev moved : Event
moved = record night { start = 300; end = none }

abbrev other : Event
other = record night {
  title = bytes "Demo Day";
  url = bytes "https://e.de/2";
  people = [];
  organisers = [];
}

has_word : Text → Text → Bool
has_word text w = contains w text

abbrev refused_check : Outcome
refused_check = resolve env has_word rules source 50 stocked (moved ∷ other ∷ [])

moved_event_refused_example :
    (refused_check.db ≡ stocked)
    × (refused_check.trouble
        ≡ some (record { title = bytes "Founders Night!"; why = check_violated }))
moved_event_refused_example =
    moved_event_refused env has_word rules source 50 stocked moved (other ∷ []) dropped 200
      (unfold find_event normalise_title prepared in refl) refl refl (omega arith)

resolve_cut_example :
    (before after : List Event) × (e : Event) × (moved ∷ other ∷ [] ≡ before ++ e ∷ after)
    × ((resolve env has_word rules source 50 stocked before).trouble ≡ none)
    × (refused_check.db ≡ (resolve env has_word rules source 50 stocked before).db)
    × (in_tx env has_word rules source 50
          (prepared source e)
          (resolve env has_word rules source 50 stocked before).db
        ≡ refused check_violated)
    × (bytes "Founders Night!" ≡ e.title)
resolve_cut_example =
    resolve_cut env has_word rules source 50 stocked (moved ∷ other ∷ [])
      (record { title = bytes "Founders Night!"; why = check_violated })
      (moved_event_refused_example.1)

no_roles : KnowsRoles env
no_roles label mapped h = absurd (cc)

dropped-IsTypedEvent : IsTypedEvent dropped
unfolding is_one_of text_eq
dropped-IsTypedEvent = (refl, refl, refl)

resolve-IsTyped_example :
    IsTyped (resolve env has_word rules source 50 stocked (night ∷ other ∷ [])).db
resolve-IsTyped_example =
    resolve-IsTyped env no_roles has_word rules source 50 stocked (night ∷ other ∷ []) (record {
      kinds = tt;
      events = (dropped-IsTypedEvent, tt);
      people = tt;
      organisings = tt;
      appearances = tt;
      affiliations = tt;
      profiles = tt;
    })
