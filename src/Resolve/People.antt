-- ===== src/Resolve/People.antt =====
-- internal/pipeline/resolve.go: resolvePerson, which finds or creates a person and records the appearance,
-- the affiliation and the profiles.
use speakertrail.Common.{
  Order, ℕ, ◌+◌, Bool, true, false, not, ◌&&◌, ◌||◌, Option, none, some, List, [], ◌∷◌, ◌++◌, Text,
  bytes, text_eq, is_empty, contains, ◌==◌, if◌then◌else◌, set_where, first_where, any_where,
  add_unless,
}
use speakertrail.Urls.{Parser}
use speakertrail.Resolve.Titles.{Unicode, normalise_org}
use speakertrail.Resolve.Names.{
  Patterns, normalise_name, normalise_role, parse_affiliation, profile_of, handle_of,
}
use speakertrail.Resolve.Tables.{
  EventRow, PersonRow, AppearanceRow, Affiliation, OrganisationRow, Profile, Db, Stored, Tx, ◌>>=◌,
  ◌>>◌, pure, exec,
}
use speakertrail.Resolve.Orgs.{upsert_organisation}

-- extract.Person
pub record Person : Type 0 where
  pub name : Text
  pub role : Text
  pub affiliation : Text
  pub links : List Text

-- What a Resolver is made of.
pub record Env : Type 0 where
  pub unicode : Unicode
  pub patterns : Patterns
  pub parse : Parser
  -- r.RunID, 0 outside a run.
  pub run_id : ℕ
  pub event_order : Order EventRow
  pub appearance_order : Order AppearanceRow

abbrev pub is_person : ℕ → PersonRow → Bool
is_person id p = p.id == id

abbrev pub is_named : ℕ → Text → PersonRow → Bool
is_named id norm p = p.id == id && text_eq p.normalised_name norm

-- An appearance at the event of a person with the name.
unfoldable pub appears_as : List PersonRow → ℕ → Text → AppearanceRow → Bool
unfolding any_where text_eq
appears_as people event norm a = a.event_id == event && any_where (is_named a.person_id norm) people

-- LIMIT 1, of the rows in the order in which the database reads them.
unfoldable pub at_event : Order AppearanceRow → ℕ → Text → Db → Option ℕ
unfolding appears_as first_where
at_event order event norm db =
    elim (first_where (appears_as db.people event norm) (order.read db.appearances)) [
      | none ↦ none
      | some a ↦ some a.person_id
    ]

unfoldable pub org_names : List OrganisationRow → List Affiliation → ℕ → List Text
unfolding first_where
org_names orgs [] id = []
org_names orgs (f ∷ fs) id =
    let rest = org_names orgs fs id in
    if f.person_id == id
    then elim (first_where (λ (o : OrganisationRow). o.id == f.organisation_id) orgs) [
      | none ↦ rest
      | some o ↦ o.normalised_name ∷ rest
    ]
    else rest

-- The people with the name, and the names of their organisations.
unfoldable pub candidates : Text → Db → List PersonRow → List (ℕ × List Text)
unfolding org_names text_eq
candidates norm db [] = []
candidates norm db (p ∷ ps) =
    let rest = candidates norm db ps in
    if text_eq p.normalised_name norm
    then (p.id, org_names db.organisations db.affiliations p.id) ∷ rest
    else rest

unfoldable pub is_shared : Text → List Text → Bool
unfolding text_eq
is_shared org [] = false
is_shared org (o ∷ os) = (text_eq o org && not (is_empty org)) || is_shared org os

abbrev pub no_names : List Text → Bool
no_names [] = true
no_names (n ∷ ns) = false

unfoldable pub or_first : Option ℕ → Bool → ℕ → Option ℕ
or_first (some f) ok cand = some f
or_first none true cand = some cand
or_first none false cand = none

-- The loop over the candidates: one that shares the organisation, or else the fallback.
unfoldable pub choose : Text → Option ℕ → List (ℕ × List Text) → Option ℕ
unfolding is_shared or_first
choose org fallback [] = fallback
choose org fallback ((cand, names) ∷ rest) =
    let later = choose org (or_first fallback (is_empty org || no_names names) cand) rest in
    if is_shared org names then some cand else later

-- Who the name at the event is, if the tables know.
unfoldable pub find_person : Order AppearanceRow → ℕ → Text → Text → Db → Option ℕ
unfolding at_event candidates choose contains
find_person order event norm org db = elim (at_event order event norm db) [
  | some id ↦ some id
  | none ↦
      if contains (bytes " ") norm then choose org none (candidates norm db db.people) else none
]

-- nullID
unfoldable pub null_id : ℕ → Option ℕ
null_id id = if id == 0 then none else some id

unfoldable pub insert_person : Env → Text → Text → Person → ℕ → Db → Db
unfolding null_id
insert_person env norm city p now db = record db {
  people =
      db.people
      ++ record {
        id = db.next_person;
        full_name = p.name;
        normalised_name = norm;
        city = city;
        headline = p.affiliation;
        fit = bytes "other";
        fit_evidence = [];
        podcast_status = bytes "new";
        first_run_id = null_id env.run_id;
        created_at = now;
        updated_at = now;
        status_changed_at = now;
      }
        ∷ [];
  next_person = db.next_person + 1;
}

abbrev pub has_no_headline : ℕ → PersonRow → Bool
has_no_headline id q = q.id == id && is_empty q.headline

unfoldable pub set_headline : ℕ → Person → ℕ → Db → Db
unfolding set_where
set_headline id p now db = record db {
  people =
      set_where (has_no_headline id)
        (λ (q : PersonRow). record q { headline = p.affiliation; updated_at = now }) db.people;
}

-- The person's id, and whether the row is new.
unfoldable pub find_or_insert : Env → ℕ → Text → Text → Text → Person → ℕ → Tx (ℕ × Bool)
unfolding find_person insert_person set_headline
find_or_insert env event norm org city p now db =
    elim (find_person env.appearance_order event norm org db) [
      | none ↦ Stored.done (db.next_person, true) (insert_person env norm city p now db)
      | some id ↦
          Stored.done (id, false) (if is_empty p.affiliation then db else set_headline id p now db)
    ]

abbrev pub is_appearance : ℕ → ℕ → Text → AppearanceRow → Bool
is_appearance person event role a =
    a.person_id == person && (a.event_id == event && text_eq a.role role)

unfoldable pub add_appearance : ℕ → ℕ → Text → Db → Db
unfolding add_unless text_eq
add_appearance person event role db = record db {
  appearances =
      add_unless (is_appearance person event role)
        (record { person_id = person; event_id = event; role = role; evidence = [] })
        db.appearances;
}

abbrev pub is_affiliation : ℕ → ℕ → Text → Affiliation → Bool
is_affiliation person org role a =
    a.person_id == person && (a.organisation_id == org && text_eq a.role role)

unfoldable pub add_affiliation : ℕ → ℕ → Text → Db → Db
unfolding add_unless text_eq
add_affiliation person org role db = record db {
  affiliations =
      add_unless (is_affiliation person org role)
        (record { person_id = person; organisation_id = org; role = role }) db.affiliations;
}

abbrev pub is_other : ℕ → PersonRow → Bool
is_other id q = q.id == id && text_eq q.fit (bytes "other")

unfoldable pub name_founder : ℕ → Text → Db → Db
unfolding set_where text_eq
name_founder id role db =
    if text_eq role (bytes "founder")
    then record db {
      people =
          set_where (is_other id) (λ (q : PersonRow). record q { fit = bytes "founder" }) db.people;
    }
    else db

unfoldable pub affiliate : Env → ℕ → Text → Text → Tx (Unit {0})
unfolding upsert_organisation add_affiliation name_founder
affiliate env id org role =
    upsert_organisation env.unicode env.parse org (bytes "company") [] [] >>= λ found.
    exec (add_affiliation id found.0 role) >> exec (name_founder id role)

abbrev pub is_profile : Text → Text → Profile → Bool
is_profile platform url q = text_eq q.platform platform && text_eq q.url url

unfoldable pub store_profile : Env → ℕ → Text → ℕ → Text × Text → Db → Db
unfolding set_where any_where handle_of text_eq
store_profile env id url now (platform, clean) db = if is_empty clean then db else record db {
  profiles =
      if any_where (is_profile platform clean) db.profiles
      then set_where (is_profile platform clean) (λ (q : Profile). record q { last_seen_at = now })
          db.profiles
      else db.profiles
        ++ record {
          person_id = id;
          platform = platform;
          url = clean;
          handle = handle_of env.parse clean;
          found_via = bytes "event page " ++ url;
          first_seen_at = now;
          last_seen_at = now;
        }
          ∷ [];
}

unfoldable pub store_profiles : Env → ℕ → Text → ℕ → List Text → Db → Db
unfolding store_profile profile_of
store_profiles env id url now [] db = db
store_profiles env id url now (l ∷ ls) db =
    store_profiles env id url now ls
      (store_profile env id url now (profile_of env.parse env.patterns l) db)

unfoldable pub affiliate_named : Env → ℕ → Text × Text → Tx (Unit {0})
unfolding affiliate
affiliate_named env id (org, role) = if is_empty org then pure tt else affiliate env id org role

-- resolvePerson, with the parts of the affiliation.
unfoldable pub store_person : Env → ℕ → Text → Person → Text → ℕ → Text × Text → Tx (ℕ × Bool)
unfolding find_or_insert add_appearance affiliate_named store_profiles normalise_name normalise_role
    normalise_org
store_person env event city p url now aff = do
  found ←
      find_or_insert env event (normalise_name env.unicode env.patterns p.name)
        (normalise_org env.unicode aff.0) city p now
  exec (add_appearance found.0 event (normalise_role env.unicode env.patterns p.role))
  affiliate_named env found.0 aff
  exec (store_profiles env found.0 url now p.links)
  pure found

-- resolvePerson
unfoldable pub resolve_person : Env → ℕ → Text → Person → Text → ℕ → Tx (ℕ × Bool)
unfolding store_person parse_affiliation
resolve_person env event city p url now =
    store_person env event city p url now (parse_affiliation env.patterns p.affiliation)
