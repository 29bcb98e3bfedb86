-- ===== src/Resolve/Typed/Whole.antt =====
-- internal/pipeline/resolve.go: the transaction of an event, and a whole check, leave the enumerations of
-- the tables kept.
use speakertrail.Resolve.Titles.{normalise_title}
use speakertrail.Common.{
  All, ℕ, ◌≡◌, refl, Bool, Option, none, some, List, [], ◌∷◌, Text, bytes, inl, inr, Bool-cases,
  All-set_where, All-snoc, is_empty, text_eq, any_where,
}
use speakertrail.Fit.{FitRules}
use speakertrail.Resolve.Names.{is_one_of, roles, parse_affiliation, profile_of}
use speakertrail.Resolve.Tables.{EventRow, Profile, Db, Seen, done, exec}
use speakertrail.Resolve.Orgs.{kind_for_url}
use speakertrail.Resolve.People.{
  Person, Env, affiliate, affiliate_named, store_profile, store_profiles, is_profile, store_person,
  resolve_person,
}
use speakertrail.Resolve.Events.{
  find_event, is_event, Organiser, Event, Verdict, Placed, place_event, place, new_row, merged,
  insert_row, update_row,
}
use speakertrail.Resolve.Check.{
  has_no_venue, Source, sight, set_venue, store_venue, store_organiser, store_organisers, store_one,
  store_people, store_around, resolve_event, in_tx, resolve_from, resolve, Tally, counted, counts,
  prepared, Stats, no_people,
}
use speakertrail.Resolve.Found.{write_row-done}
use speakertrail.Resolve.Totals.{step-done, step-refused, Stored-cases}
use speakertrail.Resolve.Typed.{
  IsTypedEvent, event_fits, IsOneOf, IsTyped, Keeps, Keeps-bind, Keeps-exec, Keeps-pure, org_kinds,
  platforms,
}
use speakertrail.Resolve.Typed.Rows.{fit_word-IsOneOf, merged-fit, written-IsTypedEvent, found-fit}
use speakertrail.Resolve.Typed.Writes.{
  upsert_organisation-Keeps, find_or_insert-Keeps, add_appearance-IsTyped, add_affiliation-IsTyped,
  add_organising-IsTyped, name_founder-IsTyped,
}
use speakertrail.Resolve.Typed.Values.{
  IsPart, IsLink, kind_for_url-IsOneOf, normalise_role-IsOneOf, parse_affiliation-IsPart,
  profile_of-IsLink,
}

affiliate_named-Keeps :
    (env : Env) (id : ℕ) (aff : Text × Text) → IsPart aff → Keeps (affiliate_named env id aff)
unfolding affiliate_named affiliate
affiliate_named-Keeps env id (org, role) h = elim (Bool-cases (is_empty org)) [
  | inl e ↦ rw e (Keeps-pure tt)
  | inr e ↦ rw e (
      Keeps-bind _ _
        (upsert_organisation-Keeps env.unicode env.parse org (bytes "company") [] [] company)
        (λ found.
          Keeps-bind _ _ (Keeps-exec _ (λ db. add_affiliation-IsTyped id found.0 role db (h e)))
            (λ _. Keeps-exec _ (name_founder-IsTyped id role))))
]
  where
    company : IsOneOf org_kinds (bytes "company")
    company = unfold is_one_of text_eq in refl

store_profile-IsTyped :
    (env : Env) (id : ℕ) (url : Text) (now : ℕ) (link : Text × Text) (db : Db)
    → IsLink link
    → IsTyped db
    → IsTyped (store_profile env id url now link db)
unfolding store_profile
store_profile-IsTyped env id url now (platform, clean) db h t = elim (Bool-cases (is_empty clean)) [
  | inl e ↦ rw e t
  | inr e ↦ rw e (record {
    kinds = t.kinds;
    events = t.events;
    people = t.people;
    organisings = t.organisings;
    appearances = t.appearances;
    affiliations = t.affiliations;
    profiles = elim (Bool-cases (any_where (is_profile platform clean) db.profiles)) [
      | inl k ↦ rw k (
          All-set_where (λ (q : Profile). IsOneOf platforms q.platform) (is_profile platform clean)
            (λ (q : Profile). record q { last_seen_at = now }) db.profiles (λ x y. y) t.profiles)
      | inr k ↦
          rw k (
            All-snoc (λ (q : Profile). IsOneOf platforms q.platform) db.profiles _ t.profiles (h e))
    ];
  })
]

store_profiles-IsTyped :
    (env : Env) (id : ℕ) (url : Text) (now : ℕ) (links : List Text) (db : Db)
    → IsTyped db
    → IsTyped (store_profiles env id url now links db)
unfolding store_profiles
store_profiles-IsTyped env id url now [] db t = t
store_profiles-IsTyped env id url now (l ∷ ls) db t = store_profiles-IsTyped env id url now ls _ (
    store_profile-IsTyped env id url now (profile_of env.parse env.patterns l) db
      (profile_of-IsLink env.parse env.patterns l) t)

-- roleFor answers with roles of the enumeration.
abbrev pub KnowsRoles : Env → Type 0
KnowsRoles env =
    (label mapped : Text) → env.patterns.role_for label ≡ some mapped → IsOneOf roles mapped

module _ (env : Env) (known : KnowsRoles env) where
  store_person-Keeps :
      (event : ℕ) (city : Text) (p : Person) (url : Text) (now : ℕ) (aff : Text × Text)
      → IsPart aff
      → Keeps (store_person env event city p url now aff)
  unfolding store_person
  store_person-Keeps event city p url now aff h =
      Keeps-bind _ _ (find_or_insert-Keeps env event _ _ city p now) (λ found.
        Keeps-bind _ _
          (Keeps-exec _ (λ db.
            add_appearance-IsTyped found.0 event _ db
              (normalise_role-IsOneOf env.unicode env.patterns p.role known)))
          (λ _. Keeps-bind _ _ (affiliate_named-Keeps env found.0 aff h) (λ _.
            Keeps-bind _ _ (Keeps-exec _ (store_profiles-IsTyped env found.0 url now p.links))
              (λ _. Keeps-pure found))))

  sight-IsTyped :
      (source now : ℕ) (seen : Seen) (is_new : Bool) (db : Db)
      → IsTyped db
      → IsTyped (sight source now seen is_new db)
  unfolding sight
  sight-IsTyped source now seen is_new db t = record {
    kinds = t.kinds;
    events = t.events;
    people = t.people;
    organisings = t.organisings;
    appearances = t.appearances;
    affiliations = t.affiliations;
    profiles = t.profiles;
  }

  sight-Keeps :
      (source now : ℕ) (seen : Seen) (is_new : Bool) → Keeps (exec (sight source now seen is_new))
  sight-Keeps source now seen is_new = Keeps-exec _ (sight-IsTyped source now seen is_new)

  store_one-Keeps :
      (source now id : ℕ) (e : Event) (p : Person) → Keeps (store_one env source now id e p)
  unfolding store_one resolve_person
  store_one-Keeps source now id e p =
      Keeps-bind _ _
        (store_person-Keeps id e.city p e.url now (parse_affiliation env.patterns p.affiliation)
          (parse_affiliation-IsPart env.patterns p.affiliation))
        (λ found.
          Keeps-bind _ _ (sight-Keeps source now (Seen.person_seen found.0) found.1)
            (λ _. Keeps-pure found))

  store_people-Keeps :
      (source now id : ℕ) (e : Event) (t : Tally) (ps : List Person)
      → Keeps (store_people env source now id e t ps)
  unfolding store_people
  store_people-Keeps source now id e t [] = Keeps-pure t
  store_people-Keeps source now id e t (p ∷ ps) =
      Keeps-bind _ _ (store_one-Keeps source now id e p)
        (λ found. store_people-Keeps source now id e (counted t found) ps)

  set_venue-IsTyped : (id venue : ℕ) (db : Db) → IsTyped db → IsTyped (set_venue id venue db)
  unfolding set_venue
  set_venue-IsTyped id venue db t = record {
    kinds = t.kinds;
    events =
        All-set_where IsTypedEvent (has_no_venue id)
          (λ (r : EventRow). record r { venue_id = some venue }) db.events (λ r h. h) t.events;
    people = t.people;
    organisings = t.organisings;
    appearances = t.appearances;
    affiliations = t.affiliations;
    profiles = t.profiles;
  }

  store_venue-Keeps : (id : ℕ) (e : Event) → Keeps (store_venue env id e)
  unfolding store_venue
  store_venue-Keeps id e = elim (Bool-cases (is_empty e.venue)) [
    | inl h ↦ rw h (Keeps-pure tt)
    | inr h ↦ rw h (
        Keeps-bind _ _
          (upsert_organisation-Keeps env.unicode env.parse e.venue (bytes "venue") [] e.city
            (unfold is_one_of text_eq in refl))
          (λ found. Keeps-bind _ _ (Keeps-exec _ (set_venue-IsTyped id found.0)) (λ _.
            Keeps-exec _ (λ db.
              add_organising-IsTyped found.0 id (bytes "venue") db
                (unfold is_one_of text_eq in refl)))))
  ]

  store_organiser-Keeps :
      (source now id : ℕ) (city : Text) (o : Organiser)
      → Keeps (store_organiser env source now id city o)
  unfolding store_organiser
  store_organiser-Keeps source now id city o =
      Keeps-bind _ _
        (upsert_organisation-Keeps env.unicode env.parse o.name (kind_for_url o.url) o.url city
          (kind_for_url-IsOneOf o.url))
        (λ found.
          Keeps-bind _ _
            (Keeps-exec _ (λ db.
              add_organising-IsTyped found.0 id (bytes "organiser") db
                (unfold is_one_of text_eq in refl)))
            (λ _. sight-Keeps source now (Seen.organisation_seen found.0) found.1))

  store_organisers-Keeps :
      (source now id : ℕ) (city : Text) (os : List Organiser)
      → Keeps (store_organisers env source now id city os)
  unfolding store_organisers
  store_organisers-Keeps source now id city [] = Keeps-pure tt
  store_organisers-Keeps source now id city (o ∷ os) = elim (Bool-cases (is_empty o.name)) [
    | inl e ↦ rw e (store_organisers-Keeps source now id city os)
    | inr e ↦ rw e (
        Keeps-bind _ _ (store_organiser-Keeps source now id city o)
          (λ _. store_organisers-Keeps source now id city os))
  ]

  store_around-Keeps :
      (source : ℕ) (e : Event) (now : ℕ) (placed : Placed)
      → Keeps (store_around env source e now placed)
  unfolding store_around
  store_around-Keeps source e now placed =
      Keeps-bind _ _ (sight-Keeps source now (Seen.event_seen placed.id) placed.is_new) (λ _.
        Keeps-bind _ _ (store_venue-Keeps placed.id e) (λ _.
          Keeps-bind _ _ (store_organisers-Keeps source now placed.id e.city e.organisers)
            (λ _. store_people-Keeps source now placed.id e no_people e.people)))

  with_events-IsTyped :
      (db : Db) (events : List EventRow) (next : ℕ)
      → All IsTypedEvent events
      → IsTyped db
      → IsTyped (record db { events = events; next_event = next })
  with_events-IsTyped db events next h t = record {
    kinds = t.kinds;
    events = h;
    people = t.people;
    organisings = t.organisings;
    appearances = t.appearances;
    affiliations = t.affiliations;
    profiles = t.profiles;
  }

  place-Keeps :
      (e : Event) (norm : Text) (v : Verdict) (now : ℕ) (o : Option EventRow) (db : Db) (a : Placed)
      (db' : Db)
      → ((old : EventRow) → o ≡ some old → IsOneOf event_fits old.fit)
      → place e norm v now o db ≡ done a db'
      → IsTyped db
      → IsTyped db'
  unfolding place insert_row update_row
  place-Keeps e norm v now none db a db' k h t =
      let r = new_row db.next_event e norm v now in
      let q = write_row-done r _ a (insert_row r) db db' h in
      let typed = written-IsTypedEvent r _ a (insert_row r) db db' h (fit_word-IsOneOf v.0) in
      rw (← q.1) (with_events-IsTyped db _ _ (All-snoc IsTypedEvent db.events r t.events typed) t)
  place-Keeps e norm v now (some old) db a db' k h t =
      let r = merged e norm v now old in
      let q = write_row-done r _ a (update_row r) db db' h in
      let typed =
        written-IsTypedEvent r _ a (update_row r) db db' h
          (merged-fit e norm v now old (k old refl)) in
      rw (← q.1) (
        with_events-IsTyped db _ _
          (All-set_where IsTypedEvent (is_event r.id) (λ _. r) db.events (λ _ _. typed) t.events) t)

  place_event-Keeps : (v : Verdict) (e : Event) (now : ℕ) → Keeps (place_event env v e now)
  unfolding place_event
  place_event-Keeps v e now db a db' h t =
      let norm = normalise_title env.unicode e.title in
      place-Keeps e norm v now (find_event env.event_order e.url norm e.start db.events) db a db'
        (λ old n. found-fit env.event_order e.url norm e.start db.events old t.events n) h t

  resolve_event-Keeps :
      (v : Verdict) (source : ℕ) (e : Event) (now : ℕ) → Keeps (resolve_event env v source e now)
  unfolding resolve_event
  resolve_event-Keeps v source e now =
      Keeps-bind _ _ (place_event-Keeps v e now)
        (λ placed. Keeps-bind _ _ (store_around-Keeps source e now placed) (λ tally. Keeps-pure _))

  module _ (has : Text → Text → Bool) (rules : FitRules) (src : Source) (now : ℕ) where
    from-IsTyped :
        (es : List Event) (st : Stats) (db : Db)
        → IsTyped db
        → IsTyped (resolve_from env has rules src now st db es).db
    unfolding resolve_from
    from-IsTyped [] st db t = t
    from-IsTyped (e ∷ es) st db t =
        elim (Stored-cases (in_tx env has rules src now (prepared src e) db)) [
          | inl (r, db', k) ↦ rw (step-done env has rules src now e es st db db' r k) (
              from-IsTyped es (counts st r) db'
                (unfold in_tx in resolve_event-Keeps _ src.id (prepared src e) now db r db' k t))
          | inr (w, k) ↦ rw (step-refused env has rules src now e es st db w k) t
        ]

    -- After a check, whether or not it ends early, every enumeration that it writes holds one of its
    -- values, if each did before, and if the words that roleFor answers are roles: an organisation's
    -- kind, an event's format, type and fit, a person's fit and podcast status, the roles of
    -- organisings, appearances and affiliations, and a profile's platform.
    pub resolve-IsTyped :
        (db : Db) (es : List Event) → IsTyped db → IsTyped (resolve env has rules src now db es).db
    unfolding resolve
    resolve-IsTyped db es t = from-IsTyped es _ db t
