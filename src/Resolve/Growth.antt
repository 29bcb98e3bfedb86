-- ===== src/Resolve/Growth.antt =====
-- internal/pipeline/resolve.go: resolvePerson and the statements of resolveEvent after the event's row
-- only add to the tables, in the sense of Resolve/Frame.
use speakertrail.Common.{
  ℕ, ◌≡◌, refl, ◌∙◌, Bool, List, [], ◌∷◌, Text, inl, inr, any_where, set_where, add_unless, arith,
  is_empty, Bool-cases, Option-cases, any_where-append, any_where-set_where, if◌then◌else◌, text_eq,
  bytes,
}
use speakertrail.Urls.{Parser}
use speakertrail.Resolve.Titles.{Unicode, normalise_org}
use speakertrail.Resolve.Names.{profile_of, parse_affiliation}
use speakertrail.Resolve.Tables.{EventRow, PersonRow, Seen, Db, ◌>>◌, pure, exec}
use speakertrail.Resolve.Orgs.{upsert_organisation, kind_for_url, upsert_named, insert_organisation}
use speakertrail.Resolve.People.{
  Person, Env, is_named, find_person, insert_person, set_headline, find_or_insert, add_appearance,
  is_appearance, add_affiliation, name_founder, affiliate, affiliate_named, store_profile,
  store_profiles, store_person, resolve_person,
}
use speakertrail.Resolve.Events.{Organiser, Event}
use speakertrail.Resolve.Check.{
  sight, add_organising, set_venue, store_venue, store_organiser, store_organisers, store_one,
  store_people, Tally, counted,
}
use speakertrail.Resolve.Frame.{
  Grows, Grows-trans, Grows-same, Adds, Adds-bind, Adds-exec, Adds-pure, FindsAs, Columns, reads,
}

upsert_named-Adds :
    (parse : Parser) (name norm kind website city : Text)
    → Adds (upsert_named parse name norm kind website city)
unfolding upsert_named insert_organisation
upsert_named-Adds parse name norm kind website city db a db' h =
    Grows-same db db' (ground arith) (ground arith) (ground arith)

pub upsert_organisation-Adds :
    (u : Unicode) (parse : Parser) (name kind website city : Text)
    → Adds (upsert_organisation u parse name kind website city)
unfolding upsert_organisation
upsert_organisation-Adds u parse name kind website city db a db' h =
    elim (Bool-cases (is_empty (normalise_org u name))) [
      | inl e ↦ absurd (ground arith)
      | inr e ↦
          upsert_named-Adds parse name (normalise_org u name) kind website city db a db'
            (ground arith)
    ]

insert_person-Grows :
    (env : Env) (norm city : Text) (p : Person) (now : ℕ) (db : Db)
    → Grows db (insert_person env norm city p now db)
unfolding insert_person
insert_person-Grows env norm city p now db = record {
  events = λ q. refl;
  names = λ id n k. rw (any_where-append (is_named id n) db.people) (rw k refl);
  appearances = (Grows-same db db refl refl refl).appearances;
}

-- A change of people's rows that leaves ids and names.
Grows-people :
    (db : Db) (q : PersonRow → Bool) (f : PersonRow → PersonRow)
    → ((r : PersonRow) → (f r).id ≡ r.id)
    → ((r : PersonRow) → (f r).normalised_name ≡ r.normalised_name)
    → Grows db (record db { people = set_where q f db.people })
Grows-people db q f i n = record {
  events = λ q. refl;
  names = λ id m k. any_where-set_where (is_named id m) q f db.people (λ r. rw (i r, n r)) ∙ k;
  appearances = (Grows-same db db refl refl refl).appearances;
}

pub find_or_insert-Adds :
    (env : Env) (event : ℕ) (norm org city : Text) (p : Person) (now : ℕ)
    → Adds (find_or_insert env event norm org city p now)
unfolding find_or_insert set_headline
find_or_insert-Adds env event norm org city p now db a db' h =
    elim (Option-cases (find_person env.appearance_order event norm org db)) [
      | inl e ↦
          let k : insert_person env norm city p now db ≡ db' = ground arith in
          rw (← k) (insert_person-Grows env norm city p now db)
      | inr (id, e) ↦
          let k : (if is_empty p.affiliation then db else set_headline id p now db) ≡ db' =
            ground arith in
          rw (← k) (headline id)
    ]
  where
    headline : (id : ℕ) → Grows db (if is_empty p.affiliation then db else set_headline id p now db)
    headline id = elim (Bool-cases (is_empty p.affiliation)) [
      | inl e ↦ rw e (Grows-same db db refl refl refl)
      | inr e ↦ rw e (Grows-people db _ _ (λ r. refl) (λ r. refl))
    ]

pub add_appearance-Grows :
    (person event : ℕ) (role : Text) (db : Db) → Grows db (add_appearance person event role db)
unfolding add_appearance add_unless
add_appearance-Grows person event role db = record {
  events = λ q. refl;
  names = λ id n k. k;
  appearances = elim (Bool-cases (any_where (is_appearance person event role) db.appearances)) [
    | inl e ↦ rw e (Grows-same db db refl refl refl).appearances
    | inr e ↦
        rw e
          (record { person_id = person; event_id = event; role = role; evidence = [] } ∷ [], refl)
  ];
}

name_founder-Grows : (id : ℕ) (role : Text) (db : Db) → Grows db (name_founder id role db)
unfolding name_founder
name_founder-Grows id role db = elim (Bool-cases (text_eq role (bytes "founder"))) [
  | inl e ↦ rw e (Grows-people db _ _ (λ r. refl) (λ r. refl))
  | inr e ↦ rw e (Grows-same db db refl refl refl)
]

affiliate_named-Adds : (env : Env) (id : ℕ) (aff : Text × Text) → Adds (affiliate_named env id aff)
unfolding affiliate_named affiliate add_affiliation
affiliate_named-Adds env id (org, role) = elim (Bool-cases (is_empty org)) [
  | inl e ↦ rw e (Adds-pure tt)
  | inr e ↦ rw e (
      Adds-bind _ _ (upsert_organisation-Adds env.unicode env.parse org (bytes "company") [] [])
        (λ found.
          Adds-bind _ _ (Adds-exec _ (λ db. Grows-same db _ refl refl refl))
            (λ _. Adds-exec _ (name_founder-Grows id role))))
]

store_profile-Grows :
    (env : Env) (id : ℕ) (url : Text) (now : ℕ) (link : Text × Text) (db : Db)
    → Grows db (store_profile env id url now link db)
unfolding store_profile
store_profile-Grows env id url now (platform, clean) db =
    Grows-same db _ (ground arith) (ground arith) (ground arith)

pub store_profiles-Grows :
    (env : Env) (id : ℕ) (url : Text) (now : ℕ) (links : List Text) (db : Db)
    → Grows db (store_profiles env id url now links db)
unfolding store_profiles
store_profiles-Grows env id url now [] db = Grows-same db db refl refl refl
store_profiles-Grows env id url now (l ∷ ls) db =
    Grows-trans db _ _ (store_profile-Grows env id url now (profile_of env.parse env.patterns l) db)
      (store_profiles-Grows env id url now ls _)

-- The statements of resolvePerson after the person's row and the appearance.
pub after_found-Adds :
    (env : Env) (id : ℕ) (url : Text) (now : ℕ) (links : List Text) (aff : Text × Text)
    (found : ℕ × Bool)
    → Adds
        (affiliate_named env id aff >> (exec (store_profiles env id url now links) >> pure found))
after_found-Adds env id url now links aff found =
    Adds-bind _ _ (affiliate_named-Adds env id aff) (λ _.
      Adds-bind _ _ (Adds-exec _ (store_profiles-Grows env id url now links))
        (λ _. Adds-pure found))

pub store_person-Adds :
    (env : Env) (event : ℕ) (city : Text) (p : Person) (url : Text) (now : ℕ) (aff : Text × Text)
    → Adds (store_person env event city p url now aff)
unfolding store_person
store_person-Adds env event city p url now aff =
    Adds-bind _ _ (find_or_insert-Adds env event _ _ city p now) (λ found.
      Adds-bind _ _ (Adds-exec _ (add_appearance-Grows found.0 event _))
        (λ _. after_found-Adds env found.0 url now p.links aff found))

pub sight-Grows :
    (source now : ℕ) (seen : Seen) (is_new : Bool) (db : Db)
    → Grows db (sight source now seen is_new db)
unfolding sight
sight-Grows source now seen is_new db = Grows-same db _ refl refl refl

sight-Adds :
    (source now : ℕ) (seen : Seen) (is_new : Bool) → Adds (exec (sight source now seen is_new))
sight-Adds source now seen is_new = Adds-exec _ (sight-Grows source now seen is_new)

add_organising-Adds : (org event : ℕ) (role : Text) → Adds (exec (add_organising org event role))
unfolding add_organising
add_organising-Adds org event role = Adds-exec _ (λ db. Grows-same db _ refl refl refl)

pub store_one-Adds :
    (env : Env) (source now id : ℕ) (e : Event) (p : Person)
    → Adds (store_one env source now id e p)
unfolding store_one resolve_person
store_one-Adds env source now id e p =
    Adds-bind _ _
      (store_person-Adds env id e.city p e.url now (parse_affiliation env.patterns p.affiliation))
      (λ found.
        Adds-bind _ _ (sight-Adds source now (Seen.person_seen found.0) found.1)
          (λ _. Adds-pure found))

pub store_people-Adds :
    (env : Env) (source now id : ℕ) (e : Event) (t : Tally) (ps : List Person)
    → Adds (store_people env source now id e t ps)
unfolding store_people
store_people-Adds env source now id e t [] = Adds-pure t
store_people-Adds env source now id e t (p ∷ ps) =
    Adds-bind _ _ (store_one-Adds env source now id e p)
      (λ found. store_people-Adds env source now id e (counted t found) ps)

-- A change of events' rows that leaves what findEvent reads.
find-kept :
    (p : EventRow → Bool) (f : EventRow → EventRow) (rows : List EventRow)
    → ((r : EventRow) (q : Columns) → reads q (f r) ≡ reads q r)
    → FindsAs rows (set_where p f rows)
find-kept p f rows k q = any_where-set_where (reads q) p f rows (λ r. k r q)

pub set_venue-Grows : (id venue : ℕ) (db : Db) → Grows db (set_venue id venue db)
unfolding set_venue
set_venue-Grows id venue db = record {
  events = find-kept _ _ db.events (λ r q. refl);
  names = λ i n k. k;
  appearances = (Grows-same db db refl refl refl).appearances;
}

pub store_venue-Adds : (env : Env) (id : ℕ) (e : Event) → Adds (store_venue env id e)
unfolding store_venue
store_venue-Adds env id e = elim (Bool-cases (is_empty e.venue)) [
  | inl h ↦ rw h (Adds-pure tt)
  | inr h ↦ rw h (
      Adds-bind _ _
        (upsert_organisation-Adds env.unicode env.parse e.venue (bytes "venue") [] e.city)
        (λ found.
          Adds-bind _ _ (Adds-exec _ (set_venue-Grows id found.0))
            (λ _. add_organising-Adds found.0 id (bytes "venue"))))
]

store_organiser-Adds :
    (env : Env) (source now id : ℕ) (city : Text) (o : Organiser)
    → Adds (store_organiser env source now id city o)
unfolding store_organiser
store_organiser-Adds env source now id city o =
    Adds-bind _ _
      (upsert_organisation-Adds env.unicode env.parse o.name (kind_for_url o.url) o.url city)
      (λ found.
        Adds-bind _ _ (add_organising-Adds found.0 id (bytes "organiser"))
          (λ _. sight-Adds source now (Seen.organisation_seen found.0) found.1))

pub store_organisers-Adds :
    (env : Env) (source now id : ℕ) (city : Text) (os : List Organiser)
    → Adds (store_organisers env source now id city os)
unfolding store_organisers
store_organisers-Adds env source now id city [] = Adds-pure tt
store_organisers-Adds env source now id city (o ∷ os) = elim (Bool-cases (is_empty o.name)) [
  | inl e ↦ rw e (store_organisers-Adds env source now id city os)
  | inr e ↦ rw e (
      Adds-bind _ _ (store_organiser-Adds env source now id city o)
        (λ _. store_organisers-Adds env source now id city os))
]
