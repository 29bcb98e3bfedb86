-- ===== src/Resolve/Typed/Writes.antt =====
-- internal/pipeline/resolve.go: each statement of the resolver writes values of the enumerations.
use speakertrail.Common.{
  ℕ, ◌≡◌, refl, Bool, Text, bytes, inl, inr, arith, Bool-cases, Option-cases, All-set_where,
  All-snoc, All-add_unless, is_empty, text_eq, first_where, set_where,
}
use speakertrail.Urls.{Parser}
use speakertrail.Resolve.Titles.{Unicode, normalise_org}
use speakertrail.Resolve.Names.{is_one_of, roles}
use speakertrail.Resolve.Tables.{
  PersonRow, OrganisationRow, AppearanceRow, Affiliation, Organising, Db,
}
use speakertrail.Resolve.Orgs
use speakertrail.Resolve.Orgs.{
  upsert_organisation, upsert_named, insert_organisation, fill_organisation, kind_for_url,
  has_org_name,
}
use speakertrail.Resolve.People.{
  Person, Env, find_person, insert_person, set_headline, find_or_insert, add_appearance,
  has_no_headline, is_other, add_affiliation, name_founder,
}
use speakertrail.Resolve.Check.{add_organising}
use speakertrail.Resolve.Typed.{
  IsTypedPerson, IsOneOf, IsTyped, Keeps, org_kinds, affiliation_roles, organising_roles,
}

pub fill-kind :
    (parse : Parser) (kind website city : Text) (o : OrganisationRow)
    → IsOneOf org_kinds kind
    → IsOneOf org_kinds o.kind
    → IsOneOf org_kinds (fill_organisation parse kind website city o).kind
unfolding fill_organisation
fill-kind parse kind website city o h k = elim (Bool-cases (text_eq o.kind (bytes "other"))) [
  | inl e ↦ rw e h
  | inr e ↦ rw e k
]

pub upsert_named-Keeps :
    (parse : Parser) (name norm kind website city : Text)
    → IsOneOf org_kinds kind
    → Keeps (upsert_named parse name norm kind website city)
unfolding upsert_named insert_organisation
upsert_named-Keeps parse name norm kind website city h db a db' e t =
    elim (Option-cases (first_where (has_org_name norm) db.organisations)) [
      | inl k ↦
          let same : insert_organisation parse name norm kind website city db ≡ db' =
            ground arith in
          rw (← same) (record {
            kinds =
                All-snoc (λ (o : OrganisationRow). IsOneOf org_kinds o.kind) db.organisations _
                  t.kinds h;
            events = t.events;
            people = t.people;
            organisings = t.organisings;
            appearances = t.appearances;
            affiliations = t.affiliations;
            profiles = t.profiles;
          })
      | inr (o, k) ↦
          let same : filled o ≡ db' = ground arith in
          rw (← same) (record {
            kinds =
                All-set_where (λ (o : OrganisationRow). IsOneOf org_kinds o.kind)
                  (Orgs.is_organisation o.id) (fill_organisation parse kind website city)
                  db.organisations (λ x. fill-kind parse kind website city x h) t.kinds;
            events = t.events;
            people = t.people;
            organisings = t.organisings;
            appearances = t.appearances;
            affiliations = t.affiliations;
            profiles = t.profiles;
          })
    ]
  where
    filled : OrganisationRow → Db
    filled o = record db {
      organisations =
          set_where (Orgs.is_organisation o.id) (fill_organisation parse kind website city)
            db.organisations;
    }

pub upsert_organisation-Keeps :
    (u : Unicode) (parse : Parser) (name kind website city : Text)
    → IsOneOf org_kinds kind
    → Keeps (upsert_organisation u parse name kind website city)
unfolding upsert_organisation
upsert_organisation-Keeps u parse name kind website city h db a db' e t =
    elim (Bool-cases (is_empty (normalise_org u name))) [
      | inl n ↦ absurd (ground arith)
      | inr n ↦
          upsert_named-Keeps parse name (normalise_org u name) kind website city h db a db'
            (ground arith) t
    ]

pub set_people :
    (db : Db) (q : PersonRow → Bool) (f : PersonRow → PersonRow)
    → ((p : PersonRow) → IsTypedPerson p → IsTypedPerson (f p))
    → IsTyped db
    → IsTyped (record db { people = set_where q f db.people })
set_people db q f k t = record {
  kinds = t.kinds;
  events = t.events;
  people = All-set_where IsTypedPerson q f db.people k t.people;
  organisings = t.organisings;
  appearances = t.appearances;
  affiliations = t.affiliations;
  profiles = t.profiles;
}

pub insert_person-IsTyped :
    (env : Env) (norm city : Text) (p : Person) (now : ℕ) (db : Db)
    → IsTyped db
    → IsTyped (insert_person env norm city p now db)
unfolding insert_person is_one_of text_eq
insert_person-IsTyped env norm city p now db t = record {
  kinds = t.kinds;
  events = t.events;
  people = All-snoc IsTypedPerson db.people _ t.people (refl, refl);
  organisings = t.organisings;
  appearances = t.appearances;
  affiliations = t.affiliations;
  profiles = t.profiles;
}

pub set_headline-IsTyped :
    (id : ℕ) (p : Person) (now : ℕ) (db : Db) → IsTyped db → IsTyped (set_headline id p now db)
unfolding set_headline
set_headline-IsTyped id p now db =
    set_people db (has_no_headline id)
      (λ (q : PersonRow). record q { headline = p.affiliation; updated_at = now }) (λ q h. h)

pub find_or_insert-Keeps :
    (env : Env) (event : ℕ) (norm org city : Text) (p : Person) (now : ℕ)
    → Keeps (find_or_insert env event norm org city p now)
unfolding find_or_insert
find_or_insert-Keeps env event norm org city p now db a db' h t =
    elim (Option-cases (find_person env.appearance_order event norm org db)) [
      | inl e ↦
          let k : insert_person env norm city p now db ≡ db' = ground arith in
          rw (← k) (insert_person-IsTyped env norm city p now db t)
      | inr (id, e) ↦ elim (Bool-cases (is_empty p.affiliation)) [
        | inl n ↦ let k : db ≡ db' = ground arith in rw (← k) t
        | inr n ↦
            let k : set_headline id p now db ≡ db' = ground arith in
            rw (← k) (set_headline-IsTyped id p now db t)
      ]
    ]

pub add_appearance-IsTyped :
    (person event : ℕ) (role : Text) (db : Db)
    → IsOneOf roles role
    → IsTyped db
    → IsTyped (add_appearance person event role db)
unfolding add_appearance
add_appearance-IsTyped person event role db h t = record {
  kinds = t.kinds;
  events = t.events;
  people = t.people;
  organisings = t.organisings;
  appearances =
      All-add_unless (λ (a : AppearanceRow). IsOneOf roles a.role) _ _ db.appearances t.appearances
        h;
  affiliations = t.affiliations;
  profiles = t.profiles;
}

pub add_affiliation-IsTyped :
    (person org : ℕ) (role : Text) (db : Db)
    → IsOneOf affiliation_roles role
    → IsTyped db
    → IsTyped (add_affiliation person org role db)
unfolding add_affiliation
add_affiliation-IsTyped person org role db h t = record {
  kinds = t.kinds;
  events = t.events;
  people = t.people;
  organisings = t.organisings;
  appearances = t.appearances;
  affiliations =
      All-add_unless (λ (f : Affiliation). IsOneOf affiliation_roles f.role) _ _ db.affiliations
        t.affiliations h;
  profiles = t.profiles;
}

pub add_organising-IsTyped :
    (org event : ℕ) (role : Text) (db : Db)
    → IsOneOf organising_roles role
    → IsTyped db
    → IsTyped (add_organising org event role db)
unfolding add_organising
add_organising-IsTyped org event role db h t = record {
  kinds = t.kinds;
  events = t.events;
  people = t.people;
  organisings =
      All-add_unless (λ (g : Organising). IsOneOf organising_roles g.role) _ _ db.organisings
        t.organisings h;
  appearances = t.appearances;
  affiliations = t.affiliations;
  profiles = t.profiles;
}

pub name_founder-IsTyped :
    (id : ℕ) (role : Text) (db : Db) → IsTyped db → IsTyped (name_founder id role db)
unfolding name_founder is_one_of text_eq
name_founder-IsTyped id role db t = elim (Bool-cases (text_eq role (bytes "founder"))) [
  | inl e ↦ rw e (
      set_people db (is_other id) (λ (q : PersonRow). record q { fit = bytes "founder" })
        (λ q h. (refl, h.1)) t)
  | inr e ↦ rw e t
]
