-- ===== src/Portfolio/Organisations.antt =====
-- internal/pipeline/portfolio.go and resolve.go: the table of organisations after one is looked up or added.
use speakertrail.Common.{
  ℕ, ◌+◌, ◌≤◌, ◌∙◌, ==_iff, any_where, any_where-of_first, any_where-snoc, any_where-append,
  any_where-set_where, Bool, true, false, ◌≡◌, refl, inl, inr, some, Text, is_empty, length,
  length-set_where, length-snoc, set_where, first_where, arith, if◌then◌else◌, Bool-cases,
  Option-cases,
}
use speakertrail.Urls.{Parser}
use speakertrail.Resolve.Titles.{Unicode, normalise_org}
use speakertrail.Resolve.Tables.{OrganisationRow, Db, Stored}
use speakertrail.Resolve.Orgs.{
  upsert_organisation, upsert_named, has_org_name, is_organisation, fill_organisation,
  insert_organisation,
}
use speakertrail.Portfolio.{Startup}
use speakertrail.Portfolio.Entries.{Store, find_entry}

-- Every organisation that the table had it still has.
abbrev pub KeepsIds : Db → Db → Type 0
KeepsIds db db' =
    (id : ℕ)
    → any_where (is_organisation id) db.organisations ≡ true
    → any_where (is_organisation id) db'.organisations ≡ true

-- The organisations after one is looked up or added: one more if it is new, and then its id was not
-- given before. No sighting is.
pub record Added (db : Db) (id : ℕ) (is_new : Bool) (db' : Db) : Type 0 where
  pub organisations : length db'.organisations ≡ length db.organisations + (if is_new then 1 else 0)
  pub sightings : db'.sightings ≡ db.sightings
  pub there : any_where (is_organisation id) db'.organisations ≡ true
  pub kept : KeepsIds db db'
  pub next : db.next_organisation ≤ db'.next_organisation
  pub fresh : is_new ≡ true → db.next_organisation ≤ id

abbrev pub AddsOne : Db → Stored (ℕ × Bool) → Type 0
AddsOne db (Stored.refused e) = Unit
AddsOne db (Stored.done (id, is_new) db') = Added db id is_new db'

upsert_named-AddsOne :
    (parse : Parser) (name norm kind website city : Text) (db : Db)
    → AddsOne db (upsert_named parse name norm kind website city db)
unfolding upsert_named insert_organisation
upsert_named-AddsOne parse name norm kind website city db =
    elim (Option-cases (first_where (has_org_name norm) db.organisations)) [
      | inl e ↦
          rw (e, upsert_named)
            (record {
              organisations = length-snoc db.organisations _;
              sightings = refl;
              there =
                  any_where-snoc (is_organisation db.next_organisation) db.organisations _
                    ((==_iff db.next_organisation db.next_organisation).1 refl);
              kept = λ id k. any_where-append (is_organisation id) db.organisations _ ∙ rw k refl;
              next = omega arith;
              fresh = λ _. omega arith;
            })
      | inr (o, e) ↦
          let fill = fill_organisation parse kind website city in
          let ids : (i : ℕ)
              → any_where (is_organisation i)
                  (set_where (is_organisation o.id) fill db.organisations)
                ≡ any_where (is_organisation i) db.organisations =
            λ i.
              any_where-set_where (is_organisation i) (is_organisation o.id) fill db.organisations
                (λ r. unfold fill_organisation in refl) in
          let found =
            any_where-of_first (has_org_name norm) (is_organisation o.id) db.organisations o e
              ((==_iff o.id o.id).1 refl) in
          rw (e, upsert_named)
            (record {
              organisations =
                  omega (arith, length-set_where (is_organisation o.id) fill db.organisations);
              sightings = refl;
              there = ids o.id ∙ found;
              kept = λ id k. ids id ∙ k;
              next = omega arith;
              fresh = λ h. absurd (cc);
            })
    ]

pub upsert_organisation-AddsOne :
    (u : Unicode) (parse : Parser) (name kind website city : Text) (db : Db)
    → AddsOne db (upsert_organisation u parse name kind website city db)
unfolding upsert_organisation
upsert_organisation-AddsOne u parse name kind website city db =
    elim (Bool-cases (is_empty (normalise_org u name))) [
      | inl e ↦ rw (e, upsert_organisation) tt
      | inr e ↦
          rw (e, upsert_organisation)
            (upsert_named-AddsOne parse name (normalise_org u name) kind website city db)
    ]

-- A name that upsertOrganisation takes.
abbrev pub IsName : Unicode → Text → Type 0
IsName u name = is_empty (normalise_org u name) ≡ false

abbrev pub commits : Stored (ℕ × Bool) → Bool
commits (Stored.done r db) = true
commits (Stored.refused e) = false

upsert_named-commits :
    (parse : Parser) (name norm kind website city : Text) (db : Db)
    → commits (upsert_named parse name norm kind website city db) ≡ true
unfolding upsert_named
upsert_named-commits parse name norm kind website city db =
    elim (Option-cases (first_where (has_org_name norm) db.organisations)) [
      | inl e ↦ rw (e, upsert_named) refl
      | inr (o, e) ↦ rw (e, upsert_named) refl
    ]

pub upsert_organisation-commits :
    (u : Unicode) (parse : Parser) (name kind website city : Text) (db : Db)
    → IsName u name
    → commits (upsert_organisation u parse name kind website city db) ≡ true
unfolding upsert_organisation
upsert_organisation-commits u parse name kind website city db h =
    rw (h, upsert_organisation)
      (upsert_named-commits parse name (normalise_org u name) kind website city db)

-- Where findEntry answers with an organisation, the table has it.
pub found-Added :
    (parse : Parser) (s : Startup) (st : Store) (o : OrganisationRow)
    → find_entry parse s st ≡ some o
    → Added st.db o.id false st.db
unfolding find_entry
found-Added parse s st o h =
    let self = (==_iff o.id o.id).1 refl in
    record {
      organisations = omega arith;
      sightings = refl;
      there = elim (Bool-cases (is_empty s.website)) [
        | inl e ↦ any_where-of_first _ (is_organisation o.id) st.db.organisations o (rw e at h) self
        | inr e ↦ any_where-of_first _ (is_organisation o.id) st.db.organisations o (rw e at h) self
      ];
      kept = λ id k. k;
      next = omega arith;
      fresh = λ k. absurd (cc);
    }
