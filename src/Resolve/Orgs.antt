-- ===== src/Resolve/Orgs.antt =====
-- internal/pipeline/resolve.go: upsertOrganisation, kindForURL and domainOf.
use speakertrail.Common.{
  ℕ, ◌+◌, Bool, true, false, none, some, [], ◌∷◌, ◌++◌, Text, bytes, text_eq, contains, is_empty,
  to_lower, trim_prefix, trim_space, ◌||◌, ◌==◌, if◌then◌else◌, set_where, first_where,
}
use speakertrail.Urls.{Parser}
use speakertrail.Resolve.Titles.{Unicode, normalise_org}
use speakertrail.Resolve.Tables.{OrganisationRow, Db, Refused, Stored, Tx}

unfoldable pub kind_for_url : Text → Text
unfolding contains
kind_for_url u =
    if contains (bytes "meetup.com/") u
    then bytes "meetup_group"
    else if contains (bytes "luma.com/") u || contains (bytes "lu.ma/") u
    then bytes "community"
    else bytes "other"

unfoldable pub domain_of : Parser → Text → Text
unfolding trim_prefix to_lower
domain_of parse raw = elim (parse raw) [
  | none ↦ []
  | some u ↦ trim_prefix (bytes "www.") (to_lower u.hostname)
]

-- CASE WHEN old = empty THEN new ELSE old END
abbrev pub unless_is : Text → Text → Text → Text
unless_is empty new old = if text_eq old empty then new else old

unfoldable pub fill_organisation : Parser → Text → Text → Text → OrganisationRow → OrganisationRow
unfolding domain_of text_eq
fill_organisation parse kind website city o = record o {
  website = unless_is [] website o.website;
  website_domain = unless_is [] (domain_of parse website) o.website_domain;
  city = unless_is [] city o.city;
  kind = unless_is (bytes "other") kind o.kind;
}

abbrev pub is_organisation : ℕ → OrganisationRow → Bool
is_organisation id o = o.id == id

abbrev pub has_org_name : Text → OrganisationRow → Bool
has_org_name norm o = text_eq o.normalised_name norm

unfoldable pub insert_organisation : Parser → Text → Text → Text → Text → Text → Db → Db
unfolding domain_of
insert_organisation parse name norm kind website city db = record db {
  organisations =
      db.organisations
      ++ record {
        id = db.next_organisation;
        name = trim_space name;
        normalised_name = norm;
        kind = kind;
        city = city;
        website = website;
        website_domain = domain_of parse website;
      }
        ∷ [];
  next_organisation = db.next_organisation + 1;
}

-- The statements for a name that does not fold to nothing.
unfoldable pub upsert_named : Parser → Text → Text → Text → Text → Text → Tx (ℕ × Bool)
unfolding first_where set_where fill_organisation insert_organisation
upsert_named parse name norm kind website city db =
    elim (first_where (has_org_name norm) db.organisations) [
      | some o ↦
          Stored.done (o.id, false)
            (record db {
              organisations =
                  set_where (is_organisation o.id) (fill_organisation parse kind website city)
                    db.organisations;
            })
      | none ↦
          Stored.done (db.next_organisation, true)
            (insert_organisation parse name norm kind website city db)
    ]

-- upsertOrganisation
unfoldable pub upsert_organisation : Unicode → Parser → Text → Text → Text → Text → Tx (ℕ × Bool)
unfolding upsert_named normalise_org
upsert_organisation u parse name kind website city db =
    if is_empty (normalise_org u name)
    then Stored.refused Refused.empty_organisation_name
    else upsert_named parse name (normalise_org u name) kind website city db
