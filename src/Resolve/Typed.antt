-- ===== src/Resolve/Typed.antt =====
-- internal/pipeline/resolve.go and internal/db/migrations/00001_data_model.sql: the enumerations of the
-- tables, which are CHECKs on columns of text, against what the resolver writes to them.
pub mod Whole
pub mod Writes
pub mod Values
pub mod Rows
use speakertrail.Common.{
  ℕ, ◌≡◌, refl, sym, ap, Bool, true, false, ◌||◌, ◌&&◌, not, Option, none, some, List, [], ◌∷◌,
  ◌++◌, Text, bytes, inl, inr, arith, Bool-cases, Option-cases, All, All-set_where, All-snoc,
  All-add_unless, is_empty, text_eq, first_where, set_where, any_where, if◌then◌else◌, text_eq_refl,
  has_suffix,
}
use speakertrail.Urls.{Url, Parser}
use speakertrail.Fit.{FitRules, fit}
use speakertrail.Resolve.Titles.{Unicode, normalise_org, lower}
use speakertrail.Resolve.Names.{
  Patterns, is_one_of, roles, normalise_role, role_of, bare, split_or, parse_affiliation, first_org,
  cut_comma, platform_of, cleaned, profile_of,
}
use speakertrail.Resolve.Tables.{
  EventRow, PersonRow, OrganisationRow, AppearanceRow, Affiliation, Profile, Organising, Db, Seen,
  Stored, done, refused, Tx, ◌>>=◌, ◌>>◌, pure, exec,
}
use speakertrail.Resolve.Orgs
use speakertrail.Resolve.Orgs.{
  upsert_organisation, upsert_named, insert_organisation, fill_organisation, kind_for_url,
  has_org_name,
}
use speakertrail.Resolve.People.{
  Person, Env, find_person, insert_person, set_headline, find_or_insert, add_appearance,
  is_appearance, is_affiliation, add_affiliation, name_founder, affiliate, affiliate_named,
  store_profile, store_profiles, store_person, resolve_person,
}
use speakertrail.Resolve.Events.{formats, event_types, Organiser, Event, Verdict, place_event}
use speakertrail.Resolve.Check.{
  Source, sight, add_organising, is_organising, set_venue, store_venue, store_organiser,
  store_organisers, store_one, store_people, store_around, resolve_event, in_tx, resolve_from,
  resolve, Tally, counted, prepared, Stats,
}
use speakertrail.Resolve.Frame.{>>=-done}

abbrev pub org_kinds : List Text
org_kinds =
    bytes "company"
    ∷ bytes "community"
    ∷ bytes "meetup_group"
    ∷ bytes "venue"
    ∷ bytes "university"
    ∷ bytes "accelerator"
    ∷ bytes "club"
    ∷ bytes "public_body"
    ∷ bytes "other"
    ∷ []

abbrev pub people_fits : List Text
people_fits =
    bytes "founder" ∷ bytes "athlete" ∷ bytes "maker" ∷ bytes "creator" ∷ bytes "other" ∷ []

abbrev pub podcast_statuses : List Text
podcast_statuses =
    bytes "new"
    ∷ bytes "kept"
    ∷ bytes "skipped"
    ∷ bytes "known"
    ∷ bytes "contacted"
    ∷ bytes "replied"
    ∷ bytes "call"
    ∷ bytes "yes"
    ∷ bytes "recorded"
    ∷ bytes "declined"
    ∷ []

-- NULL is the empty text.
abbrev pub event_fits : List Text
event_fits = [] ∷ bytes "kept" ∷ bytes "dropped" ∷ []

abbrev pub affiliation_roles : List Text
affiliation_roles = bytes "founder" ∷ bytes "employee" ∷ bytes "organiser" ∷ bytes "member" ∷ []

abbrev pub organising_roles : List Text
organising_roles =
    bytes "organiser"
    ∷ bytes "co_organiser"
    ∷ bytes "sponsor"
    ∷ bytes "venue"
    ∷ bytes "partner"
    ∷ []

abbrev pub platforms : List Text
platforms =
    bytes "linkedin"
    ∷ bytes "instagram"
    ∷ bytes "youtube"
    ∷ bytes "tiktok"
    ∷ bytes "x"
    ∷ bytes "website"
    ∷ bytes "luma"
    ∷ bytes "meetup"
    ∷ bytes "podcast"
    ∷ bytes "other"
    ∷ []

abbrev pub IsOneOf : List Text → Text → Type 0
IsOneOf xs t = is_one_of t xs ≡ true

abbrev pub IsTypedPerson : PersonRow → Type 0
IsTypedPerson p = IsOneOf people_fits p.fit × IsOneOf podcast_statuses p.podcast_status

abbrev pub IsTypedEvent : EventRow → Type 0
IsTypedEvent r = IsOneOf formats r.format × IsOneOf event_types r.kind × IsOneOf event_fits r.fit

-- Every column that is an enumeration holds one of its values.
pub record IsTyped (db : Db) : Type 0 where
  pub kinds : All (λ (o : OrganisationRow). IsOneOf org_kinds o.kind) db.organisations
  pub events : All IsTypedEvent db.events
  pub people : All IsTypedPerson db.people
  pub organisings : All (λ (g : Organising). IsOneOf organising_roles g.role) db.organisings
  pub appearances : All (λ (a : AppearanceRow). IsOneOf roles a.role) db.appearances
  pub affiliations : All (λ (f : Affiliation). IsOneOf affiliation_roles f.role) db.affiliations
  pub profiles : All (λ (p : Profile). IsOneOf platforms p.platform) db.profiles

-- A transaction that commits keeps the enumerations.
abbrev pub Keeps {ℓ} : {A : Type ℓ} → Tx A → Type ℓ
Keeps {A = A} m = (db : Db) (a : A) (db' : Db) → m db ≡ done a db' → IsTyped db → IsTyped db'

pub Keeps-bind {ℓ κ} :
    {A : Type ℓ} {B : Type κ} (m : Tx A) (f : A → Tx B)
    → Keeps m
    → ((a : A) → Keeps (f a))
    → Keeps (m >>= f)
Keeps-bind m f g h db b db' e t =
    let (a, mid, p, q) = >>=-done m f db b db' e in h a mid b db' q (g db a mid p t)

pub Keeps-exec : (f : Db → Db) → ((db : Db) → IsTyped db → IsTyped (f db)) → Keeps (exec f)
Keeps-exec f g db a db' e t = let k : f db ≡ db' = cc in rw (← k) (g db t)

pub Keeps-pure {ℓ} : {A : Type ℓ} (a : A) → Keeps (pure a)
Keeps-pure a db b db' e t = let k : db ≡ db' = cc in rw (← k) t
