-- ===== src/Resolve/Tables.antt =====
-- internal/db/migrations: the tables that the resolver writes, as far as it reads or sets their columns, and
-- its transaction: a function of the tables that gives new ones, or refuses.
use speakertrail.Common.{ℕ, Bool, Option, List, Text}

pub record EventRow : Type 0 where
  pub id : ℕ
  pub title : Text
  pub normalised_title : Text
  pub starts_at : ℕ
  pub ends_at : Option ℕ
  pub address : Text
  pub city : Text
  pub format : Text
  pub kind : Text
  pub canonical_url : Text
  pub price : Text
  pub fit : Text
  pub fit_reason : Text
  pub fit_manual : Bool
  pub description : Text
  pub venue_id : Option ℕ
  pub people_read_at : Option ℕ
  pub created_at : ℕ
  pub updated_at : ℕ

pub record OrganisationRow : Type 0 where
  pub id : ℕ
  pub name : Text
  pub normalised_name : Text
  pub kind : Text
  pub city : Text
  pub website : Text
  pub website_domain : Text

pub record PersonRow : Type 0 where
  pub id : ℕ
  pub full_name : Text
  pub normalised_name : Text
  pub city : Text
  pub headline : Text
  pub fit : Text
  pub fit_evidence : Text
  pub podcast_status : Text
  pub first_run_id : Option ℕ
  pub created_at : ℕ
  pub updated_at : ℕ
  pub status_changed_at : ℕ

pub record Organising : Type 0 where
  pub organisation_id : ℕ
  pub event_id : ℕ
  pub role : Text

pub record AppearanceRow : Type 0 where
  pub person_id : ℕ
  pub event_id : ℕ
  pub role : Text
  pub evidence : Text

pub record Affiliation : Type 0 where
  pub person_id : ℕ
  pub organisation_id : ℕ
  pub role : Text

pub record Profile : Type 0 where
  pub person_id : ℕ
  pub platform : Text
  pub url : Text
  pub handle : Text
  pub found_via : Text
  pub first_seen_at : ℕ
  pub last_seen_at : ℕ

-- The column of a sighting that is set.
pub data Seen : Type 0 where
  event_seen : ℕ → Seen
  organisation_seen : ℕ → Seen
  person_seen : ℕ → Seen

pub record Sighting : Type 0 where
  pub source_id : ℕ
  pub checked_at : ℕ
  pub seen : Seen
  pub is_new : Bool

-- Rows stand in the order of their ids, and an identity column gives each table its next id.
pub record Db : Type 0 where
  pub events : List EventRow
  pub organisations : List OrganisationRow
  pub people : List PersonRow
  pub organisings : List Organising
  pub appearances : List AppearanceRow
  pub affiliations : List Affiliation
  pub profiles : List Profile
  pub sightings : List Sighting
  pub next_event : ℕ
  pub next_organisation : ℕ
  pub next_person : ℕ

-- Why a transaction is rolled back.
pub data Refused : Type 0 where
  -- errors.New("empty organisation name")
  empty_organisation_name : Refused
  -- A CHECK of the table of events does not hold of the row.
  check_violated : Refused
  -- Two events would have one canonical address.
  address_taken : Refused

pub data Stored {ℓ} (A : Type ℓ) : Type ℓ where
  done : A → Db → Stored A
  refused : Refused → Stored A

abbrev pub Tx {ℓ} : Type ℓ → Type ℓ
Tx A = Db → Stored A

infixl 5 ◌>>=◌ ◌>>◌
abbrev pub ◌>>=◌ {ℓ κ} : {A : Type ℓ} {B : Type κ} → Tx A → (A → Tx B) → Tx B
◌>>=◌ m f db = elim (m db) [ done a db' ↦ f a db' | refused e ↦ refused e ]

abbrev pub ◌>>◌ {ℓ κ} : {A : Type ℓ} {B : Type κ} → Tx A → Tx B → Tx B
m >> k = m >>= λ _. k

abbrev pub pure {ℓ} : {A : Type ℓ} → A → Tx A
pure a db = done a db

-- A statement that cannot fail.
abbrev pub exec : (Db → Db) → Tx (Unit {0})
exec f db = done tt (f db)

abbrev pub query {ℓ} : {A : Type ℓ} → (Db → A) → Tx A
query f db = done (f db) db
