-- ===== src/Portfolio/Entries.antt =====
-- internal/pipeline/portfolio.go: storeEntries, the transaction that stores what a portfolio, a directory
-- or a search lists, and InNRW of internal/extract/nrw.go. The column portfolio_page of an organisation,
-- which only this transaction writes, is kept beside the rows.
use speakertrail.Common.{
  ℕ, ◌+◌, ◌/◌, ◌==◌, Bool, true, false, not, ◌&&◌, ◌||◌, Option, none, some, List, [], ◌∷◌, Text,
  bytes, text_eq, is_empty, length, take, keep_if, first_where, ltb, leb, if◌then◌else◌,
}
use speakertrail.Common.Decimal.{value_from}
use speakertrail.Urls.{Parser}
use speakertrail.Resolve.Titles.{Unicode}
use speakertrail.Resolve.Tables.{OrganisationRow, Db, Stored, Seen}
use speakertrail.Resolve.Orgs.{domain_of, upsert_organisation}
use speakertrail.Resolve.Check.{sight}
use speakertrail.Portfolio.{Startup}

abbrev between : ℕ → ℕ → ℕ → Bool
between a n b = leb a n && leb n b

abbrev all_digits : Text → Bool
all_digits [] = true
all_digits (c ∷ cs) = between 48 c 57 && all_digits cs

abbrev is_number : ℕ → List ℕ → Bool
is_number n [] = false
is_number n (m ∷ ms) = n == m || is_number n ms

-- The switch over the number; the postcodes of one case start with the same two digits.
abbrev is_area : ℕ → Bool
is_area n =
    is_number (n / 1000) (32 ∷ 33 ∷ 40 ∷ 41 ∷ 42 ∷ 44 ∷ 45 ∷ 46 ∷ 47 ∷ 50 ∷ 51 ∷ 52 ∷ 58 ∷ 59 ∷ [])
    || ((n / 1000) == 48
        && not (is_number n (48455 ∷ 48465 ∷ 48480 ∷ 48488 ∷ 48499 ∷ []))
        && not (between 48527 n 48531))
    || ((n / 1000) == 53 && not (between 53424 n 53579) && not (n == 53619))
    || ((n / 1000) == 57 && ltb n 57500)
    || between 34414 n 34439
    || is_number n (37671 ∷ 37688 ∷ 37696 ∷ [])
    || between 49477 n 49549

-- InNRW: five digits. With a sign, strconv.Atoi gives a number of four, which is none of the areas.
unfoldable pub in_nrw : Text → Bool
unfolding value_from
in_nrw postcode = length postcode == 5 && all_digits postcode && is_area (value_from 0 postcode)

pub record Store : Type 0 where
  pub db : Db
  pub pages : List (ℕ × Text)

-- rec.startups and rec.startupsN
pub record Tally : Type 0 where
  pub startups : ℕ
  pub startups_new : ℕ

unfoldable pub page_of : ℕ → List (ℕ × Text) → Text
page_of id [] = []
page_of id ((i, page) ∷ pages) = let rest = page_of id pages in if i == id then page else rest

-- UPDATE organisations SET portfolio_page = $2 WHERE id = $1 AND portfolio_page = '', for a page
unfoldable pub set_page : ℕ → Text → List (ℕ × Text) → List (ℕ × Text)
unfolding page_of
set_page id page pages =
    if not (is_empty page) && is_empty (page_of id pages) then (id, page) ∷ pages else pages

unfoldable pub find_entry : Parser → Startup → Store → Option OrganisationRow
unfolding domain_of page_of first_where
find_entry parse s st =
    if is_empty s.website
    then first_where (λ (o : OrganisationRow). text_eq (page_of o.id st.pages) s.page)
        st.db.organisations
    else first_where (λ (o : OrganisationRow). text_eq o.website_domain (domain_of parse s.website))
        st.db.organisations

-- The rest of a round: the sighting and the counts.
unfoldable pub seen_entry : ℕ → ℕ → ℕ → Bool → Tally → Store → Tally × Store
unfolding sight
seen_entry source now id is_new t st = (
  record {
    startups = t.startups + 1;
    startups_new = if is_new then t.startups_new + 1 else t.startups_new;
  },
  record st { db = sight source now (Seen.organisation_seen id) is_new st.db },
)

-- After upsertOrganisation: the page of the new organisation, or the error.
unfoldable pub added_entry :
    ℕ → ℕ → Text → Tally → List (ℕ × Text) → Stored (ℕ × Bool) → Option (Tally × Store)
unfolding seen_entry set_page
added_entry source now page t pages (Stored.refused e) = none
added_entry source now page t pages (Stored.done (id, is_new) db) =
    some (seen_entry source now id is_new t (record { db = db; pages = set_page id page pages }))

-- One round of the loop.
unfoldable pub store_entry :
    Unicode → Parser → ℕ → ℕ → Startup → Tally → Store → Option (Tally × Store)
unfolding find_entry seen_entry added_entry upsert_organisation
store_entry u parse source now s t st = elim (find_entry parse s st) [
  | some o ↦ some (seen_entry source now o.id false t st)
  | none ↦
      added_entry source now s.page t st.pages
        (upsert_organisation u parse s.name (bytes "company") s.website [] st.db)
]

-- The loop of the transaction: nothing if it is rolled back.
unfoldable pub store_each :
    Unicode → Parser → ℕ → ℕ → List Startup → Tally → Store → Option (Tally × Store)
unfolding store_entry
store_each u parse source now [] t st = some (t, st)
store_each u parse source now (s ∷ ss) t st = elim (store_entry u parse source now s t st) [
  | none ↦ none
  | some (t', st') ↦ store_each u parse source now ss t' st'
]

-- maxStartups
abbrev pub max_startups : ℕ
max_startups = 300

-- What is kept of the entries of a source of a kind.
unfoldable pub kept_entries : Text → List Startup → List Startup
unfolding in_nrw
kept_entries kind ss = take max_startups (
    if text_eq kind (bytes "directory")
    then keep_if (λ (s : Startup). is_empty s.postcode || in_nrw s.postcode) ss
    else ss)

-- storeEntries, up to its commit
unfoldable pub store_entries :
    Unicode → Parser → ℕ → ℕ → Text → List Startup → Store → Option (Tally × Store)
unfolding store_each kept_entries
store_entries u parse source now kind ss st =
    store_each u parse source now (kept_entries kind ss) (record { startups = 0; startups_new = 0 })
      st
