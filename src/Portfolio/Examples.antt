-- ===== src/Portfolio/Examples.antt =====
-- The theorems about the checks of a portfolio, for one with two pages.
use speakertrail.Settings.{Settings, int, hour}
use speakertrail.Sources.{Row, active, retired, auto, http}
use speakertrail.Urls.{Parser}
use speakertrail.Resolve.Titles.{Unicode, normalise_org}
use speakertrail.Portfolio.Entries.{Store, kept_entries, store_entries}
use speakertrail.Portfolio.Organisations.{IsName}
use speakertrail.Portfolio.Counted.{IsCounted, store_entries-IsCounted}
use speakertrail.Portfolio.Lifecycle.{Check, advance_all, portfolio_retires}
use speakertrail.Common.{
  after_prefix, ℕ, ◌*◌, ◌≤◌, length, true, false, ◌≡◌, ◌≢◌, refl, none, some, [], ◌∷◌, List, Text,
  bytes, text_eq, text_eq_iff, All, arith, if◌then◌else◌,
}
use speakertrail.Portfolio.{Startup, PortfolioPage, Env, key_of, portfolio_startups}
use speakertrail.Portfolio.Crawl.{IsOnce, portfolio_startups-IsOnce}
use speakertrail.Portfolio.Listed.{is_listed, portfolio_startups-lists}

abbrev startup : Prim.Native.String.String → Startup
startup url = record { name = bytes "A"; website = bytes url; page = []; postcode = [] }

abbrev home : Text
home = bytes "https://hub.org/list"

-- The first page lists two startups, one of them again, and both pages link to the second page.
abbrev pages : Text → Text → PortfolioPage
pages body base =
    if text_eq body (bytes "first")
    then record {
      startups =
          startup "https://one.de/" ∷ startup "https://two.de/" ∷ startup "https://one.de/" ∷ [];
      more = bytes "https://hub.org/list/p2" ∷ home ∷ [];
    }
    else record {
      startups = startup "https://two.de/" ∷ startup "https://three.de/" ∷ [];
      more = bytes "https://hub.org/list/p2" ∷ [];
    }

abbrev env : Env
env = record { portfolio = pages; page = λ url. some (bytes "second") }

three_once : portfolio_startups env (bytes "first") home ≡ (
  startup "https://one.de/" ∷ startup "https://two.de/" ∷ startup "https://three.de/" ∷ [],
  bytes "https://hub.org/list/p2" ∷ [],
)
unfolding portfolio_startups text_eq
three_once = refl

portfolio_startups-IsOnce_example :
    IsOnce (home ∷ []) 5 (portfolio_startups env (bytes "first") home)
portfolio_startups-IsOnce_example = portfolio_startups-IsOnce env (bytes "first") home

told_apart : (a b : Text) → text_eq a b ≡ false → a ≢ b
told_apart a b h = ground (arith, text_eq_iff a b)

not_home : All (λ s. key_of s ≢ home) (env.portfolio (bytes "first") home).startups
unfolding key_of text_eq
not_home = (
  told_apart (key_of (startup "https://one.de/")) home refl,
  (
    told_apart (key_of (startup "https://two.de/")) home refl,
    (told_apart (key_of (startup "https://one.de/")) home refl, tt),
  ),
)

portfolio_startups-lists_example :
    All
      (λ s. is_listed (key_of s) (portfolio_startups env (bytes "first") home).0 ≡ true)
      (env.portfolio (bytes "first") home).startups
portfolio_startups-lists_example = portfolio_startups-lists env (bytes "first") home not_home

abbrev defaults : Settings
defaults key = none

-- A portfolio that listed nothing two checks ago.
abbrev row : Row
row = record {
  url = home;
  status = active;
  mode = auto;
  checks = 9;
  empty = 2;
  changed = 0;
  last_checked = none;
  next_check = none;
  notes = [];
  updated = 0;
}

abbrev nothing_at : ℕ → Check
nothing_at h = record { now = h * hour; found = 0; mode = http }

portfolio_retires_example :
    (advance_all defaults (bytes "portfolio") (nothing_at 900 ∷ nothing_at 1250 ∷ []) row).status
    ≡ retired
unfolding int
portfolio_retires_example =
    portfolio_retires defaults (bytes "portfolio") (nothing_at 900) (nothing_at 1250 ∷ []) row refl
      (refl, (refl, tt)) (omega arith)

abbrev ascii : Unicode
ascii = record { is_alnum = λ c. false; lower = λ c. c }

-- Each website's domain is its address.
abbrev parse : Parser
parse url = some (record {
  scheme = bytes "https";
  host = url;
  hostname = url;
  path = bytes "/";
  escaped_path = bytes "/";
  raw_query = [];
})

abbrev empty_store : Store
empty_store = record {
  db = record {
    events = [];
    organisations = [];
    people = [];
    organisings = [];
    appearances = [];
    affiliations = [];
    profiles = [];
    sightings = [];
    next_event = 1;
    next_organisation = 1;
    next_person = 1;
  };
  pages = [];
}

-- A directory lists one startup in Bonn twice and one in Berlin.
abbrev entries : List Startup
entries =
    record (startup "https://one.de/") { postcode = bytes "53111" }
    ∷ record (startup "https://two.de/") { postcode = bytes "10115" }
    ∷ startup "https://one.de/"
    ∷ []

entries_kept :
    kept_entries (bytes "directory") entries
    ≡ record (startup "https://one.de/") { postcode = bytes "53111" }
      ∷ startup "https://one.de/"
      ∷ []
unfolding kept_entries text_eq
entries_kept = refl

plain-IsName : IsName ascii (bytes "A")
unfolding normalise_org after_prefix
plain-IsName = refl

names_kept : All (λ s. IsName ascii s.name) (kept_entries (bytes "directory") entries)
unfolding kept_entries text_eq
names_kept = (plain-IsName, (plain-IsName, tt))

store_entries-IsCounted_example :
    (length (kept_entries (bytes "directory") entries) ≤ 300)
    × IsCounted 3 9
        (length (kept_entries (bytes "directory") entries))
        (record { startups = 0; startups_new = 0 })
        empty_store
        (store_entries ascii parse 3 9 (bytes "directory") entries empty_store)
store_entries-IsCounted_example =
    store_entries-IsCounted ascii parse 3 9 (bytes "directory") entries empty_store names_kept
