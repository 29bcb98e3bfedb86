-- ===== src/Portfolio.antt =====
-- internal/pipeline/portfolio.go: the pages of a portfolio that a check loads. What extract.Portfolio reads
-- from a page and what a website answers are parameters.
pub mod Crawl
pub mod Listed
pub mod Lifecycle
pub mod Entries
pub mod Organisations
pub mod Counted
mod Examples
use speakertrail.Common.{
  ℕ, zero, suc, ◌-◌, Bool, true, false, ◌||◌, Option, none, some, List, [], ◌∷◌, ◌++◌, Text, bytes,
  text_eq, any_where, if◌then◌else◌,
}

pub record Startup : Type 0 where
  pub name : Text
  pub website : Text
  pub page : Text
  pub postcode : Text

pub record PortfolioPage : Type 0 where
  pub startups : List Startup
  pub more : List Text

pub record Env : Type 0 where
  -- extract.Portfolio(body, base)
  pub portfolio : Text → Text → PortfolioPage
  -- The body that p.page gives for an address, if it gives one.
  pub page : Text → Option Text

-- maxPortfolioPages
abbrev max_portfolio_pages : ℕ
max_portfolio_pages = 6

-- The map `seen`: the keys that it has.
abbrev pub is_seen : List Text → Text → Bool
is_seen seen key = any_where (text_eq key) seen

-- s.Website + " " + s.Page
unfoldable pub key_of : Startup → Text
key_of s = s.website ++ (bytes " " ++ s.page)

pub record State : Type 0 where
  pub seen : List Text
  pub queue : List Text
  pub out : List Startup

-- One round of the loop over the startups of a page.
unfoldable pub see_startup : Startup → State → State
unfolding key_of any_where
see_startup s st =
    if is_seen st.seen (key_of s)
    then st
    else record st { seen = key_of s ∷ st.seen; out = st.out ++ s ∷ [] }

unfoldable pub see_startups : List Startup → State → State
unfolding see_startup
see_startups [] st = st
see_startups (s ∷ ss) st = see_startups ss (see_startup s st)

-- One round of the loop over the further pages.
unfoldable pub see_more : Text → State → State
unfolding any_where
see_more m st =
    if is_seen st.seen m then st else record st { seen = m ∷ st.seen; queue = st.queue ++ m ∷ [] }

unfoldable pub see_all_more : List Text → State → State
unfolding see_more
see_all_more [] st = st
see_all_more (m ∷ ms) st = see_all_more ms (see_more m st)

unfoldable pub read_page : Env → Text → Text → State → State
unfolding see_startups see_all_more
read_page env body base st =
    let pp = env.portfolio body base in see_all_more pp.more (see_startups pp.startups st)

abbrev with_load : Text → List Startup × List Text → List Startup × List Text
with_load url (out, loads) = (out, url ∷ loads)

-- What follows a page that was read, with what follows the next one.
unfoldable pub go_on :
    Env
    → (Text → Text → State → List Startup × List Text)
    → List Text
    → State
    → List Startup × List Text
go_on env again [] st = (st.out, [])
go_on env again (next ∷ queue) st = elim (env.page next) [
  | none ↦ (st.out, next ∷ [])
  | some body ↦ with_load next (again body next (record st { queue = queue }))
]

-- The loop, with how many more pages may be loaded: the startups, and the addresses that it asks for.
unfoldable pub crawl : Env → ℕ → Text → Text → State → List Startup × List Text
unfolding go_on read_page
crawl env zero body base st = ((read_page env body base st).out, [])
crawl env (suc left) body base st =
    let read = read_page env body base st in go_on env (crawl env left) read.queue read

abbrev pub start : Text → State
start base = record { seen = base ∷ []; queue = []; out = [] }

-- portfolioStartups
unfoldable pub portfolio_startups : Env → Text → Text → List Startup × List Text
unfolding crawl
portfolio_startups env body base = crawl env (max_portfolio_pages - 1) body base (start base)
