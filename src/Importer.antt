-- ===== src/Importer.antt =====
-- internal/importer/importer.go: the starting data, loaded into the tables of sources and seeds. What
-- encoding/csv reads is a parameter, and so are the city that extract.CityOf finds in texts and the
-- function lower of the database.
pub mod Again
pub mod Examples
use speakertrail.Common.{
  ℕ, ◌+◌, ◌*◌, Bool, true, false, not, ◌&&◌, ◌||◌, Option, none, some, List, [], ◌∷◌, ◌++◌, map,
  Text, bytes, text_eq, is_empty, trim_space, to_lower, if◌then◌else◌, any_where,
}
use speakertrail.Urls.{Parser}
use speakertrail.Sources.Kinds.{
  Kind, listing, calendar_ical, calendar_luma, calendar_meetup, calendar_eventbrite,
  source_kind_for,
}

-- A row of sources, as far as the importer sets it.
pub record SourceRow : Type 0 where
  pub name : Text
  pub kind : Text
  pub url : Option Text
  pub query : Option Text
  pub category : Text
  pub city : Text
  pub notes : Text
  pub status : Text
  pub next_check_at : Option ℕ
  pub discovered_note : Text

pub record SeedRow : Type 0 where
  pub input : Text
  pub processed_at : Option ℕ
  pub result : Text

pub record Tables : Type 0 where
  pub sources : List SourceRow
  pub seeds : List SeedRow

-- A column, by the record's head: the last one of the name, and nothing where there is none.
unfoldable pub column : List Text → List Text → Text → Option Text
unfolding text_eq trim_space
column [] rec key = none
column (h ∷ hs) [] key = none
column (h ∷ hs) (r ∷ rs) key = elim (column hs rs key) [
  | some v ↦ some v
  | none ↦ if text_eq h key then some (trim_space r) else none
]

abbrev pub Row : Type 0
Row = Text → Text

unfoldable pub row : List Text → List Text → Row
unfolding column
row head rec key = elim (column head rec key) [ none ↦ [] | some v ↦ v ]

-- readCSV, of the records that the reader gives.
unfoldable pub read_csv : List (List Text) → List Row
unfolding row
read_csv [] = []
read_csv (head ∷ records) = map (row head) records

-- What the importer takes from elsewhere.
pub record Env : Type 0 where
  pub parse : Parser
  pub city_of : List Text → Text
  pub lower : Text → Text
  pub now : ℕ

abbrev pub day : ℕ
day = 24 * 3600

abbrev pub kind_text : Kind → Text
kind_text listing = bytes "listing"
kind_text calendar_ical = bytes "calendar_ical"
kind_text calendar_luma = bytes "calendar_luma"
kind_text calendar_meetup = bytes "calendar_meetup"
kind_text calendar_eventbrite = bytes "calendar_eventbrite"

unfoldable pub kind_of : Env → Row → Text → Text
unfolding text_eq source_kind_for
kind_of env r url =
    if is_empty url
    then bytes "listing"
    else if text_eq (r (bytes "category")) (bytes "Startup portfolio")
    then bytes "portfolio"
    else if text_eq (r (bytes "category")) (bytes "Directory")
    then bytes "directory"
    else kind_text (source_kind_for env.parse url)

abbrev pub url_is : Text → SourceRow → Bool
url_is url s = elim s.url [ none ↦ false | some u ↦ text_eq u url ]

abbrev pub is_nameless_url : (Text → Text) → Text → SourceRow → Bool
is_nameless_url lower name s = elim s.url [
  | none ↦ text_eq (lower s.name) (lower name)
  | some u ↦ false
]

abbrev pub url_of : Row → Text
url_of r = trim_space (r (bytes "url"))

-- A row with no address that is neither manual nor retired.
unfoldable pub is_skipped : Row → Bool
unfolding text_eq
is_skipped r =
    is_empty (url_of r)
    && (not (text_eq (r (bytes "status")) (bytes "manual"))
        && not (text_eq (r (bytes "status")) (bytes "retired")))

unfoldable pub source_exists : Env → Row → List SourceRow → Bool
unfolding any_where text_eq
source_exists env r sources =
    if is_empty (url_of r)
    then any_where (is_nameless_url env.lower (r (bytes "name"))) sources
    else any_where (url_is (url_of r)) sources

unfoldable pub notes_of : Row → Text
unfolding to_lower
notes_of r =
    if is_empty (r (bytes "fit"))
    then r (bytes "notes")
    else bytes "Fit " ++ (to_lower (r (bytes "fit")) ++ (bytes ". " ++ r (bytes "notes")))

unfoldable pub source_row : Env → Row → SourceRow
unfolding kind_of notes_of text_eq
source_row env r = record {
  name = r (bytes "name");
  kind = kind_of env r (url_of r);
  url = if is_empty (url_of r) then none else some (url_of r);
  query = none;
  category = r (bytes "category");
  city = env.city_of (r (bytes "name") ∷ url_of r ∷ []);
  notes = notes_of r;
  status = r (bytes "status");
  next_check_at =
      if text_eq (r (bytes "status")) (bytes "retired") then some (env.now + 28 * day) else none;
  discovered_note = bytes "Imported from the brief";
}

-- The rows added, those that were there, and those without an address.
pub record Tally : Type 0 where
  pub added : ℕ
  pub kept : ℕ
  pub skipped : ℕ

abbrev pub nothing : Tally
nothing = record { added = 0; kept = 0; skipped = 0 }

-- for _, r := range rows, with what the body changes.
unfoldable pub each {ℓ κ} :
    {A : Type ℓ} {B : Type κ}
    → (A → Tally → List B → Tally × List B)
    → List A
    → Tally
    → List B
    → Tally × List B
each step [] t xs = (t, xs)
each step (a ∷ rest) t xs = let (t', xs') = step a t xs in each step rest t' xs'

unfoldable pub import_source : Env → Row → Tally → List SourceRow → Tally × List SourceRow
import_source env r t sources =
    if is_skipped r
    then (record t { skipped = t.skipped + 1 }, sources)
    else if source_exists env r sources
    then (record t { kept = t.kept + 1 }, sources)
    else (record t { added = t.added + 1 }, sources ++ source_row env r ∷ [])

-- What tells the two kinds of searches apart.
pub record SearchKind : Type 0 where
  pub kind : Text
  pub category : Text
  pub note : Text

abbrev pub web_search : SearchKind
web_search = record {
  kind = bytes "search_query";
  category = bytes "Search";
  note = bytes "Imported from the starting searches";
}

abbrev pub post_search : SearchKind
post_search = record {
  kind = bytes "post_search";
  category = bytes "Post search";
  note = bytes "Imported from the starting post searches";
}

-- sources_query_idx
abbrev pub query_is : (Text → Text) → Text → SourceRow → Bool
query_is lower q s = elim s.query [ none ↦ false | some u ↦ text_eq (lower u) (lower q) ]

unfoldable pub search_row : Env → SearchKind → Text → SourceRow
search_row env k q = record {
  name = q;
  kind = k.kind;
  url = none;
  query = some q;
  category = k.category;
  city = env.city_of (q ∷ []);
  notes = [];
  status = bytes "candidate";
  next_check_at = none;
  discovered_note = k.note;
}

unfoldable pub import_search :
    Env → SearchKind → Row → Tally → List SourceRow → Tally × List SourceRow
import_search env k r t sources =
    let q = r (bytes "query") in
    if any_where (query_is env.lower q) sources
    then (record t { kept = t.kept + 1 }, sources)
    else (record t { added = t.added + 1 }, sources ++ search_row env k q ∷ [])

abbrev pub has_input : Text → SeedRow → Bool
has_input input s = text_eq s.input input

-- time.Date(2026, 9, 24, 12, 0, 0, 0, time.UTC), in seconds since 1970.
abbrev pub first_run : ℕ
first_run = 1790251200

unfoldable pub seed_row : Row → SeedRow
unfolding text_eq
seed_row r =
    let done = text_eq (r (bytes "done")) (bytes "yes") in
    record {
      input = r (bytes "input");
      processed_at = if done then some first_run else none;
      result = if done then bytes "Checked by hand in the first run" else [];
    }

unfoldable pub import_seed : Row → Tally → List SeedRow → Tally × List SeedRow
import_seed r t seeds =
    if any_where (has_input (r (bytes "input"))) seeds
    then (record t { kept = t.kept + 1 }, seeds)
    else (record t { added = t.added + 1 }, seeds ++ seed_row r ∷ [])

-- The four embedded files, as records.
pub record Files : Type 0 where
  pub sources : List (List Text)
  pub searches : List (List Text)
  pub post_searches : List (List Text)
  pub seeds : List (List Text)

-- Result
pub record Result : Type 0 where
  pub sources : Tally
  pub searches : Tally
  pub post_searches : Tally
  pub seeds : Tally

-- Import, where no statement fails.
unfoldable pub import_all : Env → Files → Tables → Result × Tables
unfolding each import_source import_search import_seed read_csv
import_all env f db =
    let (a, sources) = each (import_source env) (read_csv f.sources) nothing db.sources in
    let (b, sources') = each (import_search env web_search) (read_csv f.searches) nothing sources in
    let (c, sources'') =
      each (import_search env post_search) (read_csv f.post_searches) nothing sources' in
    let (d, seeds) = each import_seed (read_csv f.seeds) nothing db.seeds in
    (
      record { sources = a; searches = b; post_searches = c; seeds = d },
      record { sources = sources''; seeds = seeds },
    )
