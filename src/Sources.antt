-- ===== src/Sources.antt =====
-- The lifecycle of a source: `advance` of internal/pipeline/lifecycle.go, and `failed`, `blocked`,
-- `makeManual` and the end of CheckSource in internal/pipeline/check.go. A row of the table `sources`
-- has the columns that these statements read and write. Times are microseconds.
pub mod Kinds
pub mod Lifecycle
pub mod Retirement
mod Examples
use speakertrail.Common.{
  ℕ, ◌+◌, ◌-◌, ◌*◌, Bool, true, false, ◌&&◌, ◌||◌, Option, none, some, [], ◌++◌, Text, bytes,
  is_empty, contains, ltb, leb, ◌==◌, if◌then◌else◌,
}
use speakertrail.Settings.{Settings, int, days, hour, day}

pub data Status : Type 0 where
  candidate probation active retired manual : Status

abbrev pub status_eq : Status → Status → Bool
status_eq candidate candidate = true
status_eq probation probation = true
status_eq active active = true
status_eq retired retired = true
status_eq manual manual = true
status_eq _ _ = false

-- fetch_mode of a source, and how a page was loaded (fetch.Mode).
pub data Mode : Type 0 where
  auto http browser : Mode

pub record Row : Type 0 where
  pub url : Text
  pub status : Status
  pub mode : Mode
  pub checks : ℕ
  pub empty : ℕ
  pub changed : ℕ
  pub last_checked : Option ℕ
  pub next_check : Option ℕ
  pub notes : Text
  pub updated : ℕ

-- ResolveStats, as far as the lifecycle reads it.
pub record Stats : Type 0 where
  pub events_found : ℕ
  pub events_kept : ℕ
  pub kept_with_people : ℕ

-- status_changed_at = CASE WHEN status = $n THEN status_changed_at ELSE now END
abbrev pub changed_at : Status → ℕ → Row → ℕ
changed_at status now r = if status_eq r.status status then r.changed else now

-- The switch of `advance` over the status that the source was loaded with.
abbrev next_status : Settings → ℕ → Row → Stats → ℕ → Status → Status
next_status cfg now src st empty candidate = if ltb 0 st.kept_with_people then active else probation
next_status cfg now src st empty probation =
    if ltb 0 st.kept_with_people
    then active
    else if ltb (src.changed + int cfg "probation_weeks" 3 * 7 * day) now
    then retired
    else probation
next_status cfg now src st empty active =
    if leb (int cfg "retire_after_empty_checks" 4) empty then retired else active
next_status cfg now src st empty retired = if ltb 0 st.events_kept then probation else retired
next_status cfg now src st empty manual = manual

abbrev pub new_mode : Mode → ℕ → Mode → Mode
new_mode auto found mode = if ltb 0 found then mode else auto
new_mode src found mode = src

-- advance: `src` is the row as it was loaded, and the result what the UPDATE makes of the row.
unfoldable pub advance : Settings → ℕ → Row → Stats → Mode → Row → Row
unfolding int days
advance cfg now src st mode r =
    let empty : ℕ = if ltb 0 st.events_kept then 0 else src.empty + 1 in
    let status = next_status cfg now src st empty src.status in
    let interval : ℕ =
      if status_eq status retired
      then days cfg "retired_recheck_days" 28
      else days cfg "active_check_interval_days" 1 in
    record r {
      checks = r.checks + 1;
      empty = empty;
      last_checked = some now;
      next_check = some (now + interval - 2 * hour);
      mode = new_mode src.mode st.events_found mode;
      status = status;
      changed = changed_at status now r;
      updated = now;
    }

-- What loading a page can fail with.
pub data FetchError : Type 0 where
  disallowed_by_robots blocked_host no_such_host : FetchError
  other_error : Text → FetchError

abbrev pub is_no_such_host : FetchError → Bool
is_no_such_host no_such_host = true
is_no_such_host _ = false

-- page != nil && (page.Status == a || page.Status == b)
abbrev has_status : ℕ → ℕ → Option ℕ → Bool
has_status a b none = false
has_status a b (some s) = s == a || s == b

-- Whether the page is gone, or its website's name.
abbrev pub is_gone : FetchError → Option ℕ → Bool
is_gone e page = has_status 404 410 page || is_no_such_host e

abbrev pub gone_note : Text
gone_note = bytes "The page is gone"

abbrev join_note : Text → Text → Text
join_note notes note = if is_empty notes then note else notes ++ bytes ". " ++ note

-- The CASE over the notes in `failed`.
abbrev failed_notes : Text → Text → Text
failed_notes notes note =
    if is_empty note || contains note notes then notes else join_note notes note

abbrev pub failed_status : Settings → ℕ → Status → Status
failed_status cfg empty candidate = probation
failed_status cfg empty active =
    if leb (int cfg "retire_after_empty_checks" 4) empty then retired else active
failed_status cfg empty status = status

-- failed
unfoldable pub failed : Settings → ℕ → Row → Option ℕ → FetchError → Row → Row
unfolding int days contains
failed cfg now src page cause r =
    let gone = is_gone cause page in
    let empty : ℕ = src.empty + 1 in
    let status = if gone then retired else failed_status cfg empty src.status in
    let next : ℕ =
      if gone
      then now + 10 * 365 * day
      else if status_eq status retired
      then now + days cfg "retired_recheck_days" 28
      else now + days cfg "active_check_interval_days" 1 - 2 * hour in
    record r {
      checks = r.checks + 1;
      empty = empty;
      next_check = some next;
      status = status;
      changed = changed_at status now r;
      notes = failed_notes r.notes (if gone then gone_note else []);
      updated = now;
    }

-- blocked: the site refuses the bot, rather than failing for a while.
unfoldable pub blocked : FetchError → Option ℕ → Bool
blocked disallowed_by_robots page = true
blocked blocked_host page = true
blocked e page = has_status 401 403 page

abbrev manual_note : FetchError → Text
manual_note disallowed_by_robots = bytes "robots.txt does not allow the bot"
manual_note blocked_host = bytes "LinkedIn and Instagram are never fetched"
manual_note _ = bytes "Blocks automated access"

-- makeManual
unfoldable pub make_manual : ℕ → FetchError → Row → Row
make_manual now cause r = record r {
  status = manual;
  changed = now;
  updated = now;
  notes = join_note r.notes (manual_note cause);
}

-- What loading and resolving a page came to: an error, with the status of the page if there was one,
-- or the events that were stored and how the page was loaded.
pub data Outcome : Type 0 where
  fetch_failed : FetchError → Option ℕ → Outcome
  resolved : Stats → Mode → Outcome

unfoldable pub settle : Settings → ℕ → ℕ → Row → Outcome → Row → Row
unfolding advance failed blocked make_manual
settle cfg start now src (fetch_failed e page) r =
    let seen = record r { last_checked = some start } in
    if blocked e page then make_manual now e seen else failed cfg now src page e seen
settle cfg start now src (resolved st mode) r = advance cfg now src st mode r

-- CheckSource of a page source, from its start to its end: what it makes of the source's row, which
-- was loaded as `src`. A source with no address or one checked by hand is left alone.
unfoldable pub check_source : Settings → ℕ → ℕ → Row → Outcome → Row → Row
unfolding settle
check_source cfg start now src outcome r =
    if is_empty src.url || status_eq src.status manual
    then r
    else settle cfg start now src outcome r
