-- ===== src/Sources/Examples.antt =====
-- The theorems about the lifecycle of a source at concrete rows, and tests of the checks.
use speakertrail.Common.{
  ℕ, ◌*◌, ◌≡◌, refl, none, some, [], ◌∷◌, bytes, is_empty, true, ◌⊎◌, ◌<◌, arith,
}
use speakertrail.Settings.{Settings, int, hour}
use speakertrail.Sources.{
  candidate, probation, active, retired, manual, Row, Stats, auto, http, Mode, Outcome,
  fetch_failed, resolved, no_such_host, other_error, check_source, settle, advance, failed, blocked,
}
use speakertrail.Sources.Lifecycle.{◌⟶◌, check_source-⟶, active_needs_people}
use speakertrail.Sources.Retirement.{Check, check_all, active_retires, failing_probation_stays}

abbrev defaults : Settings
defaults _ = none

abbrev page : Row
page = record {
  url = bytes "https://example.org/events";
  status = active;
  mode = auto;
  checks = 9;
  empty = 2;
  changed = 500 * hour;
  last_checked = none;
  next_check = none;
  notes = [];
  updated = 500 * hour;
}

abbrev nothing : Stats
nothing = record { events_found = 0; events_kept = 0; kept_with_people = 0 }

abbrev two_people : Stats
two_people = record { events_found = 3; events_kept = 2; kept_with_people = 1 }

abbrev at_hour : ℕ → Outcome → Check
at_hour h o = record { start = h * hour; now = h * hour; outcome = o }

check_source-⟶_example :
    (active ⟶ (check_source defaults 0 (900 * hour) page (resolved nothing http) page).status)
    × ((is_empty page.url ≡ true) ⊎ (active ≡ manual)
        → check_source defaults 0 (900 * hour) page (resolved nothing http) page ≡ page)
check_source-⟶_example = check_source-⟶ defaults 0 (900 * hour) page (resolved nothing http)

active_needs_people_example :
    (st : Stats) × (mode : Mode) × (resolved two_people http ≡ resolved st mode)
    × (0 < st.kept_with_people)
unfolding check_source settle advance
active_needs_people_example =
    active_needs_people defaults 0 (900 * hour) (record page { status = candidate })
      (resolved two_people http) (λ e. cc) refl

-- Four empty checks in a row retire an active source: two before, a failed one and an empty one now.
active_retires_example :
    (check_all defaults page (
      at_hour 900 (fetch_failed (other_error []) (some 500))
      ∷ at_hour 924 (resolved nothing http)
      ∷ [])).status
    ≡ retired
unfolding int
active_retires_example =
    active_retires defaults page
      (at_hour 900 (fetch_failed (other_error []) (some 500))
        ∷ at_hour 924 (resolved nothing http)
        ∷ [])
      refl refl ((refl, unfold blocked in refl), ((refl, refl), tt)) (omega arith) (omega arith)

failing_probation_stays_example :
    (check_all defaults
      (record page { status = probation })
      (at_hour 5000 (fetch_failed (other_error []) none) ∷ [])).status
    ≡ probation
failing_probation_stays_example =
    failing_probation_stays defaults (record page { status = probation })
      (at_hour 5000 (fetch_failed (other_error []) none) ∷ []) refl
      ((refl, unfold blocked in refl), tt)

gone_runs :
    (check_source defaults 0 (900 * hour) page (fetch_failed no_such_host none) page).status
    ≡ retired
unfolding check_source settle failed blocked
gone_runs = refl
