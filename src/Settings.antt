-- ===== src/Settings.antt =====
-- internal/settings/settings.go: a snapshot of the table `settings`. A key is bound to the whole
-- number that its JSON value reads as, if it is a number at all. Settings are not negative.
use speakertrail.Common.{ℕ, ◌*◌, Option, none, some, String}

abbrev pub Settings : Type 0
Settings = String → Option ℕ

-- Int
unfoldable pub int : Settings → String → ℕ → ℕ
int s key def = elim (s key) [ none ↦ def | some n ↦ n ]

abbrev pub hour : ℕ
hour = 3600000000

abbrev pub day : ℕ
day = 24 * hour

-- Days, in microseconds.
unfoldable pub days : Settings → String → ℕ → ℕ
unfolding int
days s key def = int s key def * day
