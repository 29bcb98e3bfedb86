-- ===== src/Sources/Retirement.antt =====
-- Series of checks of one source: what fruitless checks lead to, and when a source is due again.
use speakertrail.Common.{
  ℕ, ◌+◌, ◌-◌, ◌*◌, ◌≤◌, ◌<◌, ◌≡◌, ◌≢◌, refl, false, Option, some, is_empty, ◌⊎◌, inl, inr, arith,
  List, [], ◌∷◌, All, length,
}
use speakertrail.Settings.{Settings, int, days, day, hour}
use speakertrail.Sources.Lifecycle.{status_eq_iff}
use speakertrail.Sources.{
  Status, probation, active, retired, manual, Row, Stats, Mode, FetchError, Outcome, fetch_failed,
  resolved, advance, failed, blocked, settle, check_source, is_gone, status_eq,
}

-- One check: when it began and ended, and what it came to.
pub record Check : Type 0 where
  pub start : ℕ
  pub now : ℕ
  pub outcome : Outcome

abbrev after : Settings → Row → Check → Row
after cfg r c = check_source cfg c.start c.now r c.outcome r

-- The checks of a source, one after another, each on the row that the one before left.
unfoldable pub check_all : Settings → Row → List Check → Row
check_all cfg r [] = r
check_all cfg r (c ∷ cs) = check_all cfg (after cfg r c) cs

-- A check that failed for a while: not because the page is gone, and not because it is blocked.
abbrev pub IsTransient : FetchError → Option ℕ → Type 0
IsTransient e page = (is_gone e page ≡ false) × (blocked e page ≡ false)

-- A check that kept no event, or failed for a while.
abbrev pub IsFruitless : Outcome → Type 0
IsFruitless (resolved st mode) = (st.events_kept ≡ 0) × (st.kept_with_people ≡ 0)
IsFruitless (fetch_failed e page) = IsTransient e page

module _ (cfg : Settings) where
  abbrev tries : ℕ
  tries = int cfg "retire_after_empty_checks" 4

  -- After one fruitless check an active source is retired, or has one more empty check and is not
  -- yet at the limit.
  active_step :
      (r : Row) (c : Check)
      → is_empty r.url ≡ false
      → IsFruitless c.outcome
      → r.status ≡ active
      → let s = check_source cfg c.start c.now r c.outcome r in
        (is_empty s.url ≡ false)
        × ((s.status ≡ retired)
            ⊎ ((s.status ≡ active) × (s.empty ≡ r.empty + 1) × (r.empty + 1 < tries)))
  unfolding check_source settle advance failed
  active_step r c u f a = step c.outcome f
    where
      step :
          (o : Outcome)
          → IsFruitless o
          → let s = check_source cfg c.start c.now r o r in
            (is_empty s.url ≡ false)
            × ((s.status ≡ retired)
                ⊎ ((s.status ≡ active) × (s.empty ≡ r.empty + 1) × (r.empty + 1 < tries)))
      step (resolved st mode) f = rw (u, a) (ground arith)
      step (fetch_failed e page) f = rw (u, a, f.1, f.0) (ground arith)

  retired_step :
      (r : Row) (c : Check)
      → IsFruitless c.outcome
      → r.status ≡ retired
      → (check_source cfg c.start c.now r c.outcome r).status ≡ retired
  unfolding check_source settle advance failed
  retired_step r c f a = step c.outcome f
    where
      step : (o : Outcome) → IsFruitless o → (check_source cfg c.start c.now r o r).status ≡ retired
      step (resolved st mode) f = rw a (ground arith)
      step (fetch_failed e page) f = rw (a, f.1, f.0) (ground arith)

  retired_stays :
      (r : Row) (cs : List Check)
      → All (λ c. IsFruitless c.outcome) cs
      → r.status ≡ retired
      → (check_all cfg r cs).status ≡ retired
  unfolding check_all
  retired_stays r [] f a = a
  retired_stays r (c ∷ cs) f a = retired_stays (after cfg r c) cs f.1 (retired_step r c f.0 a)

  -- An active source whose checks stop keeping events, or stop loading, is retired: as soon as its
  -- fruitless checks in a row, with those counted before, reach the setting, and from then on as
  -- long as they stay fruitless.
  pub active_retires :
      (r : Row) (cs : List Check)
      → is_empty r.url ≡ false
      → r.status ≡ active
      → All (λ c. IsFruitless c.outcome) cs
      → 0 < length cs
      → int cfg "retire_after_empty_checks" 4 ≤ r.empty + length cs
      → (check_all cfg r cs).status ≡ retired
  unfolding check_all
  active_retires r [] u a f some_check enough = absurd (omega arith)
  active_retires r (c ∷ cs) u a f some_check enough =
      let (u', next) = active_step r c u f.0 a in
      elim next [
        | inl gone ↦ retired_stays (after cfg r c) cs f.1 gone
        | inr (a', one_more, below) ↦
            active_retires (after cfg r c) cs u' a' f.1 (omega arith) (omega (arith, one_more))
      ]

  -- Probation ends: a check that loads the page, keeps no event and comes after the weeks of
  -- probation retires the source.
  pub probation_ends :
      (r : Row) (start now : ℕ) (st : Stats) (mode : Mode)
      → is_empty r.url ≡ false
      → r.status ≡ probation
      → st.events_kept ≡ 0
      → st.kept_with_people ≡ 0
      → r.changed + int cfg "probation_weeks" 3 * 7 * day < now
      → (check_source cfg start now r (resolved st mode) r).status ≡ retired
  unfolding check_source settle advance
  probation_ends r start now st mode u a k p late = rw (u, a, p) (ground arith)

  abbrev pub IsFailing : Outcome → Type 0
  IsFailing (resolved st mode) = ⊥
  IsFailing (fetch_failed e page) = IsTransient e page

  failing_step :
      (r : Row) (c : Check)
      → IsFailing c.outcome
      → r.status ≡ probation
      → (check_source cfg c.start c.now r c.outcome r).status ≡ probation
  unfolding check_source settle failed
  failing_step r c f a = step c.outcome f
    where
      step : (o : Outcome) → IsFailing o → (check_source cfg c.start c.now r o r).status ≡ probation
      step (resolved st mode) f = absurd f
      step (fetch_failed e page) f = rw (a, f.1, f.0) (ground arith)

  -- A source on probation whose page only fails to load, without being gone or blocked, is never
  -- retired: it stays on probation through any number of such checks, at any times.
  pub failing_probation_stays :
      (r : Row) (cs : List Check)
      → r.status ≡ probation
      → All (λ c. IsFailing c.outcome) cs
      → (check_all cfg r cs).status ≡ probation
  unfolding check_all
  failing_probation_stays r [] a f = a
  failing_probation_stays r (c ∷ cs) a f =
      failing_probation_stays (after cfg r c) cs (failing_step r c f.0 a) f.1

  -- A check that is neither blocked nor finds the page gone.
  abbrev pub IsOrdinary : Outcome → Type 0
  IsOrdinary (resolved st mode) = Unit
  IsOrdinary (fetch_failed e page) = IsTransient e page

  abbrev pub Times : ℕ → Row → Type 0
  Times now s =
      (t : ℕ) × (s.next_check ≡ some t)
      × (s.status ≡ retired → now + days cfg "retired_recheck_days" 28 ≤ t + 2 * hour)
      × (s.status ≢ retired → t ≡ now + days cfg "active_check_interval_days" 1 - 2 * hour)

  not_manual : (r : Row) → r.status ≢ manual → status_eq r.status manual ≡ false
  not_manual r m = ground (arith, (status_eq_iff r.status manual).0)

  not_retired : (s : Status) → s ≢ retired → status_eq s retired ≡ false
  not_retired s n = ground (arith, (status_eq_iff s retired).0)

  settle-Times :
      (r : Row) (start now : ℕ) (o : Outcome)
      → IsOrdinary o
      → Times now (settle cfg start now r o r)
  unfolding settle
  settle-Times r start now (resolved st mode) f =
      unfold advance in
      (_, refl, λ e. rw ((status_eq_iff _ retired).1 e) (omega arith), λ n. rw (not_retired _ n))
  settle-Times r start now (fetch_failed e page) f =
      rw (f.1, settle)
        (unfold failed in
          rw f.0 (
            _,
            refl,
            λ e. rw ((status_eq_iff _ retired).1 e) (omega arith),
            λ n. rw (not_retired _ n),
          ))

  -- When an ordinary check makes a source due again: a source that it leaves retired waits for the
  -- recheck interval, less two hours at most, and any other is due two hours before its check
  -- interval is over.
  pub next_check-Times :
      (r : Row) (start now : ℕ) (o : Outcome)
      → is_empty r.url ≡ false
      → r.status ≢ manual
      → IsOrdinary o
      → Times now (check_source cfg start now r o r)
  unfolding check_source
  next_check-Times r start now o u m f = rw (u, not_manual r m) (settle-Times r start now o f)
