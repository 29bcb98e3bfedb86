-- ===== src/Portfolio/Lifecycle.antt =====
-- internal/pipeline/portfolio.go: advancePortfolio, on the row of a portfolio, a directory or a search.
use speakertrail.Common.{
  ℕ, ◌+◌, ◌-◌, ◌*◌, ◌≤◌, ◌<◌, ◌&&◌, ◌||◌, ◌≡◌, refl, inl, inr, some, List, [], ◌∷◌, Text, bytes,
  text_eq, length, All, ◌⊎◌, ltb, leb, arith, if◌then◌else◌, Bool-cases,
}
use speakertrail.Settings.{Settings, int, days, hour, day}
use speakertrail.Sources.{
  Status, candidate, probation, active, retired, Mode, Row, status_eq, new_mode, changed_at,
}

-- The switch over what the check found and the status that the source was loaded with.
unfoldable pub portfolio_status : Settings → ℕ → Row → ℕ → ℕ → Status
unfolding int
portfolio_status cfg now src found empty =
    if ltb 0 found
    then active
    else if status_eq src.status candidate
    then probation
    else if status_eq src.status probation
          && ltb (src.changed + int cfg "probation_weeks" 3 * 7 * day) now
        || status_eq src.status active && leb (int cfg "retire_after_empty_checks" 4) empty
    then retired
    else src.status

-- The switch over the kind, and the longer wait of what is retired.
unfoldable pub portfolio_interval : Settings → Text → Status → ℕ
unfolding days
portfolio_interval cfg kind status =
    if status_eq status retired
    then days cfg "retired_recheck_days" 28
    else if text_eq kind (bytes "search_query")
    then days cfg "search_check_days" 30
    else if text_eq kind (bytes "post_search")
    then days cfg "post_search_check_days" 14
    else days cfg "portfolio_check_days" 14

-- advancePortfolio: `src` is the row as it was loaded, and the result what the UPDATE makes of the row.
unfoldable pub advance_portfolio : Settings → ℕ → Text → Row → ℕ → Mode → Row → Row
unfolding portfolio_status portfolio_interval
advance_portfolio cfg now kind src found mode r =
    let empty : ℕ = if ltb 0 found then 0 else src.empty + 1 in
    let status = portfolio_status cfg now src found (src.empty + 1) in
    record r {
      checks = r.checks + 1;
      empty = empty;
      last_checked = some now;
      next_check = some (now + portfolio_interval cfg kind status - 2 * hour);
      mode = new_mode src.mode found mode;
      status = status;
      changed = changed_at status now r;
      updated = now;
    }

-- A check of a source: when it was, what it found and how the page was loaded.
pub record Check : Type 0 where
  pub now : ℕ
  pub found : ℕ
  pub mode : Mode

-- One check after the other, each of the row as it is then.
unfoldable pub advance_all : Settings → Text → List Check → Row → Row
unfolding advance_portfolio
advance_all cfg kind [] r = r
advance_all cfg kind (c ∷ cs) r =
    advance_all cfg kind cs (advance_portfolio cfg c.now kind r c.found c.mode r)

abbrev pub FindNothing : List Check → Type 0
FindNothing cs = All (λ (c : Check). c.found ≡ 0) cs

retired_stays :
    (cfg : Settings) (kind : Text) (cs : List Check) (r : Row)
    → r.status ≡ retired
    → FindNothing cs
    → (advance_all cfg kind cs r).status ≡ retired
unfolding advance_all
retired_stays cfg kind [] r s h = s
retired_stays cfg kind (c ∷ cs) r s h =
    retired_stays cfg kind cs (advance_portfolio cfg c.now kind r c.found c.mode r)
      (rw (h.0, s) refl) h.1

-- One more check that finds nothing retires an active source, or leaves it active with one more.
one_empty :
    (cfg : Settings) (kind : Text) (c : Check) (r : Row)
    → r.status ≡ active
    → c.found ≡ 0
    → let r' = advance_portfolio cfg c.now kind r c.found c.mode r in
      ((int cfg "retire_after_empty_checks" 4 ≤ r.empty + 1) × (r'.status ≡ retired))
      ⊎ ((r.empty + 1 < int cfg "retire_after_empty_checks" 4)
          × (r'.status ≡ active)
          × (r'.empty ≡ r.empty + 1))
unfolding advance_portfolio
one_empty cfg kind c r s z =
    elim (Bool-cases (leb (int cfg "retire_after_empty_checks" 4) (r.empty + 1))) [
      | inl e ↦ inl (ground arith, rw (z, s) (rw e refl))
      | inr e ↦ inr (ground arith, rw (z, s) (rw e refl), rw z refl)
    ]

still_active :
    (cfg : Settings) (kind : Text) (cs : List Check) (r : Row)
    → r.status ≡ active
    → FindNothing cs
    → int cfg "retire_after_empty_checks" 4 ≤ r.empty + length cs
    → r.empty < int cfg "retire_after_empty_checks" 4
    → (advance_all cfg kind cs r).status ≡ retired
unfolding advance_all
still_active cfg kind [] r s h l k = absurd (omega (arith, l, k))
still_active cfg kind (c ∷ cs) r s h l k =
    let r' = advance_portfolio cfg c.now kind r c.found c.mode r in
    elim (one_empty cfg kind c r s h.0) [
      | inl (_, e) ↦ retired_stays cfg kind cs r' e h.1
      | inr (k', e, n) ↦
          still_active cfg kind cs r' e h.1 (omega (arith, l, n)) (omega (arith, k', n))
    ]

-- An active portfolio, directory or search is retired once so many checks in a row, those that it had
-- before counted, found nothing as the setting says, and stays retired while they find nothing.
pub portfolio_retires :
    (cfg : Settings) (kind : Text) (c : Check) (cs : List Check) (r : Row)
    → r.status ≡ active
    → FindNothing (c ∷ cs)
    → int cfg "retire_after_empty_checks" 4 ≤ r.empty + length (c ∷ cs)
    → (advance_all cfg kind (c ∷ cs) r).status ≡ retired
unfolding advance_all
portfolio_retires cfg kind c cs r s h l =
    let r' = advance_portfolio cfg c.now kind r c.found c.mode r in
    elim (one_empty cfg kind c r s h.0) [
      | inl (_, e) ↦ retired_stays cfg kind cs r' e h.1
      | inr (k, e, n) ↦
          still_active cfg kind cs r' e h.1 (omega (arith, l, n)) (omega (arith, k, n))
    ]
