-- ===== src/Sources/Lifecycle.antt =====
-- The statuses that a check of a source can lead to, and when.
use speakertrail.Common.{
  ℕ, ◌+◌, ◌<◌, ◌≡◌, ◌≢◌, ◌↔◌, refl, sym, true, Option, some, is_empty, ◌⊎◌, inl, inr, arith,
  Bool-cases, ◌||◌,
}
use speakertrail.Settings.{Settings}
use speakertrail.Sources.{
  Status, candidate, probation, active, retired, manual, Row, Stats, Mode, FetchError, Outcome,
  fetch_failed, resolved, advance, failed, blocked, make_manual, settle, check_source, is_gone,
  status_eq, failed_status, changed_at,
}

-- The lifecycle: a source starts as a candidate, goes on probation, becomes active, retires and
-- comes back on probation. A page that is gone retires it from anywhere, and a site that refuses
-- the bot leaves it to manual checks.
infix 40 ◌⟶◌
pub data ◌⟶◌ : Status → Status → Type 0 where
  stay : {s : Status} → s ⟶ s
  first_check : candidate ⟶ probation
  first_people : candidate ⟶ active
  people : probation ⟶ active
  tire : {s : Status} → s ≢ manual → s ⟶ retired
  revive : retired ⟶ probation
  refuse : {s : Status} → s ⟶ manual

ruleset edges = (stay, first_check, first_people, people, tire, revive, refuse)

advance-⟶ :
    (cfg : Settings) (now : ℕ) (src : Row) (st : Stats) (mode : Mode) (r : Row) (s : Status)
    → src.status ≡ s
    → s ⟶ (advance cfg now src st mode r).status
unfolding advance
advance-⟶ cfg now src st mode r candidate e = rw e (grind (arith, edges))
advance-⟶ cfg now src st mode r probation e = rw e (grind (arith, edges))
advance-⟶ cfg now src st mode r active e = rw e (grind (arith, edges))
advance-⟶ cfg now src st mode r retired e = rw e (grind (arith, edges))
advance-⟶ cfg now src st mode r manual e = rw e (stay)

failed-⟶ :
    (cfg : Settings) (now : ℕ) (src : Row) (page : Option ℕ) (c : FetchError) (r : Row) (s : Status)
    → src.status ≡ s
    → s ≢ manual
    → s ⟶ (failed cfg now src page c r).status
unfolding failed
failed-⟶ cfg now src page c r s e h = elim (Bool-cases (is_gone c page)) [
  | inl gone ↦ rw gone (tire h)
  | inr there ↦ rw there (transient s e)
]
  where
    transient : (s : Status) → src.status ≡ s → s ⟶ failed_status cfg (src.empty + 1) src.status
    transient candidate e = rw e first_check
    transient probation e = rw e stay
    transient active e = rw e (grind (arith, edges))
    transient retired e = rw e stay
    transient manual e = rw e stay

-- A check, whatever it came to, moves a source along an edge of the lifecycle; a source without an
-- address, or one that is checked by hand, is not changed at all.
pub check_source-⟶ :
    (cfg : Settings) (start now : ℕ) (src : Row) (o : Outcome)
    → (src.status ⟶ (check_source cfg start now src o src).status)
      × ((is_empty src.url ≡ true) ⊎ (src.status ≡ manual)
          → check_source cfg start now src o src ≡ src)
unfolding check_source
check_source-⟶ cfg start now src o = (
  elim (Bool-cases (is_empty src.url || status_eq src.status manual)) [
    | inl e ↦ rw e stay
    | inr e ↦ rw e (settled o (λ h. ground arith))
  ],
  λ h. ground arith,
)
  where
    settled :
        (o : Outcome) → src.status ≢ manual → src.status ⟶ (settle cfg start now src o src).status
    settled (resolved st mode) h = advance-⟶ cfg now src st mode src src.status refl
    settled (fetch_failed e page) h = elim (Bool-cases (blocked e page)) [
      | inl b ↦ rw (b, settle) (unfold make_manual in refuse)
      | inr b ↦
          rw (b, settle)
            (failed-⟶ cfg now src page e (record src { last_checked = some start }) src.status refl
              h)
    ]

-- A check makes a source active only if it kept an event with people on it.
pub active_needs_people :
    (cfg : Settings) (start now : ℕ) (src : Row) (o : Outcome)
    → src.status ≢ active
    → (check_source cfg start now src o src).status ≡ active
    → (st : Stats) × (mode : Mode) × (o ≡ resolved st mode) × (0 < st.kept_with_people)
unfolding check_source settle
active_needs_people cfg start now src (resolved st mode) h e = (st, mode, refl, ground arith)
active_needs_people cfg start now src (fetch_failed c page) h e = absurd (ground arith)

pub status_eq_iff : (a b : Status) → (status_eq a b ≡ true) ↔ (a ≡ b)
status_eq_iff candidate b = ground arith
status_eq_iff probation b = ground arith
status_eq_iff active b = ground arith
status_eq_iff retired b = ground arith
status_eq_iff manual b = ground arith

-- Whether a row says rightly when its status changed, against the row before.
abbrev pub IsStamped : ℕ → Row → Row → Type 0
IsStamped now src r =
    ((r.status ≡ src.status) × (r.changed ≡ src.changed))
    ⊎ ((r.status ≢ src.status) × (r.changed ≡ now))

changed_at-exact :
    (now : ℕ) (src : Row) (s : Status)
    → ((s ≡ src.status) × (changed_at s now src ≡ src.changed))
      ⊎ ((s ≢ src.status) × (changed_at s now src ≡ now))
changed_at-exact now src s = elim (Bool-cases (status_eq src.status s)) [
  | inl e ↦ inl (sym ((status_eq_iff src.status s).0 e), rw e)
  | inr e ↦ inr (λ h. cc (e, (status_eq_iff src.status s).1 (sym h)), rw e)
]

settle-IsStamped :
    (cfg : Settings) (start now : ℕ) (src : Row) (o : Outcome)
    → src.status ≢ manual
    → IsStamped now src (settle cfg start now src o src)
unfolding settle
settle-IsStamped cfg start now src (resolved st mode) h =
    unfold advance in changed_at-exact now src _
settle-IsStamped cfg start now src (fetch_failed e page) h = elim (Bool-cases (blocked e page)) [
  | inl b ↦ rw (b, settle) (unfold make_manual in inr (λ k. h (sym k), refl))
  | inr b ↦ rw (b, settle) (unfold failed in changed_at-exact now src _)
]

-- The time of the last change of status moves exactly when the status does, and it moves to the time
-- of the check.
pub changed-exact :
    (cfg : Settings) (start now : ℕ) (src : Row) (o : Outcome)
    → IsStamped now src (check_source cfg start now src o src)
unfolding check_source
changed-exact cfg start now src o =
    elim (Bool-cases (is_empty src.url || status_eq src.status manual)) [
      | inl e ↦ rw e (inl (refl, refl))
      | inr e ↦ rw e (
          settle-IsStamped cfg start now src o
            (λ h. ground (arith, (status_eq_iff src.status manual).1 h)))
    ]
