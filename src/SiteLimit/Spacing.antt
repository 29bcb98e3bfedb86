-- ===== src/SiteLimit/Spacing.antt =====
-- Requests to one website are an interval apart, whoever makes them and whenever.
use speakertrail.Common.{
  ℕ, ◌+◌, ◌≤◌, ◌<◌, ◌≡◌, ◌≢◌, refl, ap, inl, inr, max, Option, none, some, List, [], ◌∷◌, Text,
  text_eq, text_eq_iff, All, arith, Bool-cases, if◌then◌else◌,
}
use speakertrail.Urls.{Parser}
use speakertrail.SiteLimit.{Slots, book, reserve, wait, wake, ok, err, cancelled}

-- When the next request to a host may start, as the table says; 0 where it says nothing.
unfoldable pub next_at : Text → Slots → ℕ
next_at host [] = 0
next_at host ((h, next) ∷ rest) =
    let later = next_at host rest in if text_eq h host then next else later

-- The slot that a booking returns is the later of the present and the next free slot.
slot-book :
    (interval now : ℕ) (host : Text) (s : Slots)
    → (book interval now host s).1 ≡ max (next_at host s) now
unfolding book next_at
slot-book interval now host [] = omega arith
slot-book interval now host ((h, next) ∷ rest) = ground (arith, slot-book interval now host rest)

next_at-book_self :
    (interval now : ℕ) (host : Text) (s : Slots)
    → next_at host (book interval now host s).0 ≡ max (next_at host s) now + interval
unfolding book next_at
next_at-book_self interval now host [] = ground (arith, text_eq_iff host host)
next_at-book_self interval now host ((h, next) ∷ rest) =
    ground (arith, next_at-book_self interval now host rest)

next_at-book_other :
    (interval now : ℕ) (host : Text) (s : Slots) (other : Text)
    → host ≢ other
    → next_at other (book interval now host s).0 ≡ next_at other s
unfolding book next_at
next_at-book_other interval now host [] other n = ground (arith, text_eq_iff host other, n)
next_at-book_other interval now host ((h, next) ∷ rest) other n = ground (
  arith,
  next_at-book_other interval now host rest other n,
  text_eq_iff h host,
  text_eq_iff h other,
)

-- A reservation: the clock of the worker that makes it, and the website.
pub record Request : Type 0 where
  pub now : ℕ
  pub host : Text

-- The slots that a series of reservations gives to one website, in order.
unfoldable pub slots_for : ℕ → Text → Slots → List Request → List ℕ
slots_for interval host s [] = []
slots_for interval host s (r ∷ rs) =
    let (s', slot) = book interval r.now r.host s in
    let rest = slots_for interval host s' rs in if text_eq r.host host then slot ∷ rest else rest

-- Each slot is an interval or more before all later ones.
abbrev pub IsSpaced : ℕ → List ℕ → Type 0
IsSpaced interval [] = Unit
IsSpaced interval (t ∷ ts) = All (λ u. t + interval ≤ u) ts × IsSpaced interval ts

module _ (interval : ℕ) (host : Text) where
  -- No slot comes before the one that the table has next.
  slots_after :
      (s : Slots) (rs : List Request) (n : ℕ)
      → n ≤ next_at host s
      → All (λ u. n ≤ u) (slots_for interval host s rs)
  unfolding slots_for
  slots_after s [] n h = tt
  slots_after s (r ∷ rs) n h = elim (Bool-cases (text_eq r.host host)) [
    | inl e ↦
        let same : r.host ≡ host = (text_eq_iff r.host host).0 e in
        rw e (
          omega (arith, slot-book interval r.now r.host s, ap (λ k. next_at k s) same),
          slots_after (book interval r.now r.host s).0 rs n (
              omega (
                arith,
                next_at-book_self interval r.now r.host s,
                ap (λ k. next_at k s) same,
                ap (λ k. next_at k (book interval r.now r.host s).0) same,
              )),
        )
    | inr e ↦ rw e (
        slots_after (book interval r.now r.host s).0 rs n (
          omega (
            arith,
            next_at-book_other interval r.now r.host s host
                (λ k. cc (e, (text_eq_iff r.host host).1 k)),
          )))
  ]

  -- However many workers reserve slots, in whatever order and with whatever clocks, the slots that one
  -- website gets are an interval or more apart, each before all later ones.
  pub slots_for-IsSpaced :
      (s : Slots) (rs : List Request) → IsSpaced interval (slots_for interval host s rs)
  unfolding slots_for
  slots_for-IsSpaced s [] = tt
  slots_for-IsSpaced s (r ∷ rs) =
      let s' = (book interval r.now r.host s).0 in
      elim (Bool-cases (text_eq r.host host)) [
        | inl e ↦
            let same : r.host ≡ host = (text_eq_iff r.host host).0 e in
            rw e (
              slots_after s' rs ((book interval r.now r.host s).1 + interval) (
                  omega (
                    arith,
                    slot-book interval r.now r.host s,
                    next_at-book_self interval r.now r.host s,
                    ap (λ k. next_at k s') same,
                  )),
              slots_for-IsSpaced s' rs,
            )
        | inr e ↦ rw e (slots_for-IsSpaced s' rs)
      ]

-- A reservation never starts before it is made, starts at once where the website has no later slot
-- booked, and leaves the slots of all other websites alone.
pub book_exact :
    (interval now : ℕ) (host : Text) (s : Slots)
    → (now ≤ (book interval now host s).1)
      × (next_at host s ≤ now → (book interval now host s).1 ≡ now)
      × ((other : Text)
          → host ≢ other
          → next_at other (book interval now host s).0 ≡ next_at other s)
book_exact interval now host s = (
  omega (arith, slot-book interval now host s),
  λ h. omega (arith, slot-book interval now host s),
  next_at-book_other interval now host s,
)

wake_cancelled :
    (c : Option ℕ) (later slot : ℕ)
    → wake c later (ok slot) ≡ err cancelled
    → (t : ℕ) × (c ≡ some t) × (t < slot)
unfolding wake
wake_cancelled none later slot h = absurd (ground arith)
wake_cancelled (some t) later slot h = (t, refl, ground arith)

-- Wait lets the caller go on at its slot or, where that is over, at once; it fails where the
-- reservation does, and where the context is cancelled before the slot.
pub wait_exact :
    (parse : Parser) (fault : Option Text) (c : Option ℕ) (interval now later : ℕ) (raw : Text)
    (s : Slots) (slot : ℕ)
    → (reserve parse fault interval now raw s).1 ≡ ok slot
    → let out = wait parse fault c interval now later raw s in
      (out.0 ≡ (reserve parse fault interval now raw s).0)
      × ((t : ℕ) → out.1 ≡ ok t → (slot ≤ t) × (later ≤ t))
      × (out.1 ≡ err cancelled → (t : ℕ) × (c ≡ some t) × (t < slot))
unfolding wait
wait_exact parse fault c interval now later raw s slot e =
    (refl, λ t h. ground (arith, e), λ h. wake_cancelled c later slot (ground (arith, e)))
