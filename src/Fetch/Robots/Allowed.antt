-- ===== src/Fetch/Robots/Allowed.antt =====
-- Which rule decides: the longest one that matches, and an allow rule on a tie.
use mathlib.Core.List.{Memᴰ, append_assoc, append-nil}
use mathlib.Core.List.Memᴰ
use speakertrail.Common.{
  ℕ, ◌≤◌, ◌≡◌, ◌↔◌, refl, sym, ◌∙◌, ◌⊎◌, inl, inr, Bool, true, false, not, ◌||◌, none, some, List,
  [], ◌∷◌, ◌++◌, Text, is_empty, All, All-append, All-weaken, All_at, length, arith, Bool-cases,
}
use speakertrail.Fetch.Robots.{
  Rule, Rules, robots_match, Best, better, consider, best_of, verdict, allowed,
}

module _ (path : Text) where
  -- A rule with a pattern that matches the path. An empty pattern is no rule.
  abbrev pub applies : Rule → Bool
  applies r = not (is_empty r.pattern || not (robots_match r.pattern path))

  -- No rule that applies is longer than l, and where one of that length allows, so does a.
  abbrev IsTop : Bool → ℕ → Rule → Type 0
  IsTop a l x =
      applies x ≡ true → (length x.pattern ≤ l) × (length x.pattern ≡ l → x.allow ≡ true → a ≡ true)

  abbrev IsBest : List Rule → Best → Type 0
  IsBest rs none = All (λ x. applies x ≡ false) rs
  IsBest rs (some (a, l)) =
      (r : Rule) × Memᴰ r rs
      × (applies r ≡ true)
      × (r.allow ≡ a)
      × (length r.pattern ≡ l)
      × All (IsTop a l) rs

  none-IsTop :
      (a : Bool) (l : ℕ) (rs : List Rule) → All (λ x. applies x ≡ false) rs → All (IsTop a l) rs
  none-IsTop a l rs h = All-weaken rs (λ x e k. absurd (cc (e, k))) h

  -- A rule that does not apply changes nothing.
  consider_other :
      (done : List Rule) (r : Rule) (best : Best)
      → applies r ≡ false
      → IsBest done best
      → IsBest (done ++ r ∷ []) best
  consider_other done r none e h = All-append (λ x. applies x ≡ false) done (r ∷ []) h (e, tt)
  consider_other done r (some (a, l)) e (x, m, ap_x, al, len, top) = (
    x,
    Memᴰ.append_left (r ∷ []) m,
    ap_x,
    al,
    len,
    All-append (IsTop a l) done (r ∷ []) top (λ k. absurd (cc (e, k)), tt),
  )

  consider_better :
      (done : List Rule) (r : Rule) (best : Best)
      → applies r ≡ true
      → better r best ≡ true
      → IsBest done best
      → IsBest (done ++ r ∷ []) (some (r.allow, length r.pattern))
  consider_better done r none e b h = (
    r,
    Memᴰ.append_right done (Memᴰ.head refl),
    e,
    refl,
    refl,
    All-append (IsTop r.allow (length r.pattern)) done (r ∷ []) (none-IsTop _ _ done h)
        (λ _. (omega arith, λ _ k. k), tt),
  )
  consider_better done r (some (a, l)) e b (x, m, ap_x, al, len, top) = (
    r,
    Memᴰ.append_right done (Memᴰ.head refl),
    e,
    refl,
    refl,
    All-append (IsTop r.allow (length r.pattern)) done (r ∷ [])
        (All-weaken done (λ y h k. (ground (arith, h k), λ p q. ground (arith, h k))) top)
        (λ _. (omega arith, λ _ k. k), tt),
  )

  consider_worse :
      (done : List Rule) (r : Rule) (best : Best)
      → applies r ≡ true
      → better r best ≡ false
      → IsBest done best
      → IsBest (done ++ r ∷ []) best
  consider_worse done r none e b h = cc
  consider_worse done r (some (a, l)) e b (x, m, ap_x, al, len, top) = (
    x,
    Memᴰ.append_left (r ∷ []) m,
    ap_x,
    al,
    len,
    All-append (IsTop a l) done (r ∷ []) top (λ k. (ground arith, λ p q. ground arith), tt),
  )

  consider-IsBest :
      (done : List Rule) (r : Rule) (best : Best)
      → IsBest done best
      → IsBest (done ++ r ∷ []) (consider path r best)
  consider-IsBest done r best h =
      elim (Bool-cases (is_empty r.pattern || not (robots_match r.pattern path))) [
        | inl e ↦ rw e (consider_other done r best (ground arith) h)
        | inr e ↦ elim (Bool-cases (better r best)) [
          | inl b ↦ rw (e, b) (consider_better done r best (ground arith) b h)
          | inr b ↦ rw (e, b) (consider_worse done r best (ground arith) b h)
        ]
      ]

  best_of-IsBest :
      (done rs : List Rule) (best : Best)
      → IsBest done best
      → IsBest (done ++ rs) (best_of path rs best)
  unfolding best_of
  best_of-IsBest done [] best h = rw (append-nil done) h
  best_of-IsBest done (r ∷ rs) best h =
      rw (sym (append_assoc done (r ∷ []) rs))
        (best_of-IsBest (done ++ r ∷ []) rs (consider path r best) (consider-IsBest done r best h))

  -- A rule that applies, allows, and has no longer rule that applies.
  abbrev pub HasLongestAllow : List Rule → Type 0
  HasLongestAllow rs =
      (r : Rule) × Memᴰ r rs
      × (applies r ≡ true)
      × (r.allow ≡ true)
      × All (λ x. applies x ≡ true → length x.pattern ≤ length r.pattern) rs

  verdict_iff :
      (rs : List Rule) (best : Best)
      → IsBest rs best
      → (verdict best ≡ true) ↔ (All (λ x. applies x ≡ false) rs ⊎ HasLongestAllow rs)
  verdict_iff rs none h = (λ _. inl h, λ _. refl)
  verdict_iff rs (some (a, l)) (x, m, ap_x, al, len, top) = (
    λ v. inr (x, m, ap_x, al ∙ v, All-weaken rs (λ y t k. ground (arith, t k)) top),
    elim [
      | inl h ↦ absurd (ground (arith, All_at (λ x. applies x ≡ false) x rs h m))
      | inr (r, m', ap_r, al', long) ↦
          let below = All_at (IsTop a l) r rs top m' ap_r in
          let above =
            All_at (λ x. applies x ≡ true → length x.pattern ≤ length r.pattern) x rs long m ap_x in
          below.1 (omega arith) al'
    ],
  )

-- A path may be fetched exactly if the site is not closed as a whole and either no rule applies or,
-- of the longest rules that apply, one allows.
pub allowed_iff :
    (rr : Rules) (path : Text)
    → (allowed rr path ≡ true) ↔ (
        (rr.disallow_all ≡ false)
        × (All (λ x. applies path x ≡ false) rr.rules ⊎ HasLongestAllow path rr.rules))
unfolding allowed
allowed_iff rr path =
    let best =
      verdict_iff path rr.rules (best_of path rr.rules none)
        (best_of-IsBest path [] rr.rules none tt) in
    elim (Bool-cases rr.disallow_all) [
      | inl e ↦ rw e (λ h. absurd (ground arith), λ w. absurd (ground arith))
      | inr e ↦ rw e (λ h. (refl, best.0 h), λ w. best.1 w.1)
    ]
