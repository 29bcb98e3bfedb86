-- ===== src/Queue/Updates.antt =====
-- What an UPDATE … WHERE leaves in a list of rows.
use mathlib.Core.List.{Memᴰ}
use mathlib.Core.List.Memᴰ
use speakertrail.Common.{
  ◌≡◌, ◌≢◌, ◌∙◌, refl, sym, ap, Distinct, All_at, Bool, true, false, List, [], ◌∷◌, map, ◌⊎◌, inl,
  inr, All, if◌then◌else◌, arith, Bool-cases,
}
use speakertrail.Queue.Rows.{Row, update_where}

module _ (p : Row → Bool) (f : Row → Row) where
  pub map-update_where {ℓ} :
      {A : Type ℓ} (g : Row → A) (rs : List Row)
      → ((r : Row) → g (f r) ≡ g r)
      → map g (update_where p f rs) ≡ map g rs
  map-update_where g [] h = refl
  map-update_where g (r ∷ rs) h = ground (arith, h r, map-update_where g rs h)

  pub All-update_where {κ} :
      (P : Row → Type κ) (rs : List Row)
      → ((r : Row) → p r ≡ true → P r → P (f r))
      → All P rs
      → All P (update_where p f rs)
  All-update_where P [] h a = tt
  All-update_where P (r ∷ rs) h a = elim (Bool-cases (p r)) [
    | inl e ↦ rw e (h r e a.0, All-update_where P rs h a.1)
    | inr e ↦ rw e (a.0, All-update_where P rs h a.1)
  ]

  -- A row after an UPDATE is one that it left alone, or the new form of one that it changed.
  abbrev pub Origin : Row → List Row → Type 0
  Origin r rs = (Memᴰ r rs × (p r ≡ false)) ⊎ ((x : Row) × Memᴰ x rs × (p x ≡ true) × (r ≡ f x))

  Origin-cons : (r x : Row) (rs : List Row) → Origin r rs → Origin r (x ∷ rs)
  Origin-cons r x rs (inl (n, e)) = inl (Memᴰ.tail n, e)
  Origin-cons r x rs (inr (y, n, e, h)) = inr (y, Memᴰ.tail n, e, h)

  pub mem-update_where : (r : Row) (rs : List Row) → Memᴰ r (update_where p f rs) → Origin r rs
  mem-update_where r [] m = absurd (Memᴰ.not-nil m)
  mem-update_where r (x ∷ rs) m = elim (Bool-cases (p x)) [
    | inl e ↦ elim (Memᴰ.cases_cons m) [
      | inl h ↦ inr (x, Memᴰ.head refl, e, ground arith)
      | inr n ↦ Origin-cons r x rs (mem-update_where r rs n)
    ]
    | inr e ↦ elim (Memᴰ.cases_cons m) [
      | inl h ↦ let h' : r ≡ x = ground arith in inl (Memᴰ.head h', rw h' e)
      | inr n ↦ Origin-cons r x rs (mem-update_where r rs n)
    ]
  ]

  pub All-of-update_where {κ} :
      (P : Row → Type κ) (rs : List Row)
      → All P (update_where p f rs)
      → All (λ x. p x ≡ false → P x) rs
  All-of-update_where P [] h = tt
  All-of-update_where P (x ∷ rs) h =
      (λ e. let h' : P (if p x then f x else x) = h.0 in rw e at h', All-of-update_where P rs h.1)

  pub mem_updated :
      (r : Row) (rs : List Row) → Memᴰ r rs → p r ≡ true → Memᴰ (f r) (update_where p f rs)
  mem_updated r [] m e = absurd (Memᴰ.not-nil m)
  mem_updated r (x ∷ rs) m e = elim (Memᴰ.cases_cons m) [
    | inl h ↦ Memᴰ.head (ground arith)
    | inr n ↦ Memᴰ.tail (mem_updated r rs n e)
  ]

-- Two rows of a table with one id, or one key, are one row.
pub same_row {ℓ} :
    {A : Type ℓ} (g : Row → A) (rs : List Row) (x r : Row)
    → Distinct (map g rs)
    → Memᴰ x rs
    → Memᴰ r rs
    → g x ≡ g r
    → x ≡ r
same_row g [] x r d m n e = absurd (Memᴰ.not-nil m)
same_row g (y ∷ rs) x r d m n e = elim (Memᴰ.cases_cons m) [
  | inl h ↦ elim (Memᴰ.cases_cons n) [
    | inl k ↦ h ∙ sym k
    | inr k ↦ absurd (All_at (λ i. g y ≢ i) (g r) _ d.0 (Memᴰ.map g k) (ap g (sym h) ∙ e))
  ]
  | inr h ↦ elim (Memᴰ.cases_cons n) [
    | inl k ↦ absurd (All_at (λ i. g y ≢ i) (g x) _ d.0 (Memᴰ.map g h) (ap g (sym k) ∙ sym e))
    | inr k ↦ same_row g rs x r d.1 h k e
  ]
]

pub All-update_mem :
    (p : Row → Bool) (f : Row → Row) (P Q : Row → Type 0) (rs : List Row)
    → ((r : Row) → Memᴰ r rs → p r ≡ true → P r → Q (f r))
    → ((r : Row) → Memᴰ r rs → p r ≡ false → P r → Q r)
    → All P rs
    → All Q (update_where p f rs)
All-update_mem p f P Q [] h k a = tt
All-update_mem p f P Q (r ∷ rs) h k a =
    let rest =
      All-update_mem p f P Q rs (λ x m. h x (Memᴰ.tail m)) (λ x m. k x (Memᴰ.tail m)) a.1 in
    elim (Bool-cases (p r)) [
      | inl e ↦ rw e (h r (Memᴰ.head refl) e a.0, rest)
      | inr e ↦ rw e (k r (Memᴰ.head refl) e a.0, rest)
    ]
