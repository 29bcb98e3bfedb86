-- ===== src/Resolve/Titles/Same.antt =====
-- internal/pipeline/resolve.go: sameTitle does not depend on the order of the titles.
use mathlib.Core.List.{append-nil}
use speakertrail.Common.{
  ℕ, ◌+◌, ◌<◌, ◌≤◌, ◌≡◌, refl, sym, ◌∙◌, true, [], ◌∷◌, ◌++◌, Text, inl, inr, ◌⊎◌, ◌↔◌, arith,
  Bool-cases, text_eq, text_eq_iff, text_eq_refl, contains, has_prefix, ltb,
}
use speakertrail.Common.Affixes.{has_prefix_iff}
use speakertrail.Resolve.Titles.{rune_size, byte_length, is_part, same_title}

byte_length-append : (a b : Text) → byte_length (a ++ b) ≡ byte_length a + byte_length b
unfolding byte_length
byte_length-append [] b = omega arith
byte_length-append (c ∷ a) b = omega (arith, byte_length-append a b)

size-pos : (c : ℕ) → 0 < rune_size c
unfolding rune_size
size-pos c = ground arith

size-cons : (c : ℕ) (t : Text) → byte_length (c ∷ t) ≡ rune_size c + byte_length t
unfolding byte_length
size-cons c t = refl

only_empty : (r : Text) → byte_length r ≤ 0 → r ≡ []
unfolding byte_length
only_empty [] h = refl
only_empty (c ∷ r) h = absurd (omega (arith, size-pos c))

prefix-le : (a b : Text) → has_prefix a b ≡ true → byte_length a ≤ byte_length b
prefix-le a b h =
    let (r, e) = (has_prefix_iff a b).0 h in rw e (omega (arith, byte_length-append a r))

-- A text is no longer than one that contains it.
pub contains-le : (a b : Text) → contains a b ≡ true → byte_length a ≤ byte_length b
unfolding contains
contains-le [] [] h = omega arith
contains-le (x ∷ a) [] h = absurd (ground arith)
contains-le a (c ∷ b) h = elim (Bool-cases (has_prefix a (c ∷ b))) [
  | inl e ↦ prefix-le a (c ∷ b) e
  | inr e ↦ omega (arith, size-cons c b, contains-le a b (ground arith))
]

-- A text that contains one as long as itself is that text.
contains-eq : (a b : Text) → contains a b ≡ true → byte_length b ≤ byte_length a → a ≡ b
unfolding contains
contains-eq [] [] h l = refl
contains-eq (x ∷ a) [] h l = absurd (ground arith)
contains-eq a (c ∷ b) h l = elim (Bool-cases (has_prefix a (c ∷ b))) [
  | inl e ↦
      let (r, p) = (has_prefix_iff a (c ∷ b)).0 e in
      let n : byte_length (c ∷ b) ≡ byte_length a + byte_length r = rw p (byte_length-append a r) in
      sym (p ∙ (rw (only_empty r (omega arith)) (append-nil a)))
  | inr e ↦
      let k : byte_length a ≤ byte_length b = contains-le a b (ground arith) in
      absurd (omega (arith, size-cons c b, size-pos c))
]

same_title_comm : (a b : Text) → same_title a b ≡ same_title b a
unfolding same_title is_part
same_title_comm a b = elim (Bool-cases (text_eq a b)) [
  | inl e ↦ rw ((text_eq_iff a b).0 e) refl
  | inr e ↦ ground (arith, text_eq_iff a b, text_eq_iff b a, contains-eq a b, contains-eq b a)
]

-- Two titles count as one exactly if they are equal, or one of them is at least 12 bytes long and
-- stands in the other.
pub same_title_iff :
    (a b : Text)
    → (same_title a b ≡ true) ↔ (
        (a ≡ b)
        ⊎ ((12 ≤ byte_length a) × (contains a b ≡ true))
        ⊎ ((12 ≤ byte_length b) × (contains b a ≡ true)))
unfolding same_title is_part
same_title_iff a b = (forward, backward)
  where
    forward :
        same_title a b ≡ true
        → (a ≡ b)
          ⊎ ((12 ≤ byte_length a) × (contains a b ≡ true))
          ⊎ ((12 ≤ byte_length b) × (contains b a ≡ true))
    forward h = elim (Bool-cases (text_eq a b)) [
      | inl e ↦ inl ((text_eq_iff a b).0 e)
      | inr e ↦ elim (Bool-cases (ltb (byte_length b) (byte_length a))) [
        | inl l ↦ inr (inr (ground arith, ground arith))
        | inr l ↦ inr (inl (ground arith, ground arith))
      ]
    ]

    backward :
        (a ≡ b)
          ⊎ ((12 ≤ byte_length a) × (contains a b ≡ true))
          ⊎ ((12 ≤ byte_length b) × (contains b a ≡ true))
        → same_title a b ≡ true
    backward (inl e) = rw (e, text_eq_refl b) refl
    backward (inr (inl (l, c))) = ground (arith, contains-le a b, contains-eq a b, text_eq_iff a b)
    backward (inr (inr (l, c))) = ground (arith, contains-le b a, contains-eq b a, text_eq_iff a b)
