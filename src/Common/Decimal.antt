-- ===== src/Common/Decimal.antt =====
-- Numbers in decimal, as fmt prints them and SQL's text casts do, and read back.
use speakertrail.Common.Texts.{Text, is_empty}
use Prim.Native.Nat.{ℕ, zero, suc, ◌+◌, ◌-◌, ◌*◌, ◌/◌, ◌%◌, ◌≤◌, ◌<◌}
use mathlib.Core.Path.{◌≡◌, refl}
use mathlib.Core.List.{[], ◌∷◌, ◌++◌}
use native.Mathlib.Omega.{arith}
use mathlib.Core.Bool.{false}
use mathlib.Core.Logic.{inl, inr}
use speakertrail.Common.Tests.{ltb, if◌then◌else◌, Bool-cases}
use speakertrail.Common.Lists.{All, All-append}

-- The digits of n, given fuel above n.
decimal_fuel : ℕ → ℕ → Text
decimal_fuel zero n = []
decimal_fuel (suc f) n =
    let rest = decimal_fuel f (n / 10) in
    if ltb n 10 then (48 + n) ∷ [] else rest ++ ((48 + n % 10) ∷ [])

unfoldable pub decimal : ℕ → Text
unfolding decimal_fuel
decimal n = decimal_fuel (suc n) n

-- The number that a text of digits reads as, from an accumulator on.
unfoldable pub value_from : ℕ → Text → ℕ
value_from n [] = n
value_from n (c ∷ cs) = value_from (n * 10 + (c - 48)) cs

value_from-append :
    (n : ℕ) (s : Text) (c : ℕ) → value_from n (s ++ c ∷ []) ≡ value_from n s * 10 + (c - 48)
unfolding value_from
value_from-append n [] c = refl
value_from-append n (d ∷ s) c = value_from-append (n * 10 + (d - 48)) s c

value_from-decimal_fuel : (f n : ℕ) → n < f → value_from 0 (decimal_fuel f n) ≡ n
unfolding decimal_fuel value_from
value_from-decimal_fuel zero n h = elim h [ ]
value_from-decimal_fuel (suc f) n h = ground (
  arith,
  value_from-append 0 (decimal_fuel f (n / 10)) (48 + n % 10),
  value_from-decimal_fuel f (n / 10),
)

-- Reading a printed number gives the number back.
pub value_from-decimal : (n : ℕ) → value_from 0 (decimal n) ≡ n
unfolding decimal
value_from-decimal n = value_from-decimal_fuel (suc n) n (omega arith)

abbrev pub IsDigit : ℕ → Type 0
IsDigit c = (48 ≤ c) × (c ≤ 57)

decimal_fuel-All : (f n : ℕ) → All IsDigit (decimal_fuel f n)
unfolding decimal_fuel
decimal_fuel-All zero n = tt
decimal_fuel-All (suc f) n = ground (
  arith,
  All-append IsDigit (decimal_fuel f (n / 10)) ((48 + n % 10) ∷ []) (decimal_fuel-All f (n / 10))
      (omega arith),
)

pub decimal-All : (n : ℕ) → All IsDigit (decimal n)
unfolding decimal
decimal-All n = decimal_fuel-All (suc n) n

snoc-nonempty : (s : Text) (c : ℕ) → is_empty (s ++ c ∷ []) ≡ false
snoc-nonempty [] c = refl
snoc-nonempty (d ∷ s) c = refl

-- A printed number has a digit.
pub decimal-nonempty : (n : ℕ) → is_empty (decimal n) ≡ false
unfolding decimal decimal_fuel
decimal-nonempty n = elim (Bool-cases (ltb n 10)) [
  | inl e ↦ rw (decimal, decimal_fuel, e) refl
  | inr e ↦ rw (decimal, decimal_fuel, e) (snoc-nonempty (decimal_fuel n (n / 10)) (48 + n % 10))
]
