-- ===== src/Runs/Keys.antt =====
-- The keys of a run's jobs: they start with the run's number, and no other run's number matches.
use mathlib.Core.List.{append_assoc}
use speakertrail.Common.{
  ℕ, ◌≡◌, ◌↔◌, refl, sym, ap, ◌∙◌, true, some, [], ◌∷◌, ◌++◌, Text, bytes, has_prefix,
  after_prefix-append, All, arith,
}
use speakertrail.Common.Decimal.{
  decimal, value_from-decimal, IsDigit, decimal-All, decimal-nonempty,
}
use speakertrail.Common.Affixes.{has_prefix_iff}
use speakertrail.Runs.{run_key, number_of, up_to_colon, all_digits, digits_value}

up_to_colon-append : (ds r : Text) → All IsDigit ds → up_to_colon (ds ++ b':' ∷ r) ≡ ds
unfolding up_to_colon
up_to_colon-append [] r h = refl
up_to_colon-append (d ∷ ds) r h = ground (arith, up_to_colon-append ds r h.1)

all_digits_lem : (ds : Text) → All IsDigit ds → all_digits ds ≡ true
unfolding all_digits
all_digits_lem [] h = refl
all_digits_lem (d ∷ ds) h = ground (arith, all_digits_lem ds h.1)

run_key-append : (n : ℕ) (r : Text) → run_key n ++ r ≡ bytes "run:" ++ (decimal n ++ b':' ∷ r)
run_key-append n r = ap (λ x. bytes "run:" ++ x) (append_assoc (decimal n) (bytes ":") r)

-- The number in a key is the run that it was made for.
pub number_of-run_key : (n : ℕ) (r : Text) → number_of (run_key n ++ r) ≡ some n
unfolding number_of digits_value
number_of-run_key n r =
    rw
      (
        run_key-append n r,
        number_of,
        after_prefix-append,
        up_to_colon-append (decimal n) r (decimal-All n),
        digits_value,
        decimal-nonempty n,
        all_digits_lem (decimal n) (decimal-All n),
        value_from-decimal n,
      )
      refl

-- A key has the prefix of one run exactly if it was made for that run.
pub run_key_iff :
    (n m : ℕ) (rest : Text) → (has_prefix (run_key n) (run_key m ++ rest) ≡ true) ↔ (n ≡ m)
run_key_iff n m rest = (
  λ h.
      let (r, e) = (has_prefix_iff (run_key n) (run_key m ++ rest)).0 h in
      same (sym (number_of-run_key n r) ∙ (ap number_of (sym e) ∙ number_of-run_key m rest)),
  λ e.
      (has_prefix_iff (run_key n) (run_key m ++ rest)).1
        (rest, ap (λ k. run_key k ++ rest) (sym e)),
)
  where
    same : some n ≡ some m → n ≡ m
    same h = cc
