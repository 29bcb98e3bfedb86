-- ===== src/Queue/Backoff.antt =====
-- The waits between attempts.
use mathlib.Core.List.{Memᴰ}
use speakertrail.Common.{
  ℕ, zero, suc, ◌-◌, ◌*◌, ◌<◌, ◌≡◌, refl, min, List, [], ◌∷◌, ◌++◌, length, get_or, ◌==◌,
  if◌then◌else◌, arith, length-append,
}
use speakertrail.Queue.{Options, new, backoff, minute, default_backoff, is_nil}

get_or-member {ℓ} :
    {A : Type ℓ} (xs : List A) (i : ℕ) (d : A) → i < length xs → Memᴰ (get_or xs i d) xs
get_or-member [] i d h = elim h [ ]
get_or-member (x ∷ xs) zero d h = Memᴰ.head refl
get_or-member (x ∷ xs) (suc i) d h = Memᴰ.tail (get_or-member xs i d (omega arith))

backoff_member : (o : Options) (k : ℕ) → 0 < length o.backoff → Memᴰ (backoff o k) o.backoff
unfolding backoff
backoff_member o k h = get_or-member o.backoff _ 0 (omega arith)

new_pos : (o : Options) → 0 < length (new o).backoff
unfolding new
new_pos o = pos o.backoff
  where
    pos : (xs : List ℕ) → 0 < length (if is_nil xs then default_backoff else xs)
    pos [] = omega arith
    pos (x ∷ xs) = omega arith

-- A queue made by New never reads past its list of waits: every wait is one of them.
pub backoff-in_list : (o : Options) (k : ℕ) → Memᴰ (backoff (new o) k) (new o).backoff
backoff-in_list o k = backoff_member (new o) k (new_pos o)

get_or-last {ℓ} :
    {A : Type ℓ} (xs : List A) (x d : A) (i : ℕ) → i ≡ length xs → get_or (xs ++ x ∷ []) i d ≡ x
get_or-last [] x d zero e = refl
get_or-last [] x d (suc i) e = absurd (omega arith)
get_or-last (y ∷ xs) x d zero e = absurd (omega arith)
get_or-last (y ∷ xs) x d (suc i) e = get_or-last xs x d i (omega arith)

-- From the attempt that its position names on, the last wait of the list repeats.
pub backoff_repeats :
    (o : Options) (ws : List ℕ) (w k : ℕ)
    → o.backoff ≡ ws ++ w ∷ []
    → length ws < k
    → backoff o k ≡ w
unfolding backoff
backoff_repeats o ws w k e h = rw e (
    get_or-last ws w 0 (min (k - 1) (length (ws ++ w ∷ []) - 1))
      (omega (arith, length-append ws (w ∷ []))))

-- With the default options the waits are 1 minute, 10 minutes, and 1 hour from the third attempt on.
pub default_schedule :
    (o : Options) (k : ℕ)
    → o.backoff ≡ []
    → 0 < k
    → backoff (new o) k ≡ (if k == 1 then minute else if k == 2 then 10 * minute else 60 * minute)
unfolding backoff new
default_schedule o zero e h = absurd (omega arith)
default_schedule o (suc zero) e h = rw e
default_schedule o (suc (suc zero)) e h = rw e
default_schedule o (suc (suc (suc k))) e h =
    let third : min (suc (suc (suc k)) - 1) 2 ≡ 2 = omega arith in rw (e, third) (ground arith)
