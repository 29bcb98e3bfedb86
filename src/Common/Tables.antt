-- ===== src/Common/Tables.antt =====
-- Tables as lists of rows: what UPDATE, INSERT … ON CONFLICT DO NOTHING and SELECT … LIMIT 1 do to one.
use mathlib.Core.Path.{◌≡◌, refl, sym, ◌∙◌}
use mathlib.Core.Bool.{Bool, true, false, ◌||◌}
use mathlib.Core.Logic.{inl, inr}
use mathlib.Core.Option.{Option, none, some}
use mathlib.Core.Option
use mathlib.Core.List.{List, [], ◌∷◌, ◌++◌}
use native.Mathlib.Omega.{arith}
use speakertrail.Common.Tests.{if◌then◌else◌, Bool-cases}
use speakertrail.Common.Lists.{All, All-append, length}

module _ {ℓ} {A : Type ℓ} where
  -- SELECT EXISTS (… WHERE p)
  unfoldable pub any_where : (A → Bool) → List A → Bool
  any_where p [] = false
  any_where p (x ∷ xs) = p x || any_where p xs

-- A SELECT without ORDER BY gives the rows of a table in whatever order the database reads them.
pub record Order {ℓ} (A : Type ℓ) : Type ℓ where
  pub read : List A → List A
  pub same : (p : A → Bool) (xs : List A) → any_where p (read xs) ≡ any_where p xs

module _ {ℓ} {A : Type ℓ} where
  -- UPDATE … SET f WHERE p
  unfoldable pub set_where : (A → Bool) → (A → A) → List A → List A
  set_where p f [] = []
  set_where p f (x ∷ xs) = let rest = set_where p f xs in (if p x then f x else x) ∷ rest

  -- SELECT … WHERE p LIMIT 1
  unfoldable pub first_where : (A → Bool) → List A → Option A
  first_where p [] = none
  first_where p (x ∷ xs) = let rest = first_where p xs in if p x then some x else rest

  -- A second look, where the first one finds nothing.
  abbrev pub or_else : Option A → Option A → Option A
  or_else none b = b
  or_else (some a) b = some a

  -- INSERT … ON CONFLICT DO NOTHING, where `p` finds the row that conflicts.
  unfoldable pub add_unless : (A → Bool) → A → List A → List A
  unfolding any_where
  add_unless p x xs = if any_where p xs then xs else xs ++ x ∷ []

  pub length-set_where :
      (p : A → Bool) (f : A → A) (xs : List A) → length (set_where p f xs) ≡ length xs
  unfolding set_where
  length-set_where p f [] = refl
  length-set_where p f (x ∷ xs) = omega (arith, length-set_where p f xs)

  pub any_where-append :
      (p : A → Bool) (xs ys : List A) → any_where p (xs ++ ys) ≡ (any_where p xs || any_where p ys)
  unfolding any_where
  any_where-append p [] ys = refl
  any_where-append p (x ∷ xs) ys = ground (arith, any_where-append p xs ys)

  pub any_where-snoc :
      (p : A → Bool) (xs : List A) (x : A) → p x ≡ true → any_where p (xs ++ x ∷ []) ≡ true
  unfolding any_where
  any_where-snoc p [] x h = ground arith
  any_where-snoc p (y ∷ ys) x h = ground (arith, any_where-snoc p ys x h)

  pub any_where-weaken :
      (p q : A → Bool) (xs : List A)
      → ((x : A) → p x ≡ true → q x ≡ true)
      → any_where p xs ≡ true
      → any_where q xs ≡ true
  unfolding any_where
  any_where-weaken p q [] w h = h
  any_where-weaken p q (x ∷ xs) w h = ground (arith, w x, any_where-weaken p q xs w)

  -- After an INSERT that a conflict may stop, a row like it is there.
  pub any_where-add_unless :
      (p q : A → Bool) (x : A) (xs : List A)
      → q x ≡ true
      → ((y : A) → p y ≡ true → q y ≡ true)
      → any_where q (add_unless p x xs) ≡ true
  unfolding add_unless
  any_where-add_unless p q x xs h w = elim (Bool-cases (any_where p xs)) [
    | inl e ↦ rw e (any_where-weaken p q xs w e)
    | inr e ↦ rw e (any_where-snoc q xs x h)
  ]

  -- An UPDATE that leaves what `q` reads finds the same.
  pub any_where-set_where :
      (q p : A → Bool) (f : A → A) (xs : List A)
      → ((x : A) → q (f x) ≡ q x)
      → any_where q (set_where p f xs) ≡ any_where q xs
  unfolding any_where set_where
  any_where-set_where q p f [] k = refl
  any_where-set_where q p f (x ∷ xs) k = ground (arith, k x, any_where-set_where q p f xs k)

  -- The row that a query finds is one of the table.
  pub any_where-of_first :
      (p q : A → Bool) (xs : List A) (x : A)
      → first_where p xs ≡ some x
      → q x ≡ true
      → any_where q xs ≡ true
  unfolding any_where first_where
  any_where-of_first p q [] x h k = cc
  any_where-of_first p q (y ∷ ys) x h k = ground (arith, any_where-of_first p q ys x)

  pub first_where-any :
      (p : A → Bool) (xs : List A) → any_where p xs ≡ true → (x : A) × (first_where p xs ≡ some x)
  unfolding any_where first_where
  first_where-any p [] h = cc
  first_where-any p (y ∷ ys) h = elim (Bool-cases (p y)) [
    | inl e ↦ (y, rw e)
    | inr e ↦
        let h' : any_where p ys ≡ true = ground arith in
        let (x, k) = first_where-any p ys h' in (x, rw (e, k))
  ]

  pub first_where-holds :
      (p : A → Bool) (xs : List A) (x : A) → first_where p xs ≡ some x → p x ≡ true
  unfolding first_where
  first_where-holds p [] x h = cc
  first_where-holds p (y ∷ ys) x h = elim (Bool-cases (p y)) [
    | inl e ↦ let h' : y ≡ x = ground arith in rw (← h') e
    | inr e ↦ first_where-holds p ys x (ground arith)
  ]

  pub first_where-snoc :
      (p : A → Bool) (xs : List A) (x : A)
      → first_where p xs ≡ none
      → first_where p (xs ++ x ∷ []) ≡ (if p x then some x else none)
  unfolding first_where
  first_where-snoc p [] x h = refl
  first_where-snoc p (y ∷ ys) x h = ground (arith, first_where-snoc p ys x)

  -- The first row that fits is replaced by one that fits, and so perhaps are others.
  pub first_where-replaced :
      (p q : A → Bool) (xs : List A) (old new : A)
      → first_where p xs ≡ some old
      → q old ≡ true
      → p new ≡ true
      → first_where p (set_where q (λ _. new) xs) ≡ some new
  unfolding first_where set_where
  first_where-replaced p q [] old new h k n = cc
  first_where-replaced p q (y ∷ ys) old new h k n =
      ground (arith, first_where-replaced p q ys old new)

  -- Once the rows that fit are replaced by one that fits, that one is found.
  pub first_where-set_self :
      (p : A → Bool) (xs : List A) (new : A)
      → any_where p xs ≡ true
      → p new ≡ true
      → first_where p (set_where p (λ _. new) xs) ≡ some new
  unfolding first_where set_where any_where
  first_where-set_self p [] new k n = cc
  first_where-set_self p (y ∷ ys) new k n = ground (arith, first_where-set_self p ys new)

  -- No row fits, and neither does the new form of the rows that change.
  pub first_where-still_none :
      (p q : A → Bool) (xs : List A) (new : A)
      → first_where p xs ≡ none
      → p new ≡ false
      → first_where p (set_where q (λ _. new) xs) ≡ none
  unfolding first_where set_where
  first_where-still_none p q [] new h n = refl
  first_where-still_none p q (y ∷ ys) new h n = ground (arith, first_where-still_none p q ys new)

  -- No row fits; once those that `q` finds are replaced by one that fits, that one is found.
  pub first_where-now_some :
      (p q : A → Bool) (xs : List A) (new : A)
      → first_where p xs ≡ none
      → any_where q xs ≡ true
      → p new ≡ true
      → first_where p (set_where q (λ _. new) xs) ≡ some new
  unfolding first_where set_where any_where
  first_where-now_some p q [] new h k n = cc
  first_where-now_some p q (y ∷ ys) new h k n = ground (arith, first_where-now_some p q ys new)

  -- What is read of the first row that fits stays, where an UPDATE changes neither that nor what `p` reads.
  pub first_where-kept {κ} :
      {B : Type κ} (p q : A → Bool) (f : A → A) (g : A → B) (xs : List A)
      → ((x : A) → p (f x) ≡ p x)
      → ((x : A) → g (f x) ≡ g x)
      → Option.map g (first_where p (set_where q f xs)) ≡ Option.map g (first_where p xs)
  unfolding first_where set_where
  first_where-kept p q f g [] k l = refl
  first_where-kept p q f g (y ∷ ys) k l = ground (arith, k y, l y, first_where-kept p q f g ys k l)

module _ {ℓ} {A : Type ℓ} where
  pub first_where-none :
      (p : A → Bool) (xs : List A) → first_where p xs ≡ none → any_where p xs ≡ false
  unfolding first_where any_where
  first_where-none p [] h = refl
  first_where-none p (x ∷ xs) h = ground (arith, first_where-none p xs)

  -- Where a row that fits is put in place of others, one that fits is there, and where it is none of those
  -- that `q` finds, none is there if none was.
  pub any_where-put :
      (p q : A → Bool) (xs : List A) (new : A)
      → any_where p xs ≡ true
      → q new ≡ true
      → any_where q (set_where p (λ _. new) xs) ≡ true
  unfolding any_where set_where
  any_where-put p q [] new h k = cc
  any_where-put p q (x ∷ xs) new h k = ground (arith, any_where-put p q xs new)

  pub any_where-put_none :
      (p q : A → Bool) (xs : List A) (new : A)
      → any_where q xs ≡ false
      → q new ≡ false
      → any_where q (set_where p (λ _. new) xs) ≡ false
  unfolding any_where set_where
  any_where-put_none p q [] new h k = refl
  any_where-put_none p q (x ∷ xs) new h k = ground (arith, any_where-put_none p q xs new)

  -- The first row that is read, whatever the order, is one of the table.
  pub any_where-of_read :
      (order : Order A) (p q : A → Bool) (xs : List A) (x : A)
      → first_where p (order.read xs) ≡ some x
      → q x ≡ true
      → any_where q xs ≡ true
  any_where-of_read order p q xs x h k =
      sym (order.same q xs) ∙ any_where-of_first p q (order.read xs) x h k

pub map-or_else {ℓ κ} :
    {A : Type ℓ} {B : Type κ} (g : A → B) (a b : Option A)
    → Option.map g (or_else a b) ≡ or_else (Option.map g a) (Option.map g b)
map-or_else g none b = refl
map-or_else g (some a) b = refl

module _ {ℓ κ} {A : Type ℓ} (P : A → Type κ) where
  pub All-set_where :
      (p : A → Bool) (f : A → A) (xs : List A)
      → ((x : A) → P x → P (f x))
      → All P xs
      → All P (set_where p f xs)
  unfolding set_where
  All-set_where p f [] k h = tt
  All-set_where p f (x ∷ xs) k h = elim (Bool-cases (p x)) [
    | inl e ↦ rw e (k x h.0, All-set_where p f xs k h.1)
    | inr e ↦ rw e (h.0, All-set_where p f xs k h.1)
  ]

  pub All-snoc : (xs : List A) (x : A) → All P xs → P x → All P (xs ++ x ∷ [])
  All-snoc xs x h k = All-append P xs (x ∷ []) h (k, tt)

  pub All-add_unless :
      (p : A → Bool) (x : A) (xs : List A) → All P xs → P x → All P (add_unless p x xs)
  unfolding add_unless
  All-add_unless p x xs h k = elim (Bool-cases (any_where p xs)) [
    | inl e ↦ rw e h
    | inr e ↦ rw e (All-snoc xs x h k)
  ]
