-- ===== src/Sessions/Cookies.antt =====
-- Session cookies: one that was signed is valid until it expires, and only one with the right HMAC is.
use speakertrail.Common.{
  ℕ, zero, suc, ◌+◌, ◌*◌, ◌/◌, ◌%◌, ◌^◌, ◌≤◌, ◌<◌, ◌≡◌, refl, sym, ap, inl, inr, true, false, ◌&&◌,
  Option, none, some, [], ◌∷◌, ◌++◌, Text, text_eq, text_eq_iff, text_eq_refl, length,
  length-append, take, ltb, leb, ◌==◌, arith, Bool-cases,
}
use speakertrail.Sessions.{
  Crypto, Sessions, enabled, big_endian, from_big_endian, drop, sign, valid_raw, valid, second,
}

length-big_endian : (k n : ℕ) → length (big_endian k n) ≡ k
unfolding big_endian
length-big_endian zero n = refl
length-big_endian (suc k) n =
    omega
      (arith, length-append (big_endian k (n / 256)) (n % 256 ∷ []), length-big_endian k (n / 256))

from_big_endian-append :
    (a : ℕ) (s : Text) (b : ℕ) → from_big_endian a (s ++ b ∷ []) ≡ from_big_endian a s * 256 + b
unfolding from_big_endian
from_big_endian-append a [] b = refl
from_big_endian-append a (c ∷ s) b = from_big_endian-append (a * 256 + c) s b

-- Reading the bytes of a number that fits gives the number back.
from_big_endian-big_endian : (k n : ℕ) → n < 256 ^ k → from_big_endian 0 (big_endian k n) ≡ n
unfolding big_endian from_big_endian
from_big_endian-big_endian zero n h = omega arith
from_big_endian-big_endian (suc k) n h = omega (
  arith,
  from_big_endian-append 0 (big_endian k (n / 256)) (n % 256),
  from_big_endian-big_endian k (n / 256) (omega arith),
)

take-append : (xs ys : Text) → take (length xs) (xs ++ ys) ≡ xs
take-append [] ys = refl
take-append (x ∷ xs) ys = ap (λ u. x ∷ u) (take-append xs ys)

drop-append : (xs ys : Text) → drop (length xs) (xs ++ ys) ≡ ys
drop-append [] ys = refl
drop-append (x ∷ xs) ys = drop-append xs ys

take-drop : (n : ℕ) (xs : Text) → take n xs ++ drop n xs ≡ xs
take-drop zero xs = refl
take-drop (suc n) [] = refl
take-drop (suc n) (x ∷ xs) = ap (λ u. x ∷ u) (take-drop n xs)

-- What crypto/hmac and encoding/base64 promise: a SHA-256 sum has 32 bytes, and what was encoded is
-- decoded again.
abbrev pub SumsTo32 : Crypto → Type 0
SumsTo32 c = (key text : Text) → length (c.hmac key text) ≡ 32

abbrev pub Decodes : Crypto → Type 0
Decodes c = (raw : Text) → c.decode (c.encode raw) ≡ some raw

module _ (c : Crypto) (s : Sessions) where
  signed_raw : ℕ → Text
  signed_raw expiry =
      big_endian 8 (expiry / second) ++ c.hmac s.secret (big_endian 8 (expiry / second))

  valid_raw-signed :
      (now expiry : ℕ)
      → SumsTo32 c
      → expiry / second < 2 ^ 63
      → valid_raw c s now (signed_raw expiry) ≡ ltb now (expiry / second * second)
  unfolding valid_raw signed_raw
  valid_raw-signed now expiry sums fits =
      let buf = big_endian 8 (expiry / second) in
      let len : length buf ≡ 8 = length-big_endian 8 (expiry / second) in
      let all : length (buf ++ c.hmac s.secret buf) ≡ 40 =
        omega (arith, length-append buf (c.hmac s.secret buf), sums s.secret buf) in
      let front : take 8 (buf ++ c.hmac s.secret buf) ≡ buf =
        rw len at (take-append buf (c.hmac s.secret buf)) in
      let back : drop 8 (buf ++ c.hmac s.secret buf) ≡ c.hmac s.secret buf =
        rw len at (drop-append buf (c.hmac s.secret buf)) in
      let value : from_big_endian 0 buf ≡ expiry / second =
        from_big_endian-big_endian 8 (expiry / second) (omega arith) in
      let small : leb (2 ^ 63) (expiry / second) ≡ false = ground arith in
      rw (valid_raw, signed_raw, all, front, back, text_eq_refl, value, small) refl

-- A cookie that was signed is valid exactly before the whole second in which it expires, if logging
-- in is enabled at all, whatever the secret is. The sums have 32 bytes, what is encoded is decoded again,
-- and the second of the expiry is below 2^63.
pub valid-sign :
    (c : Crypto) (s : Sessions) (now expiry : ℕ)
    → SumsTo32 c
    → Decodes c
    → expiry / second < 2 ^ 63
    → valid c s now (sign c s expiry) ≡ (enabled s && ltb now (expiry / second * second))
unfolding valid sign signed_raw
valid-sign c s now expiry sums decodes fits = elim (Bool-cases (enabled s)) [
  | inl e ↦ rw (valid, sign, e, decodes, signed_raw) (valid_raw-signed c s now expiry sums fits)
  | inr e ↦ rw (valid, e) refl
]

pub length-take : (n : ℕ) (xs : Text) → n ≤ length xs → length (take n xs) ≡ n
length-take zero xs h = refl
length-take (suc n) [] h = absurd (omega arith)
length-take (suc n) (x ∷ xs) h = omega (arith, length-take n xs (omega arith))

valid_raw-true :
    (c : Crypto) (s : Sessions) (now : ℕ) (raw : Text)
    → valid_raw c s now raw ≡ true
    → (length raw ≡ 40)
      × (c.hmac s.secret (take 8 raw) ≡ drop 8 raw)
      × (now < from_big_endian 0 (take 8 raw) * second)
unfolding valid_raw
valid_raw-true c s now raw h = elim (Bool-cases (length raw == 40)) [
  | inr e ↦ absurd (ground arith)
  | inl e ↦ elim (Bool-cases (text_eq (c.hmac s.secret (take 8 raw)) (drop 8 raw))) [
    | inr f ↦ absurd (ground arith)
    | inl f ↦ elim (Bool-cases (leb (2 ^ 63) (from_big_endian 0 (take 8 raw)))) [
      | inl g ↦ absurd (ground arith)
      | inr g ↦ (
        ground arith,
        (text_eq_iff (c.hmac s.secret (take 8 raw)) (drop 8 raw)).0 f,
        ground arith,
      )
    ]
  ]
]

-- What a valid cookie holds: a time that has not come, in eight bytes, and its HMAC.
abbrev pub IsSigned : Crypto → Sessions → ℕ → Text → Type 0
IsSigned c s now raw =
    (buf : Text) × (length buf ≡ 8)
    × (raw ≡ buf ++ c.hmac s.secret buf)
    × (now < from_big_endian 0 buf * second)

-- A cookie is valid only if logging in is enabled and it decodes to a time that has not come, with
-- the HMAC of that time under the secret behind it.
pub valid-IsSigned :
    (c : Crypto) (s : Sessions) (now : ℕ) (value : Text)
    → valid c s now value ≡ true
    → (enabled s ≡ true) × ((raw : Text) × (c.decode value ≡ some raw) × IsSigned c s now raw)
unfolding valid
valid-IsSigned c s now value h = elim (Bool-cases (enabled s)) [
  | inr e ↦ absurd (ground arith)
  | inl e ↦ (e, found (c.decode value) refl (rw (valid, e) at h))
]
  where
    found :
        (o : Option Text)
        → c.decode value ≡ o
        → elim o [ none ↦ false | some raw ↦ valid_raw c s now raw ] ≡ true
        → (raw : Text) × (c.decode value ≡ some raw) × IsSigned c s now raw
    found none d h = absurd (ground arith)
    found (some raw) d h =
        let (len, mac, late) = valid_raw-true c s now raw h in
        (
          raw,
          d,
          (take 8 raw, length-take 8 raw (omega arith), rw mac (sym (take-drop 8 raw)), late),
        )
