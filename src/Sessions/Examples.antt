-- ===== src/Sessions/Examples.antt =====
-- The theorems about sessions at concrete secrets and clocks, and tests of them.
use speakertrail.Common.{
  ℕ, ◌*◌, ◌/◌, ◌≡◌, refl, true, false, ◌&&◌, some, List, [], ◌∷◌, ◌++◌, Text, bytes, length-append,
  take, ltb, text_eq, arith, trim_space,
}
use speakertrail.Fetch.Robots.{split_at}
use speakertrail.Sessions.{
  Crypto, Sessions, enabled, big_endian, from_big_endian, sign, valid, valid_raw, second, client_ip,
  allow_attempt, allow_at,
}
use speakertrail.Sessions.Cookies.{SumsTo32, length-take, valid-sign, IsSigned, valid-IsSigned}
use speakertrail.Sessions.Guesses.{Attempt, let_through, IsLimited, let_through-IsLimited}

abbrev zeros : Text
zeros =
    0 ∷ 0 ∷ 0 ∷ 0 ∷ 0 ∷ 0 ∷ 0 ∷ 0 ∷ 0 ∷ 0 ∷ 0 ∷ 0 ∷ 0 ∷ 0 ∷ 0 ∷ 0 ∷ 0 ∷ 0 ∷ 0 ∷ 0 ∷ 0 ∷ 0 ∷ 0 ∷ 0
    ∷ 0 ∷ 0 ∷ 0 ∷ 0 ∷ 0 ∷ 0 ∷ 0 ∷ 0 ∷ []

-- A sum of 32 bytes that depends on the text and the key.
abbrev mixed : Text → Text → Text
mixed key text = take 32 ((text ++ key) ++ zeros)

abbrev plain : Crypto
plain = record {
  hmac = mixed;
  encode = λ raw. raw;
  decode = λ value. some value;
  matches = λ hash pw. text_eq hash pw;
}

plain-SumsTo32 : SumsTo32 plain
plain-SumsTo32 key text =
    length-take 32 ((text ++ key) ++ zeros) (omega (arith, length-append (text ++ key) zeros))

abbrev site : Sessions
site = record { secret = bytes "0123456789abcdef"; hash = bytes "letmein"; attempts = λ ip. [] }

valid-sign_example :
    valid plain site (5 * second) (sign plain site (40 * second))
    ≡ (enabled site && ltb (5 * second) (40 * second / second * second))
valid-sign_example =
    valid-sign plain site (5 * second) (40 * second) plain-SumsTo32 (λ raw. refl) (omega arith)

is_valid : valid plain site (5 * second) (sign plain site (40 * second)) ≡ true
unfolding valid valid_raw sign enabled big_endian from_big_endian text_eq
is_valid = refl

is_over : valid plain site (40 * second) (sign plain site (40 * second)) ≡ false
unfolding valid valid_raw sign enabled big_endian from_big_endian text_eq
is_over = refl

valid-IsSigned_example :
    let cookie = sign plain site (40 * second) in
    (enabled site ≡ true)
    × ((raw : Text) × (some cookie ≡ some raw) × IsSigned plain site (5 * second) raw)
valid-IsSigned_example =
    valid-IsSigned plain site (5 * second) (sign plain site (40 * second)) is_valid

abbrev from : Text → ℕ → Attempt
from ip t = record {
  request = record {
    forwarded_for = bytes "1.1.1.1, " ++ ip;
    remote_addr = bytes "10.0.0.1:80";
    remote_host = some (bytes "10.0.0.1");
  };
  now = t * second;
}

abbrev guesses : List Attempt
guesses =
    from (bytes "9.9.9.9") 1
    ∷ from (bytes "9.9.9.9") 2
    ∷ from (bytes "8.8.8.8") 3
    ∷ from (bytes "9.9.9.9") 4
    ∷ from (bytes "9.9.9.9") 5
    ∷ from (bytes "9.9.9.9") 6
    ∷ from (bytes "9.9.9.9") 7
    ∷ from (bytes "9.9.9.9") 61
    ∷ []

guesses_run :
    let_through (bytes "9.9.9.9") site guesses
    ≡ (1 * second) ∷ (2 * second) ∷ (4 * second) ∷ (5 * second) ∷ (6 * second) ∷ (61 * second) ∷ []
unfolding let_through allow_attempt allow_at client_ip split_at trim_space text_eq
guesses_run = refl

let_through-IsLimited_example : IsLimited (let_through (bytes "9.9.9.9") site guesses)
let_through-IsLimited_example = let_through-IsLimited (bytes "9.9.9.9") 0 site guesses refl (
  omega arith,
  (
    omega arith,
    (omega arith, (omega arith, (omega arith, (omega arith, (omega arith, (omega arith, tt)))))),
  ),
)
