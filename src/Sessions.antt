-- ===== src/Sessions.antt =====
-- internal/server/auth.go: the single user's session cookie, the password check, and the limit on
-- password guesses. Times are nanoseconds since 1970; a time before 1970 does not occur. HMAC-SHA256,
-- base64 and bcrypt are parameters.
pub mod Cookies
pub mod Guesses
mod Examples
use speakertrail.Common.{
  ℕ, zero, suc, ◌+◌, ◌-◌, ◌*◌, ◌/◌, ◌%◌, ◌^◌, Bool, true, false, not, ◌&&◌, ◌||◌, Option, none,
  some, List, [], ◌∷◌, ◌++◌, Text, bytes, text_eq, is_empty, trim_space, length, take, keep_if, ltb,
  leb, ◌==◌, if◌then◌else◌,
}
use speakertrail.Fetch.Robots.{split_at}

abbrev pub second : ℕ
second = 1000000000

-- sessionTTL
abbrev pub session_ttl : ℕ
session_ttl = 30 * 24 * 3600 * second

-- loginAttempts
abbrev pub login_attempts : ℕ
login_attempts = 5

-- loginWindow
abbrev pub login_window : ℕ
login_window = 60 * second

-- passwordMaxLen
abbrev pub password_max_len : ℕ
password_max_len = 200

-- What the server takes from crypto/hmac, encoding/base64 and bcrypt.
pub record Crypto : Type 0 where
  -- hmac.New(sha256.New, secret), written to and summed.
  pub hmac : Text → Text → Text
  -- base64.RawURLEncoding
  pub encode : Text → Text
  pub decode : Text → Option Text
  -- bcrypt.CompareHashAndPassword(hash, password) == nil
  pub matches : Text → Text → Bool

pub record Sessions : Type 0 where
  pub secret : Text
  pub hash : Text
  -- The map `attempts`: the guesses of each address that are remembered.
  pub attempts : Text → List ℕ

-- enabled
unfoldable pub enabled : Sessions → Bool
enabled s = leb 16 (length s.secret) && not (is_empty s.hash)

-- binary.BigEndian.PutUint64: the number in the given count of bytes, the first one the highest.
unfoldable pub big_endian : ℕ → ℕ → Text
big_endian zero n = []
big_endian (suc k) n = big_endian k (n / 256) ++ n % 256 ∷ []

-- binary.BigEndian.Uint64, from an accumulator on.
unfoldable pub from_big_endian : ℕ → Text → ℕ
from_big_endian n [] = n
from_big_endian n (b ∷ bs) = from_big_endian (n * 256 + b) bs

abbrev pub drop : ℕ → Text → Text
drop zero s = s
drop (suc n) [] = []
drop (suc n) (c ∷ s) = drop n s

-- sign, of a time in whole seconds
unfoldable pub sign : Crypto → Sessions → ℕ → Text
unfolding big_endian
sign c s expiry = let buf = big_endian 8 (expiry / second) in c.encode (buf ++ c.hmac s.secret buf)

-- What `valid` does with the decoded cookie. Seconds from 2^63 on are negative as an int64: past.
unfoldable pub valid_raw : Crypto → Sessions → ℕ → Text → Bool
unfolding from_big_endian
valid_raw c s now raw =
    if not (length raw == 8 + 32)
    then false
    else if not (text_eq (c.hmac s.secret (take 8 raw)) (drop 8 raw))
    then false
    else let seconds = from_big_endian 0 (take 8 raw) in
      if leb (2 ^ 63) seconds then false else ltb now (seconds * second)

-- valid
unfoldable pub valid : Crypto → Sessions → ℕ → Text → Bool
unfolding enabled valid_raw
valid c s now value =
    if not (enabled s)
    then false
    else elim (c.decode value) [ none ↦ false | some raw ↦ valid_raw c s now raw ]

-- loggedIn, of the value of the request's cookie, if it has one.
unfoldable pub logged_in : Crypto → Sessions → ℕ → Option Text → Bool
unfolding valid
logged_in c s now none = false
logged_in c s now (some value) = valid c s now value

-- What the handlers read of a request: the header X-Forwarded-For, empty if missing, the address of
-- the connection, and its host as net.SplitHostPort gives it.
pub record Request : Type 0 where
  pub forwarded_for : Text
  pub remote_addr : Text
  pub remote_host : Option Text

abbrev last_of : Text → List Text → Text
last_of d [] = d
last_of d (p ∷ ps) = last_of p ps

-- clientIP
unfoldable pub client_ip : Request → Text
unfolding split_at trim_space
client_ip r =
    if not (is_empty r.forwarded_for)
    then trim_space (last_of [] (split_at b',' r.forwarded_for))
    else elim r.remote_host [ none ↦ r.remote_addr | some host ↦ host ]

-- now.Sub(t) < loginWindow
abbrev pub is_recent : ℕ → ℕ → Bool
is_recent now t = ltb (now - t) login_window

abbrev pub set_attempts : Text → List ℕ → (Text → List ℕ) → Text → List ℕ
set_attempts ip ts m other = if text_eq other ip then ts else m other

-- allowAttempt, for one address
unfoldable pub allow_at : Text → ℕ → Sessions → Sessions × Bool
allow_at ip now s =
    let recent = keep_if (is_recent now) (s.attempts ip) in
    if leb login_attempts (length recent)
    then (record s { attempts = set_attempts ip recent s.attempts }, false)
    else (record s { attempts = set_attempts ip (recent ++ now ∷ []) s.attempts }, true)

unfoldable pub allow_attempt : Request → ℕ → Sessions → Sessions × Bool
unfolding allow_at client_ip
allow_attempt r now s = allow_at (client_ip r) now s

-- checkPassword
unfoldable pub check_password : Crypto → Sessions → Text → Bool
unfolding enabled
check_password c s pw =
    if not (enabled s) || length pw == 0 || ltb password_max_len (length pw)
    then false
    else c.matches s.hash pw

-- The cookie that setCookie gives, and when it expires.
unfoldable pub session_cookie : Crypto → Sessions → ℕ → Text × ℕ
unfolding sign
session_cookie c s now = (sign c s (now + session_ttl), now + session_ttl)
