-- ===== src/Fetch/Guard.antt =====
-- internal/fetch/guard.go: the sites that are never requested.
use mathlib.Core.List.{Memᴰ}
use mathlib.Core.List.Memᴰ
use speakertrail.Common.{
  ◌≡◌, refl, ◌↔◌, ◌⊎◌, inl, inr, Bool, true, false, ◌||◌, not, Option, none, some, List, [], ◌∷◌,
  ◌++◌, Text, bytes, text_eq, text_eq_iff, to_lower, has_suffix, trim_suffix, if◌then◌else◌, arith,
  Bool-cases,
}
use speakertrail.Common.Affixes.{has_suffix_iff}
use speakertrail.Urls.{Url, Parser}

abbrev pub blocked_domains : List Text
blocked_domains =
    bytes "linkedin.com"
    ∷ bytes "lnkd.in"
    ∷ bytes "licdn.com"
    ∷ bytes "instagram.com"
    ∷ bytes "instagr.am"
    ∷ bytes "cdninstagram.com"
    ∷ []

-- host == d || strings.HasSuffix(host, "."+d)
abbrev pub is_under : Text → Text → Bool
is_under host d = text_eq host d || has_suffix (bytes "." ++ d) host

-- The loop over the domains.
under_any : Text → List Text → Bool
under_any host [] = false
under_any host (d ∷ ds) = is_under host d || under_any host ds

-- IsBlockedHost
unfoldable pub is_blocked_host : Text → Bool
unfolding under_any to_lower trim_suffix
is_blocked_host host = under_any (trim_suffix (bytes ".") (to_lower host)) blocked_domains

pub data Refusal : Type 0 where
  bad_url bad_scheme blocked : Refusal

abbrev is_http : Text → Bool
is_http scheme = text_eq scheme (bytes "http") || text_eq scheme (bytes "https")

check_parsed : Option Url → Option Refusal
check_parsed none = some bad_url
check_parsed (some u) =
    if not (is_http u.scheme)
    then some bad_scheme
    else if is_blocked_host u.hostname
    then some blocked
    else none

-- CheckAllowed, with `none` for no error.
unfoldable pub check_allowed : Parser → Text → Option Refusal
unfolding check_parsed
check_allowed parse raw = check_parsed (parse raw)

-- A name is a domain, or a name under it: labels, a dot, and the domain.
abbrev pub IsUnder : Text → Text → Type 0
IsUnder host d = (host ≡ d) ⊎ ((labels : Text) × (host ≡ labels ++ (bytes "." ++ d)))

is_under_iff : (host d : Text) → (is_under host d ≡ true) ↔ IsUnder host d
is_under_iff host d = (
  λ h. elim (Bool-cases (text_eq host d)) [
    | inl e ↦ inl ((text_eq_iff host d).0 e)
    | inr e ↦ inr ((has_suffix_iff (bytes "." ++ d) host).0 (ground arith))
  ],
  elim [
    | inl e ↦ ground (arith, (text_eq_iff host d).1 e)
    | inr w ↦ ground (arith, (has_suffix_iff (bytes "." ++ d) host).1 w)
  ],
)

under_any_iff :
    (host : Text) (ds : List Text)
    → (under_any host ds ≡ true) ↔ ((d : Text) × Memᴰ d ds × IsUnder host d)
unfolding under_any
under_any_iff host [] = (λ h. cc, λ w. absurd (Memᴰ.not-nil w.1))
under_any_iff host (d ∷ ds) = (
  λ h. elim (Bool-cases (is_under host d)) [
    | inl e ↦ (d, Memᴰ.head refl, (is_under_iff host d).0 e)
    | inr e ↦ let (x, m, u) = (under_any_iff host ds).0 (ground arith) in (x, Memᴰ.tail m, u)
  ],
  λ w. elim (Memᴰ.cases_cons w.1) [
    | inl e ↦ ground (arith, (is_under_iff host d).1 (rw e at w.2))
    | inr m ↦ ground (arith, (under_any_iff host ds).1 (w.0, m, w.2))
  ],
)

-- A host is blocked exactly if its name in lower case, without a final dot, is a blocked domain or
-- a name under one.
pub is_blocked_host_iff :
    (host : Text)
    → (is_blocked_host host ≡ true)
      ↔ ((d : Text) × Memᴰ d blocked_domains × IsUnder (trim_suffix (bytes ".") (to_lower host)) d)
unfolding is_blocked_host
is_blocked_host_iff host = under_any_iff (trim_suffix (bytes ".") (to_lower host)) blocked_domains

-- An address is allowed exactly if it parses, is plain http or https, and its host is not blocked.
pub check_allowed_iff :
    (parse : Parser) (raw : Text)
    → (check_allowed parse raw ≡ none) ↔ (
        (u : Url) × (parse raw ≡ some u)
        × ((u.scheme ≡ bytes "http") ⊎ (u.scheme ≡ bytes "https"))
        × (is_blocked_host u.hostname ≡ false))
unfolding check_allowed
check_allowed_iff parse raw = go (parse raw)
  where
    go :
        (p : Option Url)
        → (check_parsed p ≡ none) ↔ (
            (u : Url) × (p ≡ some u)
            × ((u.scheme ≡ bytes "http") ⊎ (u.scheme ≡ bytes "https"))
            × (is_blocked_host u.hostname ≡ false))
    go none = (λ h. absurd (ground arith), λ w. absurd (ground arith))
    go (some u) = (
      λ h. (
        u,
        refl,
        ground (arith, text_eq_iff u.scheme (bytes "http"), text_eq_iff u.scheme (bytes "https")),
        ground arith,
      ),
      λ (v, e, s, b).
          ground (arith, text_eq_iff u.scheme (bytes "http"), text_eq_iff u.scheme (bytes "https")),
    )
