-- ===== src/Resolve/Typed/Values.antt =====
-- internal/pipeline/resolve.go and internal/extract/people.go: what the resolver computes for the columns
-- that are enumerations is one of their values, and so every check leaves the enumerations kept.
use speakertrail.Common.{
  ◌≡◌, refl, Bool, true, false, ◌||◌, ◌&&◌, not, Option, none, some, Text, bytes, inl, inr,
  Bool-cases, Option-cases, is_empty, text_eq, if◌then◌else◌, has_suffix, contains, trim_space,
  trim_prefix, trim_suffix, to_lower,
}
use speakertrail.Urls.{Url, Parser}
use speakertrail.Resolve.Titles.{Unicode, lower}
use speakertrail.Resolve.Names.{
  Patterns, is_one_of, roles, normalise_role, role_of, bare, split_or, parse_affiliation,
  platform_of, cleaned, cleaned_as, profile_at, profile_of,
}
use speakertrail.Resolve.Orgs.{kind_for_url}
use speakertrail.Resolve.Typed.{IsOneOf, org_kinds, affiliation_roles, platforms}

pub kind_for_url-IsOneOf : (u : Text) → IsOneOf org_kinds (kind_for_url u)
unfolding kind_for_url is_one_of text_eq
kind_for_url-IsOneOf u = elim (Bool-cases (contains (bytes "meetup.com/") u)) [
  | inl e ↦ rw e refl
  | inr e ↦ elim (Bool-cases (contains (bytes "luma.com/") u || contains (bytes "lu.ma/") u)) [
    | inl k ↦ rw (e, k) refl
    | inr k ↦ rw (e, k) refl
  ]
]

pub normalise_role-IsOneOf :
    (u : Unicode) (p : Patterns) (role : Text)
    → ((label mapped : Text) → p.role_for label ≡ some mapped → IsOneOf roles mapped)
    → IsOneOf roles (normalise_role u p role)
unfolding normalise_role
normalise_role-IsOneOf u p role h =
    let r = lower u (trim_space role) in
    elim (Bool-cases (is_one_of r roles)) [
      | inl e ↦ rw e e
      | inr e ↦ elim (Bool-cases (is_empty r)) [
        | inl k ↦ rw (e, k) speaker
        | inr k ↦ elim (Option-cases (p.role_for r)) [
          | inl n ↦ rw (e, k, n) speaker
          | inr (m, n) ↦ rw (e, k, n) (h r m n)
        ]
      ]
    ]
  where
    speaker : IsOneOf roles (bytes "speaker")
    speaker = unfold is_one_of text_eq in refl

-- No organisation, or a role of the enumeration.
abbrev pub IsPart : Text × Text → Type 0
IsPart aff = is_empty aff.0 ≡ false → IsOneOf affiliation_roles aff.1

role_of-IsOneOf : (p : Patterns) (part : Text) → IsOneOf affiliation_roles (role_of p part)
unfolding role_of is_one_of text_eq
role_of-IsOneOf p part = elim (Bool-cases (p.founderish part)) [
  | inl e ↦ rw e refl
  | inr e ↦ rw e refl
]

bare-IsPart : (p : Patterns) (aff : Text) → IsPart (bare p aff)
unfolding bare is_one_of text_eq
bare-IsPart p aff = elim (Bool-cases (p.roleish aff && not (p.org_like aff))) [
  | inl e ↦ rw e (λ h. absurd (cc))
  | inr e ↦ rw e (λ h. refl)
]

split_or-IsPart :
    (p : Patterns) (o : Option (Text × Text)) (other : Text × Text)
    → IsPart other
    → IsPart (split_or p o other)
unfolding split_or
split_or-IsPart p none other h = h
split_or-IsPart p (some (before, after)) other h = elim (Bool-cases (p.roleish before)) [
  | inl e ↦ rw e (λ k. role_of-IsOneOf p before)
  | inr e ↦ rw e h
]

pub parse_affiliation-IsPart : (p : Patterns) (aff : Text) → IsPart (parse_affiliation p aff)
unfolding parse_affiliation
parse_affiliation-IsPart p aff = elim (Bool-cases (is_empty (trim_space aff))) [
  | inl e ↦ rw e (λ h. absurd (cc))
  | inr e ↦ rw e (split_or-IsPart p _ _ (split_or-IsPart p _ _ (bare-IsPart p (trim_space aff))))
]

-- No platform, or one of the enumeration.
abbrev holds_of : Option (Text × Text) → Bool
holds_of none = true
holds_of (some pair) = is_one_of pair.0 platforms

either-holds_of :
    (b : Bool) (x y : Option (Text × Text))
    → holds_of x ≡ true
    → holds_of y ≡ true
    → holds_of (if b then x else y) ≡ true
either-holds_of true x y h k = h
either-holds_of false x y h k = k

platform_of-holds_of : (host : Text) → holds_of (platform_of host) ≡ true
unfolding platform_of is_one_of text_eq
platform_of-holds_of host =
    let is = λ (t : Text). text_eq host t in
    either-holds_of (is (bytes "linkedin.com") || has_suffix (bytes ".linkedin.com") host) _ _ refl
      (either-holds_of (is (bytes "instagram.com")) _ _ refl (
        either-holds_of (is (bytes "youtube.com") || is (bytes "youtu.be")) _ _ refl (
          either-holds_of (is (bytes "tiktok.com")) _ _ refl (
            either-holds_of (is (bytes "x.com") || is (bytes "twitter.com")) _ _ refl (
              either-holds_of (is (bytes "luma.com") || is (bytes "lu.ma")) _ _ refl
                (either-holds_of (is (bytes "meetup.com")) _ none refl refl))))))

-- No link, or a platform of the enumeration.
abbrev pub IsLink : Text × Text → Type 0
IsLink link = is_empty link.1 ≡ false → IsOneOf platforms link.0

cleaned_as-IsLink :
    (p : Patterns) (u : Url) (path : Text) (o : Option (Text × Text))
    → holds_of o ≡ true
    → IsLink (cleaned_as p u path o)
unfolding cleaned_as is_one_of text_eq
cleaned_as-IsLink p u path none h k = refl
cleaned_as-IsLink p u path (some (platform, root)) h k = h

cleaned-IsLink : (p : Patterns) (u : Url) → IsLink (cleaned p u)
unfolding cleaned
cleaned-IsLink p u =
    let host = trim_prefix (bytes "www.") (to_lower u.hostname) in
    cleaned_as-IsLink p u (trim_suffix (bytes "/") u.path) (platform_of host)
      (platform_of-holds_of host)

profile_at-IsLink : (p : Patterns) (o : Option Url) → IsLink (profile_at p o)
unfolding profile_at
profile_at-IsLink p none = λ h. absurd (cc)
profile_at-IsLink p (some u) =
    elim (Bool-cases (
      (not (text_eq u.scheme (bytes "http")) && not (text_eq u.scheme (bytes "https")))
      || is_empty u.host)) [ inl k ↦ rw k (λ h. absurd (cc)) | inr k ↦ rw k (cleaned-IsLink p u) ]

pub profile_of-IsLink :
    (parse : Parser) (p : Patterns) (raw : Text) → IsLink (profile_of parse p raw)
unfolding profile_of
profile_of-IsLink parse p raw = profile_at-IsLink p (parse (trim_space raw))
