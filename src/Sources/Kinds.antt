-- ===== src/Sources/Kinds.antt =====
-- internal/pipeline/lifecycle.go: SourceKindFor and NameFromURL, which guess a source's kind and name
-- from its address.
use speakertrail.Common.{
  ◌||◌, none, some, [], ◌∷◌, ◌++◌, Text, bytes, text_eq, is_empty, to_lower, contains, has_prefix,
  has_suffix, trim_prefix, ◌==◌, if◌then◌else◌,
}
use mathlib.Core.List.{reverse}
use speakertrail.Urls.{Url, Parser}

-- The columns `kind` that SourceKindFor gives.
pub data Kind : Type 0 where
  listing calendar_ical calendar_luma calendar_meetup calendar_eventbrite : Kind

kind_of : Text → Url → Kind
kind_of host u =
    if has_suffix (bytes "lu.ma") host || has_suffix (bytes "luma.com") host
    then if contains (bytes "/ics/") u.path then calendar_ical else calendar_luma
    else if text_eq host (bytes "meetup.com")
    then calendar_meetup
    else if has_prefix (bytes "eventbrite.") host
    then calendar_eventbrite
    else if has_suffix (bytes ".ics") u.path || contains (bytes "ical") u.raw_query
    then calendar_ical
    else listing

-- SourceKindFor
unfoldable pub source_kind_for : Parser → Text → Kind
unfolding kind_of to_lower trim_prefix
source_kind_for parse raw = elim (parse raw) [
  | none ↦ listing
  | some u ↦ kind_of (trim_prefix (bytes "www.") (to_lower u.hostname)) u
]

trim_slashes_left : Text → Text
trim_slashes_left [] = []
trim_slashes_left (c ∷ s) = let rest = trim_slashes_left s in if c == b'/' then rest else c ∷ s

-- strings.Trim(s, "/")
unfoldable pub trim_slashes : Text → Text
unfolding trim_slashes_left
trim_slashes s = reverse (trim_slashes_left (reverse (trim_slashes_left s)))

name_of : Url → Text
unfolding trim_slashes
name_of u =
    let host = trim_prefix (bytes "www.") u.hostname in
    let path = trim_slashes u.path in
    if is_empty path || contains (bytes "/ics/") u.path then host else host ++ (bytes "/" ++ path)

-- NameFromURL
unfoldable pub name_from_url : Parser → Text → Text
unfolding name_of
name_from_url parse raw = elim (parse raw) [ none ↦ raw | some u ↦ name_of u ]
