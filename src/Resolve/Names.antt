-- ===== src/Resolve/Names.antt =====
-- internal/extract/people.go: NormaliseName and NormaliseRole, and internal/pipeline/resolve.go:
-- ParseAffiliation, firstOrg, ProfileOf and handleOf. What a regular expression finds, what html and
-- golang.org/x/text make of a text, and how net/url prints an address are parameters.
use speakertrail.Common.{
  ℕ, Bool, false, not, ◌&&◌, ◌||◌, Option, none, some, List, [], ◌∷◌, ◌++◌, Text, bytes, text_eq,
  is_empty, to_lower, trim_prefix, trim_suffix, trim_space, has_suffix, is_space, leb, ltb, ◌==◌,
  if◌then◌else◌,
}
use mathlib.Core.List.{reverse}
use speakertrail.Urls.{Url, Parser}
use speakertrail.Resolve.Titles.{Unicode, lower, byte_length}

pub record Patterns : Type 0 where
  pub founderish : Text → Bool
  pub roleish : Text → Bool
  pub org_like : Text → Bool
  -- affAt: the texts before and after the word.
  pub aff_at : Text → Option (Text × Text)
  -- roleFor
  pub role_for : Text → Option Text
  -- html.UnescapeString
  pub unescape : Text → Text
  -- NFD, the marks removed, NFC
  pub strip_marks : Text → Text
  -- unicode.IsLetter
  pub is_letter : ℕ → Bool
  -- (*url.URL).String
  pub print_url : Url → Text

-- strings.FieldsFunc: the runs without a separator.
unfoldable pub add_word : Text → List Text → List Text
add_word word words = if is_empty word then words else reverse word ∷ words

unfoldable pub fields_by : (ℕ → Bool) → Text → Text → List Text
unfolding add_word
fields_by sep word [] = add_word word []
fields_by sep word (c ∷ cs) =
    let cut = fields_by sep [] cs in
    let on = fields_by sep (c ∷ word) cs in if sep c then add_word word cut else on

-- strings.Join(words, " ")
unfoldable pub join : List Text → Text
join [] = []
join (w ∷ []) = w
join (w ∷ v ∷ ws) = w ++ 32 ∷ join (v ∷ ws)

-- unicode.IsSpace
unfoldable pub is_white : ℕ → Bool
unfolding is_space
is_white c =
    is_space c
    || (c == 0x85 || c == 0xA0)
    || (c == 0x1680 || (leb 0x2000 c && leb c 0x200A))
    || (c == 0x2028 || c == 0x2029)
    || (c == 0x202F || (c == 0x205F || c == 0x3000))

-- cleanText
unfoldable pub clean_text : Patterns → Text → Text
unfolding fields_by join is_white
clean_text p s = join (fields_by is_white [] (p.unescape s))

-- strings.NewReplacer("ß", "ss", "ä", "a", "ö", "o", "ü", "u")
unfoldable pub plain_letters : Text → Text
plain_letters [] = []
plain_letters (c ∷ cs) =
    let rest = plain_letters cs in
    if c == 0xDF
    then b's' ∷ b's' ∷ rest
    else if c == 0xE4
    then b'a' ∷ rest
    else if c == 0xF6
    then b'o' ∷ rest
    else if c == 0xFC
    then b'u' ∷ rest
    else c ∷ rest

abbrev pub name_titles : List Text
name_titles =
    bytes "dr"
    ∷ bytes "prof"
    ∷ bytes "med"
    ∷ bytes "phil"
    ∷ bytes "rer"
    ∷ bytes "nat"
    ∷ bytes "ing"
    ∷ bytes "dipl"
    ∷ bytes "mba"
    ∷ bytes "phd"
    ∷ bytes "mr"
    ∷ bytes "mrs"
    ∷ bytes "ms"
    ∷ bytes "frau"
    ∷ bytes "herr"
    ∷ []

unfoldable pub is_one_of : Text → List Text → Bool
unfolding text_eq
is_one_of t [] = false
is_one_of t (x ∷ xs) = text_eq t x || is_one_of t xs

unfoldable pub drop_titles : List Text → List Text
unfolding is_one_of
drop_titles [] = []
drop_titles (w ∷ ws) =
    let rest = drop_titles ws in if is_one_of w name_titles then rest else w ∷ rest

-- What splits the words of a name.
unfoldable pub splits_name : Patterns → ℕ → Bool
splits_name p c = not (p.is_letter c) && not (c == 45) && not (c == 39)

-- NormaliseName
unfoldable pub normalise_name : Unicode → Patterns → Text → Text
unfolding clean_text plain_letters drop_titles fields_by join splits_name lower
normalise_name u p name = join (
    drop_titles
      (fields_by (splits_name p) [] (p.strip_marks (plain_letters (lower u (clean_text p name))))))

abbrev pub roles : List Text
roles = bytes "speaker" ∷ bytes "panelist" ∷ bytes "pitch" ∷ bytes "host" ∷ bytes "moderator" ∷ []

-- NormaliseRole
unfoldable pub normalise_role : Unicode → Patterns → Text → Text
unfolding is_one_of trim_space lower
normalise_role u p role =
    let r = lower u (trim_space role) in
    if is_one_of r roles
    then r
    else if is_empty r
    then bytes "speaker"
    else elim (p.role_for r) [ some mapped ↦ mapped | none ↦ bytes "speaker" ]

unfoldable pub is_any : ℕ → List ℕ → Bool
is_any c [] = false
is_any c (d ∷ ds) = c == d || is_any c ds

-- s[:i] at the first of the given characters, or s.
unfoldable pub up_to_any : List ℕ → Text → Text
unfolding is_any
up_to_any stops [] = []
up_to_any stops (c ∷ cs) = let rest = up_to_any stops cs in if is_any c stops then [] else c ∷ rest

-- strings.Trim(s, cutset)
unfoldable pub drop_any : List ℕ → Text → Text
unfolding is_any
drop_any stops [] = []
drop_any stops (c ∷ cs) = let rest = drop_any stops cs in if is_any c stops then rest else c ∷ cs

unfoldable pub trim_any : List ℕ → Text → Text
unfolding drop_any
trim_any stops t = reverse (drop_any stops (reverse (drop_any stops t)))

-- firstOrg
unfoldable pub first_org : Text → Text
unfolding up_to_any trim_any trim_space byte_length
first_org s =
    let o = trim_space (trim_any (bytes ".()") (up_to_any (bytes ",;|") (trim_space s))) in
    if ltb (byte_length o) 2 || ltb 60 (byte_length o) then [] else o

-- roleOf
unfoldable pub role_of : Patterns → Text → Text
role_of p part = if p.founderish part then bytes "founder" else bytes "employee"

-- strings.Cut(s, ",")
unfoldable pub cut_comma : Text → Option (Text × Text)
cut_comma [] = none
cut_comma (c ∷ cs) =
    let rest : Option (Text × Text) = elim (cut_comma cs) [
      | none ↦ none
      | some (b, a) ↦ some (c ∷ b, a)
    ] in
    if c == b',' then some ([], cs) else rest

-- Only a role, or only an organisation's name.
unfoldable pub bare : Patterns → Text → Text × Text
unfolding first_org role_of
bare p aff =
    if p.roleish aff && not (p.org_like aff)
    then ([], role_of p aff)
    else (first_org aff, bytes "employee")

-- A role in front of an organisation, where the text has one, and otherwise the next way to read it.
unfoldable pub split_or : Patterns → Option (Text × Text) → Text × Text → Text × Text
unfolding first_org role_of
split_or p none other = other
split_or p (some (before, after)) other =
    if p.roleish before then (first_org after, role_of p before) else other

-- ParseAffiliation: the organisation and the role.
unfoldable pub parse_affiliation : Patterns → Text → Text × Text
unfolding trim_space cut_comma split_or bare
parse_affiliation p aff =
    let a = trim_space aff in
    if is_empty a then ([], []) else split_or p (cut_comma a) (split_or p (p.aff_at a) (bare p a))

-- The platform of a host, and the address in front of the path.
unfoldable pub platform_of : Text → Option (Text × Text)
unfolding text_eq has_suffix
platform_of host =
    if text_eq host (bytes "linkedin.com") || has_suffix (bytes ".linkedin.com") host
    then some (bytes "linkedin", bytes "https://www.linkedin.com")
    else if text_eq host (bytes "instagram.com")
    then some (bytes "instagram", bytes "https://www.instagram.com")
    else if text_eq host (bytes "youtube.com") || text_eq host (bytes "youtu.be")
    then some (bytes "youtube", bytes "https://www.youtube.com")
    else if text_eq host (bytes "tiktok.com")
    then some (bytes "tiktok", bytes "https://www.tiktok.com")
    else if text_eq host (bytes "x.com") || text_eq host (bytes "twitter.com")
    then some (bytes "x", bytes "https://x.com")
    else if text_eq host (bytes "luma.com") || text_eq host (bytes "lu.ma")
    then some (bytes "luma", bytes "https://luma.com")
    else if text_eq host (bytes "meetup.com")
    then some (bytes "meetup", bytes "https://www.meetup.com")
    else none

unfoldable pub cleaned_as : Patterns → Url → Text → Option (Text × Text) → Text × Text
unfolding to_lower
cleaned_as p u path (some (platform, root)) = (platform, root ++ path)
cleaned_as p u path none = (
  bytes "website",
  p.print_url (record u { raw_query = []; host = to_lower u.host; path = path }),
)

unfoldable pub cleaned : Patterns → Url → Text × Text
unfolding cleaned_as platform_of to_lower trim_prefix trim_suffix
cleaned p u =
    cleaned_as p u (trim_suffix (bytes "/") u.path)
      (platform_of (trim_prefix (bytes "www.") (to_lower u.hostname)))

unfoldable pub profile_at : Patterns → Option Url → Text × Text
unfolding cleaned text_eq
profile_at p none = ([], [])
profile_at p (some u) =
    if (not (text_eq u.scheme (bytes "http")) && not (text_eq u.scheme (bytes "https")))
      || is_empty u.host
    then ([], [])
    else cleaned p u

-- ProfileOf: the platform and the clean link, both empty where the link is none.
unfoldable pub profile_of : Parser → Patterns → Text → Text × Text
unfolding profile_at trim_space
profile_of parse p raw = profile_at p (parse (trim_space raw))

-- The last part of strings.Split(s, "/")
unfoldable pub last_part : Text → Text → Text
last_part part [] = reverse part
last_part part (c ∷ cs) = last_part (if c == b'/' then [] else c ∷ part) cs

-- handleOf
unfoldable pub handle_of : Parser → Text → Text
unfolding last_part trim_any
handle_of parse profile = elim (parse profile) [
  | none ↦ []
  | some u ↦ last_part [] (trim_any (bytes "/") u.path)
]
