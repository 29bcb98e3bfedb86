-- ===== src/Resolve/Titles.antt =====
-- internal/pipeline/resolve.go: how titles and names of organisations are folded and compared. A text is
-- the list of its code points. The tables of package unicode beyond ASCII are a parameter.
pub mod Same
use speakertrail.Common.{
  ℕ, ◌+◌, ◌<◌, ◌≤◌, Bool, true, false, ◌&&◌, ◌||◌, List, [], ◌∷◌, Text, bytes, text_eq, contains,
  is_empty, lower_byte, trim_suffix, trim_space, ltb, leb, ◌==◌, if◌then◌else◌,
}
use mathlib.Core.List.{reverse}

-- What package unicode says of a code point from 128 up.
pub record Unicode : Type 0 where
  pub is_alnum : ℕ → Bool
  pub lower : ℕ → ℕ

-- [\p{L}\p{N}]
unfoldable pub alnum : Unicode → ℕ → Bool
alnum u c =
    if ltb c 128
    then (leb b'0' c && leb c b'9') || (leb b'a' c && leb c b'z') || (leb b'A' c && leb c b'Z')
    else u.is_alnum c

-- strings.ToLower
unfoldable pub lower_rune : Unicode → ℕ → ℕ
unfolding lower_byte
lower_rune u c = if ltb c 128 then lower_byte c else u.lower c

unfoldable pub lower : Unicode → Text → Text
unfolding lower_rune
lower u [] = []
lower u (c ∷ cs) = lower_rune u c ∷ lower u cs

-- nonAlnum.ReplaceAllString(t, " "): the flag says that the run that goes on has its blank.
unfoldable pub blank_runs : Unicode → Bool → Text → Text
unfolding alnum
blank_runs u inside [] = []
blank_runs u inside (c ∷ cs) =
    let word = blank_runs u false cs in
    let gap = blank_runs u true cs in
    if alnum u c then c ∷ word else if inside then gap else 32 ∷ gap

-- strings.Trim(t, " ")
unfoldable pub drop_blanks : Text → Text
drop_blanks [] = []
drop_blanks (c ∷ cs) = let rest = drop_blanks cs in if c == 32 then rest else c ∷ cs

unfoldable pub trim_blanks : Text → Text
unfolding drop_blanks
trim_blanks t = reverse (drop_blanks (reverse (drop_blanks t)))

-- NormaliseTitle
unfoldable pub normalise_title : Unicode → Text → Text
unfolding lower blank_runs trim_blanks
normalise_title u t = trim_blanks (blank_runs u false (lower u t))

-- len(t): the bytes of a text in UTF-8.
unfoldable pub rune_size : ℕ → ℕ
rune_size c = if ltb c 128 then 1 else if ltb c 2048 then 2 else if ltb c 65536 then 3 else 4

unfoldable pub byte_length : Text → ℕ
unfolding rune_size
byte_length [] = 0
byte_length (c ∷ cs) = rune_size c + byte_length cs

-- sameTitle, with the shorter of the two titles first.
unfoldable pub is_part : Text → Text → Bool
unfolding byte_length contains
is_part a b = leb 12 (byte_length a) && contains a b

unfoldable pub same_title : Text → Text → Bool
unfolding is_part text_eq
same_title a b =
    if text_eq a b
    then true
    else if ltb (byte_length b) (byte_length a)
    then is_part b a
    else is_part a b

abbrev pub org_suffixes : List Text
org_suffixes =
    bytes " gmbh"
    ∷ bytes " ug"
    ∷ bytes " ag"
    ∷ bytes " e v"
    ∷ bytes " ev"
    ∷ bytes " kg"
    ∷ bytes " inc"
    ∷ bytes " ltd"
    ∷ bytes " haftungsbeschrankt"
    ∷ bytes " gbr"
    ∷ []

unfoldable pub cut_suffixes : List Text → Text → Text
unfolding trim_suffix
cut_suffixes [] n = n
cut_suffixes (s ∷ ss) n = cut_suffixes ss (trim_suffix s n)

-- NormaliseOrg
unfoldable pub normalise_org : Unicode → Text → Text
unfolding normalise_title cut_suffixes trim_space
normalise_org u name = trim_space (cut_suffixes org_suffixes (normalise_title u name))
