-- ===== src/Rubric/Passages.antt =====
-- internal/rubric/rubric.go: the passage that shows a signal, and the sentences of a text. A text is
-- UTF-8; a character is a byte that continues no other.
use speakertrail.Common.{
  ℕ, zero, suc, ◌+◌, ◌-◌, min, max, Bool, true, not, ◌&&◌, ◌||◌, List, [], ◌∷◌, ◌++◌, Text,
  is_empty, is_space, trim_space, length, get_or, take, leb, ltb, ◌==◌, if◌then◌else◌,
}
use speakertrail.Sessions.{drop}
use speakertrail.Fetch.Robots.{split_at}

-- unicode.IsSpace of one byte
abbrev pub is_latin_space : ℕ → Bool
unfolding is_space
is_latin_space c = is_space c || c == 133 || c == 160

abbrev pub is_mark : ℕ → Bool
is_mark c = c == b'.' || c == b'!' || c == b'?'

abbrev pub is_end : ℕ → Bool
is_end c = is_mark c || c == 10

-- The loop for the start of the sentence, from k down.
unfoldable pub start_before : Text → ℕ → ℕ
unfolding is_latin_space
start_before s zero = 0
start_before s (suc k) =
    let rest = start_before s k in
    if is_end (get_or s k 0) && is_latin_space (get_or s (suc k) 0) then suc k else rest

-- The loop for its end, from k on for so many places.
unfoldable pub end_after : Text → ℕ → ℕ → ℕ
unfolding is_latin_space
end_after s zero k = length s
end_after s (suc n) k =
    let rest = end_after s n (suc k) in
    if is_end (get_or s k 0) && is_latin_space (get_or s (suc k) 0) then suc k else rest

-- len([]rune(s))
unfoldable pub rune_count : Text → ℕ
rune_count [] = 0
rune_count (c ∷ s) = let n = rune_count s in if leb 128 c && ltb c 192 then n else suc n

-- The loops that widen the cut to spaces.
unfoldable pub back_to_space : Text → ℕ → ℕ → ℕ
back_to_space s start zero = 0
back_to_space s start (suc k) =
    let rest = back_to_space s start k in
    if ltb start (suc k) && not (get_or s k 0 == 32) then rest else suc k

unfoldable pub on_to_space : Text → ℕ → ℕ → ℕ
on_to_space s zero k = k
on_to_space s (suc n) k =
    let rest = on_to_space s n (suc k) in if get_or s k 0 == 32 then k else rest

-- s[from:to]
abbrev pub slice : Text → ℕ → ℕ → Text
slice s from to = take (to - from) (drop from s)

-- maxPassage
abbrev pub max_passage : ℕ
max_passage = 160

abbrev pub ellipsis : Text
ellipsis = 226 ∷ 128 ∷ 166 ∷ []

abbrev cut_around : Text → ℕ → ℕ → ℕ → ℕ → Text
cut_around s start end from to =
    let cut = trim_space (slice s from to) in
    let opened = if ltb start from then ellipsis ++ cut else cut in
    if ltb to end then opened ++ ellipsis else opened

-- passage
unfoldable pub passage : Text → ℕ → ℕ → Text
unfolding start_before end_after rune_count back_to_space on_to_space trim_space
passage s i j =
    let start = start_before s (i - 1) in
    let end = end_after s (length s - 1 - j) j in
    let out = trim_space (slice s start end) in
    if leb (rune_count out) max_passage
    then out
    else let to = min (j + 70) end in
      cut_around s start end (back_to_space s start (max (i - 70) start))
        (on_to_space s (end - to) to)

abbrev starts_free : Text → Bool
starts_free [] = true
starts_free (c ∷ s) = c == 32

abbrev unless_empty : Text → List Text → List Text
unless_empty s rest = if is_empty s then rest else s ∷ rest

-- The loop over one line, with what was read since the last sentence ended.
unfoldable pub split_line : Text → Text → List Text
unfolding trim_space
split_line cur [] = unless_empty (trim_space cur) []
split_line cur (c ∷ s) =
    let ended = split_line [] s in
    let longer = split_line (cur ++ c ∷ []) s in
    if is_mark c && starts_free s then unless_empty (trim_space (cur ++ c ∷ [])) ended else longer

unfoldable pub split_lines : List Text → List Text
unfolding split_line
split_lines [] = []
split_lines (l ∷ ls) = split_line [] l ++ split_lines ls

-- sentences
unfoldable pub sentences : Text → List Text
unfolding split_lines split_at
sentences text = split_lines (split_at 10 text)
