-- ===== src/Fetch/Robots/Match.antt =====
-- What a path pattern of robots.txt matches: its parts, in order, with any text between them.
use speakertrail.Common.{
  ◌≡◌, ◌≢◌, ◌↔◌, refl, ap, ◌∙◌, inl, inr, Bool, true, false, List, [], ◌∷◌, ◌++◌, Text, is_empty,
  after_prefix, after_prefix-append, after_prefix_sound, All, ==_iff, arith, if◌then◌else◌,
  Bool-cases, Option-cases, bytes, has_suffix, trim_suffix,
}
use speakertrail.Fetch.Robots.{seek, match_parts, match_split, robots_match, split_at}

-- Text that `.*` matches.
abbrev pub IsOneLine : Text → Type 0
IsOneLine = All λ c. c ≢ 10

-- A text that has the part p at its start and, after any text of one line, the other parts; all of it
-- is used up if anchored.
abbrev pub Matches : Bool → Text → List Text → Text → Type 0
Matches anchored p [] s = (rest : Text) × (s ≡ p ++ rest) × (anchored ≡ true → rest ≡ [])
Matches anchored p (q ∷ ps) s =
    (skip : Text) × (tail : Text) × (s ≡ p ++ (skip ++ tail))
    × IsOneLine skip
    × Matches anchored q ps tail

seek_sound :
    (here : Text → Bool) (s : Text)
    → seek here s ≡ true
    → (skip : Text) × (tail : Text) × (s ≡ skip ++ tail) × IsOneLine skip × (here tail ≡ true)
unfolding seek
seek_sound here [] h = ([], [], refl, tt, h)
seek_sound here (c ∷ cs) h = elim (Bool-cases (here (c ∷ cs))) [
  | inl e ↦ ([], c ∷ cs, refl, tt, e)
  | inr e ↦
      let (skip, tail, e', one, k) = seek_sound here cs (ground arith) in
      (c ∷ skip, tail, ap (λ u. c ∷ u) e', (ground (arith, ==_iff c 10), one), k)
]

seek_here : (here : Text → Bool) (s : Text) → here s ≡ true → seek here s ≡ true
unfolding seek
seek_here here [] h = h
seek_here here (c ∷ cs) h = rw h

seek_complete :
    (here : Text → Bool) (skip tail : Text)
    → IsOneLine skip
    → here tail ≡ true
    → seek here (skip ++ tail) ≡ true
unfolding seek
seek_complete here [] tail o h = seek_here here tail h
seek_complete here (d ∷ skip) tail o h =
    ground (arith, o.0, ==_iff d 10, seek_complete here skip tail o.1 h)

match_parts_sound :
    (anchored : Bool) (p : Text) (ps : List Text) (s : Text)
    → match_parts anchored p ps s ≡ true
    → Matches anchored p ps s
unfolding match_parts
match_parts_sound anchored p [] s h = elim (Option-cases (after_prefix p s)) [
  | inl e ↦ absurd (ground arith)
  | inr (r, e) ↦ (r, after_prefix_sound p s r e, λ a. ends r (ground arith))
]
  where
    ends : (r : Text) → is_empty r ≡ true → r ≡ []
    ends [] h = refl
    ends (c ∷ r) h = cc
match_parts_sound anchored p (q ∷ ps) s h = elim (Option-cases (after_prefix p s)) [
  | inl e ↦ absurd (ground arith)
  | inr (r, e) ↦
      let (skip, tail, e', one, k) = seek_sound (match_parts anchored q ps) r (ground arith) in
      (
        skip,
        tail,
        after_prefix_sound p s r e ∙ ap (λ u. p ++ u) e',
        one,
        match_parts_sound anchored q ps tail k,
      )
]

match_parts_complete :
    (anchored : Bool) (p : Text) (ps : List Text) (s : Text)
    → Matches anchored p ps s
    → match_parts anchored p ps s ≡ true
unfolding match_parts
match_parts_complete anchored p [] s (rest, e, a) =
    rw (e, after_prefix-append p rest, match_parts) (ends anchored a)
  where
    ends : (b : Bool) → (b ≡ true → rest ≡ []) → (if b then is_empty rest else true) ≡ true
    ends true a = rw (a refl)
    ends false a = refl
match_parts_complete anchored p (q ∷ ps) s (skip, tail, e, one, m) =
    rw (e, after_prefix-append p (skip ++ tail), match_parts)
      (seek_complete (match_parts anchored q ps) skip tail one
        (match_parts_complete anchored q ps tail m))

-- The pattern as parts: without a final `$`, cut at each `*`.
abbrev pub MatchesAny : Bool → List Text → Text → Type 0
MatchesAny anchored [] s = ⊥
MatchesAny anchored (p ∷ ps) s = Matches anchored p ps s

-- A pattern matches a path exactly if the path has the pattern's parts, which its stars separate,
-- in order, the first one at its start, with text of one line between them, and with nothing behind
-- the last one if the pattern ends with `$`.
pub robots_match_iff :
    (pattern path : Text)
    → (robots_match pattern path ≡ true)
      ↔ MatchesAny
          (has_suffix (bytes "$") pattern)
          (split_at b'*' (trim_suffix (bytes "$") pattern))
          path
unfolding robots_match
robots_match_iff pattern path =
    go (has_suffix (bytes "$") pattern) (split_at b'*' (trim_suffix (bytes "$") pattern))
  where
    go :
        (anchored : Bool) (ps : List Text)
        → (match_split anchored ps path ≡ true) ↔ MatchesAny anchored ps path
    go anchored [] = (λ h. ground arith, λ w. absurd w)
    go anchored (p ∷ ps) =
        (match_parts_sound anchored p ps path, match_parts_complete anchored p ps path)
