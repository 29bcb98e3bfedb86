-- ===== src/Rubric/Signals.antt =====
-- What the rubric's signals are sure to be, and what the score counts.
use speakertrail.Common.{
  ℕ, zero, suc, ◌+◌, ◌≡◌, refl, sym, ap, ◌∙◌, inl, inr, Bool, true, false, ◌||◌, some, List, [],
  ◌∷◌, Text, text_eq, is_empty, is_some, All, arith, if◌then◌else◌, Bool-cases, Option-cases,
}
use speakertrail.Rubric.Passages.{passage}
use speakertrail.Rubric.{
  Matcher, Def, Signal, Appearance, Company, Person, Rubric, lookup, signal_of, add, add_if, spoils,
  scan, scan_all, add_hosted, add_events, add_activity, add_company, add_companies, add_found,
  texts_of, by_imprint, found_in_person, in_order, signals, ℤ, pos, negsuc, incr, decr, score_from,
  score,
}

module _ (r : Rubric) where
  -- A signal of the rubric with a passage, which has no contact detail.
  abbrev pub IsShown : Signal → Type 0
  IsShown s =
      (is_empty s.passage ≡ false)
      × (r.contact s.passage ≡ false)
      × ((d : Def) × (lookup r.all s.key ≡ some d) × (s.is_for ≡ d.is_for))

  add-All :
      (key shown place : Text) (found : List Signal)
      → All IsShown found
      → All IsShown (add r key shown place found)
  unfolding add
  add-All key shown place found h = elim (Option-cases (lookup r.all key)) [
    | inl e ↦ rw (e, add) h
    | inr (d, e) ↦
        elim (Bool-cases (is_empty shown || r.contact shown || is_some (signal_of key found))) [
          | inl b ↦ rw (e, b, add) h
          | inr b ↦ rw (e, b, add) ((ground arith, ground arith, (d, e, refl)), h)
        ]
  ]

  scan-All :
      (d : Def) (m : Matcher) (ts : List (Text × Text)) (found : List Signal)
      → All IsShown found
      → All IsShown (scan r d m ts found)
  unfolding scan
  scan-All d m [] found h = h
  scan-All d m ((place, s) ∷ ts) found h = elim (Bool-cases (spoils d.unless s)) [
    | inl e ↦ rw (e, scan) (scan-All d m ts found h)
    | inr e ↦ elim (Option-cases (m s)) [
      | inl k ↦ rw (e, k, scan) (scan-All d m ts found h)
      | inr (ij, k) ↦ rw (e, k, scan) (add-All d.key (passage s ij.0 ij.1) place found h)
    ]
  ]

  scan_all-All :
      (ds : List Def) (ts : List (Text × Text)) (found : List Signal)
      → All IsShown found
      → All IsShown (scan_all r ds ts found)
  unfolding scan_all
  scan_all-All [] ts found h = h
  scan_all-All (d ∷ ds) ts found h = elim (Option-cases d.pattern) [
    | inl e ↦ rw (e, scan_all) (scan_all-All ds ts found h)
    | inr (m, e) ↦
        rw (e, scan_all) (scan_all-All ds ts (scan r d m ts found) (scan-All d m ts found h))
  ]

  add_if-All :
      (b : Bool) (key shown place : Text) (found : List Signal)
      → All IsShown found
      → All IsShown (add_if r b key shown place found)
  unfolding add_if
  add_if-All true key shown place found h = add-All key shown place found h
  add_if-All false key shown place found h = h

  add_hosted-All :
      (ps : List Appearance) (found : List Signal)
      → All IsShown found
      → All IsShown (add_hosted r ps found)
  unfolding add_hosted
  add_hosted-All [] found h = h
  add_hosted-All (a ∷ more) found h = add_hosted-All more _ (add_if-All _ _ _ _ found h)

  add_events-All :
      (ps : List Appearance) (found : List Signal)
      → All IsShown found
      → All IsShown (add_events r ps found)
  unfolding add_events
  add_events-All [] found h = h
  add_events-All (a ∷ more) found h = add_events-All more _ (add_if-All _ _ _ _ found h)

  add_company-All :
      (p : Person) (b : Bool) (c : Company) (found : List Signal)
      → All IsShown found
      → All IsShown (add_company r p b c found)
  unfolding add_company add_activity
  add_company-All p b c found h = search add_if-All

  add_companies-All :
      (p : Person) (b : Bool) (cs : List Company) (found : List Signal)
      → All IsShown found
      → All IsShown (add_companies r p b cs found)
  unfolding add_companies
  add_companies-All p b [] found h = h
  add_companies-All p b (c ∷ cs) found h =
      add_companies-All p b cs _ (add_company-All p b c found h)

  add_found-All : (ss found : List Signal) → All IsShown found → All IsShown (add_found r ss found)
  unfolding add_found
  add_found-All [] found h = h
  add_found-All (s ∷ ss) found h = add_found-All ss _ (add-All _ _ _ found h)

  signal_of-All :
      (key : Text) (found : List Signal) (s : Signal)
      → All IsShown found
      → signal_of key found ≡ some s
      → IsShown s
  unfolding signal_of
  signal_of-All key [] s h e = absurd (ground arith)
  signal_of-All key (x ∷ found) s h e = elim (Bool-cases (text_eq x.key key)) [
    | inl b ↦ let same : x ≡ s = cc in rw (sym same) h.0
    | inr b ↦ signal_of-All key found s h.1 (rw b at e)
  ]

  in_order-All :
      (ds : List Def) (found : List Signal) → All IsShown found → All IsShown (in_order ds found)
  unfolding in_order
  in_order-All [] found h = tt
  in_order-All (d ∷ ds) found h = elim (Option-cases (signal_of d.key found)) [
    | inl e ↦ rw (e, in_order) (in_order-All ds found h)
    | inr (s, e) ↦ rw (e, in_order) (signal_of-All d.key found s h e, in_order-All ds found h)
  ]

  -- Every signal of a person is one of the rubric's and speaks for or against as the rubric says, and it
  -- has a passage that shows it, in which the expression for contact details finds none.
  pub signals-All : (p : Person) → All IsShown (signals r p)
  unfolding signals found_in_person
  signals-All p = in_order-All r.all _ (
      add_found-All p.found _ (
        add_companies-All p (by_imprint p) p.companies _ (
          add_events-All p.appearances _
            (add_hosted-All p.appearances _ (scan_all-All r.all (texts_of p) [] tt)))))

-- How many signals speak for a fit, and how many against it.
abbrev pub count_for : List Signal → ℕ
count_for [] = 0
count_for (s ∷ ss) = let n = count_for ss in if s.is_for then suc n else n

abbrev pub count_against : List Signal → ℕ
count_against [] = 0
count_against (s ∷ ss) = let n = count_against ss in if s.is_for then n else suc n

-- a less b
abbrev pub diff : ℕ → ℕ → ℤ
diff a zero = pos a
diff zero (suc b) = negsuc b
diff (suc a) (suc b) = diff a b

incr-diff : (a b : ℕ) → incr (diff a b) ≡ diff (suc a) b
unfolding incr
incr-diff a zero = refl
incr-diff zero (suc zero) = refl
incr-diff zero (suc (suc b)) = refl
incr-diff (suc a) (suc b) = incr-diff a b

decr-diff : (a b : ℕ) → decr (diff a b) ≡ diff a (suc b)
unfolding decr
decr-diff zero zero = refl
decr-diff (suc a) zero = refl
decr-diff zero (suc b) = refl
decr-diff (suc a) (suc b) = decr-diff a b

diff_eq : (a a' b b' : ℕ) → a ≡ a' → b ≡ b' → diff a b ≡ diff a' b'
diff_eq a a' b b' h k = ap (λ x. diff x b) h ∙ ap (λ y. diff a' y) k

score_from-diff :
    (a b : ℕ) (ss : List Signal)
    → score_from (diff a b) ss ≡ diff (a + count_for ss) (b + count_against ss)
unfolding score_from
score_from-diff a b [] =
    diff_eq a (a + count_for []) b (b + count_against []) (omega arith) (omega arith)
score_from-diff a b (s ∷ ss) = elim (Bool-cases s.is_for) [
  | inl e ↦
      rw (e, incr-diff a b, score_from-diff (suc a) b ss)
        (diff_eq (suc a + count_for ss) (a + suc (count_for ss)) (b + count_against ss)
          (b + count_against ss) (omega arith) (omega arith))
  | inr e ↦
      rw (e, decr-diff a b, score_from-diff a (suc b) ss)
        (diff_eq (a + count_for ss) (a + count_for ss) (suc b + count_against ss)
          (b + suc (count_against ss)) (omega arith) (omega arith))
]

-- The score is the number of signals for a fit, less the number of signals against it.
pub score_lem : (ss : List Signal) → score ss ≡ diff (count_for ss) (count_against ss)
unfolding score
score_lem ss =
    score_from-diff 0 0 ss
    ∙ diff_eq (0 + count_for ss) (count_for ss) (0 + count_against ss) (count_against ss)
        (omega arith) (omega arith)
