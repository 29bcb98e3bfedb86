-- ===== src/Scoring/Inserts.antt =====
-- internal/pipeline/score.go: the transaction of ScorePeople inserts no key twice, and what it stores.
use mathlib.Core.List.{append-nil, append_assoc}
use speakertrail.Common.{
  ℕ, ◌==◌, Bool, true, false, not, ◌&&◌, ◌≡◌, ◌≢◌, refl, sym, ap, ◌∙◌, inl, inr, some, List, [],
  ◌∷◌, ◌++◌, map, Text, text_eq, text_eq_iff, keep_if, set_where, any_where, any_where-append, All,
  All-both, All-unmap, All-of_mem, Distinct, arith, if◌then◌else◌, Bool-cases, Option-cases,
}
use speakertrail.Rubric.{Matcher, Def, Signal, defs, signal_of, in_order, found_in_person, signals}
use speakertrail.Scoring.{
  Env, Person, SignalRow, conflicts, row_of, insert_signals, mark, store_scored, has_id,
  signals_for, rubric_of,
}
use speakertrail.Scoring.Input.{Tables, score_input}

-- No two elements have the same key.
abbrev pub Differ {ℓ} : {A : Type ℓ} → (A → Text) → List A → Type 0
Differ key [] = Unit
Differ key (x ∷ xs) = All (λ y. text_eq (key x) (key y) ≡ false) xs × Differ key xs

-- The same as a test.
abbrev keys_differ : List Def → Bool
keys_differ [] = true
keys_differ (d ∷ ds) = not (any_where (λ (e : Def). text_eq d.key e.key) ds) && keys_differ ds

any_where-none {ℓ} :
    {A : Type ℓ} (p : A → Bool) (xs : List A) → any_where p xs ≡ false → All (λ x. p x ≡ false) xs
unfolding any_where
any_where-none p [] h = tt
any_where-none p (x ∷ xs) h = (ground arith, any_where-none p xs (ground arith))

keys_differ-Differ : (ds : List Def) → keys_differ ds ≡ true → Differ Def.key ds
keys_differ-Differ [] h = tt
keys_differ-Differ (d ∷ ds) h = (
  any_where-none (λ (e : Def). text_eq d.key e.key) ds (ground arith),
  keys_differ-Differ ds (ground arith),
)

defs-Differ : (pattern unless : Text → Matcher) → Differ Def.key (defs pattern unless)
unfolding defs text_eq any_where
defs-Differ pattern unless = keys_differ-Differ (defs pattern unless) refl

signal_of-key :
    (key : Text) (found : List Signal) (s : Signal) → signal_of key found ≡ some s → s.key ≡ key
unfolding signal_of
signal_of-key key [] s h = cc
signal_of-key key (t ∷ ts) s h = elim (Bool-cases (text_eq t.key key)) [
  | inl e ↦ let h' : t ≡ s = ground arith in rw (← h') ((text_eq_iff t.key key).0 e)
  | inr e ↦ signal_of-key key ts s (ground arith)
]

in_order-apart :
    (key : Text) (ds : List Def) (found : List Signal)
    → All (λ d. text_eq key d.key ≡ false) ds
    → All (λ s. text_eq key s.key ≡ false) (in_order ds found)
unfolding in_order
in_order-apart key [] found h = tt
in_order-apart key (d ∷ ds) found h = elim (Option-cases (signal_of d.key found)) [
  | inl e ↦ rw (e, in_order) (in_order-apart key ds found h.1)
  | inr (s, e) ↦
      rw (e, in_order) (rw (signal_of-key d.key found s e) h.0, in_order-apart key ds found h.1)
]

in_order-Differ :
    (ds : List Def) (found : List Signal)
    → Differ Def.key ds
    → Differ Signal.key (in_order ds found)
unfolding in_order
in_order-Differ [] found h = tt
in_order-Differ (d ∷ ds) found h = elim (Option-cases (signal_of d.key found)) [
  | inl e ↦ rw (e, in_order) (in_order-Differ ds found h.1)
  | inr (s, e) ↦
      rw (e, in_order)
        (
          rw (signal_of-key d.key found s e) (in_order-apart d.key ds found h.0),
          in_order-Differ ds found h.1,
        )
]

pub signals_for-Differ :
    (env : Env) (t : Tables) (p : Person) → Differ Signal.key (signals_for env t p)
unfolding signals_for signals
signals_for-Differ env t p =
    in_order-Differ (defs env.pattern env.unless)
      (found_in_person (rubric_of env) (score_input env.before t p.id p.headline p.fit_evidence))
      (defs-Differ env.pattern env.unless)

-- The rows of one person.
abbrev pub rows_at : ℕ → List SignalRow → List SignalRow
rows_at id rows = keep_if (λ (r : SignalRow). r.person_id == id) rows

rows_at-free :
    (id : ℕ) (key : Text) (rows : List SignalRow)
    → rows_at id rows ≡ []
    → any_where (conflicts id key) rows ≡ false
unfolding any_where
rows_at-free id key [] h = refl
rows_at-free id key (r ∷ rows) h = elim (Bool-cases (r.person_id == id)) [
  | inl e ↦ ground arith
  | inr e ↦ let ih = rows_at-free id key rows (ground arith) in ground arith
]

still_free :
    (env : Env) (id : ℕ) (s t : Signal) (rows : List SignalRow)
    → any_where (conflicts id t.key) rows ≡ false
    → text_eq s.key t.key ≡ false
    → any_where (conflicts id t.key) (rows ++ row_of env id s ∷ []) ≡ false
unfolding any_where
still_free env id s t rows h k =
    let e = any_where-append (conflicts id t.key) rows (row_of env id s ∷ []) in ground arith

insert_signals-free :
    (env : Env) (id : ℕ) (ss : List Signal) (rows : List SignalRow)
    → All (λ (s : Signal). any_where (conflicts id s.key) rows ≡ false) ss
    → Differ Signal.key ss
    → insert_signals env id ss rows ≡ some (rows ++ map (row_of env id) ss)
unfolding insert_signals
insert_signals-free env id [] rows h d = ap some (sym (append-nil rows))
insert_signals-free env id (s ∷ ss) rows h d = rw h.0 (
    insert_signals-free env id ss (rows ++ row_of env id s ∷ [])
      (All-both ss (λ t. still_free env id s t rows) h.1 d.0) d.1
    ∙ ap some (append_assoc rows (row_of env id s ∷ []) (map (row_of env id) ss)))

pub rows_at-append :
    (id : ℕ) (xs ys : List SignalRow) → rows_at id (xs ++ ys) ≡ rows_at id xs ++ rows_at id ys
rows_at-append id [] ys = refl
rows_at-append id (x ∷ xs) ys = ground (arith, rows_at-append id xs ys)

pub rows_at-own :
    (env : Env) (id : ℕ) (ss : List Signal)
    → rows_at id (map (row_of env id) ss) ≡ map (row_of env id) ss
rows_at-own env id [] = refl
rows_at-own env id (s ∷ ss) = ground (arith, rows_at-own env id ss)

pub rows_at-other :
    (env : Env) (i id : ℕ) (ss : List Signal)
    → (i == id) ≡ false
    → rows_at id (map (row_of env i) ss) ≡ []
rows_at-other env i id [] h = refl
rows_at-other env i id (s ∷ ss) h = ground (arith, rows_at-other env i id ss h)

-- What the transaction inserts, and what it makes of one person.
unfoldable pub rows_all : Env → List (ℕ × List Signal) → List SignalRow
rows_all env [] = []
rows_all env ((id, ss) ∷ all) = map (row_of env id) ss ++ rows_all env all

unfoldable pub marked : List (ℕ × List Signal) → Person → Person
unfolding mark
marked [] p = p
marked ((id, ss) ∷ all) p = marked all (if p.id == id then mark ss p else p)

map-marked :
    (id : ℕ) (ss : List Signal) (all : List (ℕ × List Signal)) (people : List Person)
    → map (marked all) (set_where (has_id id) (mark ss) people)
      ≡ map (marked ((id, ss) ∷ all)) people
unfolding marked set_where
map-marked id ss all [] = refl
map-marked id ss all (p ∷ people) = ground (arith, map-marked id ss all people)

map-marked_nil : (people : List Person) → map (marked []) people ≡ people
unfolding marked
map-marked_nil [] = refl
map-marked_nil (p ∷ people) = ap (λ l. p ∷ l) (map-marked_nil people)

none_yet :
    (env : Env) (i id : ℕ) (ss : List Signal) (rows : List SignalRow)
    → rows_at id rows ≡ []
    → i ≢ id
    → rows_at id (rows ++ map (row_of env i) ss) ≡ []
none_yet env i id ss rows h k =
    rw (rows_at-append id rows (map (row_of env i) ss), h)
      (rows_at-other env i id ss (ground arith))

-- Everything that is scored is stored, where the people are different and have no rows yet.
pub store_scored-done :
    (env : Env) (all : List (ℕ × List Signal)) (people : List Person) (rows : List SignalRow)
    → Distinct (map (λ (a : ℕ × List Signal). a.0) all)
    → All (λ (a : ℕ × List Signal). Differ Signal.key a.1) all
    → All (λ (a : ℕ × List Signal). rows_at a.0 rows ≡ []) all
    → store_scored env all (people, rows) ≡ some (map (marked all) people, rows ++ rows_all env all)
unfolding store_scored rows_all
store_scored-done env [] people rows d k h = rw (map-marked_nil people, append-nil rows) refl
store_scored-done env ((id, ss) ∷ all) people rows d k h =
    let e =
      insert_signals-free env id ss rows
        (All-of_mem (λ (s : Signal). any_where (conflicts id s.key) rows ≡ false) ss
          (λ s m. rows_at-free id s.key rows h.0))
        k.0 in
    let apart = All-unmap (λ i. id ≢ i) (λ (a : ℕ × List Signal). a.0) all d.0 in
    let ih =
      store_scored-done env all (set_where (has_id id) (mark ss) people)
        (rows ++ map (row_of env id) ss) d.1 k.1
        (All-both all (λ a. none_yet env id a.0 ss rows) h.1 apart) in
    rw (e, store_scored)
      (ih
        ∙ rw
            (
              map-marked id ss all people,
              append_assoc rows (map (row_of env id) ss) (rows_all env all),
            )
            refl)
