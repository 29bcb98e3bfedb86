-- ===== src/Importer/Again.antt =====
-- internal/importer/importer.go: importing twice changes nothing.
use mathlib.Core.List.{append-nil, append_assoc}
use speakertrail.Common.{
  ℕ, ◌≡◌, refl, sym, ap, ◌∙◌, Bool, true, ◌||◌, List, [], ◌∷◌, ◌++◌, bytes, inl, inr, arith,
  Bool-cases, text_eq_refl, is_empty, All, All-weaken, any_where, any_where-append, any_where-snoc,
}
use speakertrail.Importer.{
  Env, Row, SourceRow, SeedRow, Tables, Tally, SearchKind, web_search, post_search, Files, nothing,
  is_skipped, source_exists, source_row, url_of, query_is, import_source, import_search, each,
  search_row, has_input, seed_row, import_seed, import_all, read_csv,
}

abbrev Extends {ℓ} : {A : Type ℓ} → List A → List A → Type ℓ
Extends {A = A} old new = (more : List A) × (new ≡ old ++ more)

Extends-refl {ℓ} : {A : Type ℓ} (xs : List A) → Extends xs xs
Extends-refl xs = ([], sym (append-nil xs))

Extends-trans {ℓ} : {A : Type ℓ} (xs ys zs : List A) → Extends xs ys → Extends ys zs → Extends xs zs
Extends-trans {A = A} xs ys zs (m, e) (n, f) =
    (m ++ n, f ∙ ap (λ (l : List A). l ++ n) e ∙ append_assoc xs m n)

still_there {ℓ} :
    {A : Type ℓ} (p : A → Bool) (xs ys : List A)
    → Extends xs ys
    → any_where p xs ≡ true
    → any_where p ys ≡ true
still_there p xs ys (m, e) h = rw e (any_where-append p xs m ∙ (rw h refl))

-- One row of a file, and the table that it goes to: what the body of a loop does.
module _ {A B : Type 0} (known : A → List B → Bool)
    (step : A → Tally → List B → Tally × List B) where
  record IsStep : Type 0 where
    -- A row that is known changes nothing, and is not counted as added.
    pub idle :
        (a : A) (t : Tally) (xs : List B)
        → known a xs ≡ true
        → ((step a t xs).1 ≡ xs) × ((step a t xs).0.added ≡ t.added)
    pub grows : (a : A) (t : Tally) (xs : List B) → Extends xs (step a t xs).1
    pub settles : (a : A) (t : Tally) (xs : List B) → known a (step a t xs).1 ≡ true
    pub stays : (a : A) (xs ys : List B) → Extends xs ys → known a xs ≡ true → known a ys ≡ true

  each-Extends :
      IsStep → (rows : List A) (t : Tally) (xs : List B) → Extends xs (each step rows t xs).1
  unfolding each
  each-Extends h [] t xs = Extends-refl xs
  each-Extends h (a ∷ rest) t xs =
      Extends-trans xs _ _ (h.grows a t xs) (each-Extends h rest (step a t xs).0 (step a t xs).1)

  abbrev AllKnown : List A → List B → Type 0
  AllKnown rows xs = All (λ (a : A). known a xs ≡ true) rows

  AllKnown-stays :
      IsStep
      → (rows : List A) (xs ys : List B) → Extends xs ys
      → AllKnown rows xs
      → AllKnown rows ys
  AllKnown-stays h rows xs ys e k = All-weaken rows (λ a. h.stays a xs ys e) k

  each-AllKnown :
      IsStep → (rows : List A) (t : Tally) (xs : List B) → AllKnown rows (each step rows t xs).1
  unfolding each
  each-AllKnown h [] t xs = tt
  each-AllKnown h (a ∷ rest) t xs = (
    h.stays a (step a t xs).1 _ (each-Extends h rest (step a t xs).0 (step a t xs).1)
        (h.settles a t xs),
    each-AllKnown h rest (step a t xs).0 (step a t xs).1,
  )

  each-idle :
      IsStep
      → (rows : List A) (t : Tally) (xs : List B) → AllKnown rows xs
      → ((each step rows t xs).1 ≡ xs) × ((each step rows t xs).0.added ≡ t.added)
  unfolding each
  each-idle h [] t xs k = (refl, refl)
  each-idle h (a ∷ rest) t xs k =
      let (e, n) = h.idle a t xs k.0 in
      let k' : AllKnown rest (step a t xs).1 = rw e k.1 in
      let (f, m) = each-idle h rest (step a t xs).0 (step a t xs).1 k' in (f ∙ e, m ∙ n)

source_settled : Env → Row → List SourceRow → Bool
source_settled env r sources = is_skipped r || source_exists env r sources

source_exists_stays :
    (env : Env) (r : Row) (xs ys : List SourceRow)
    → Extends xs ys
    → source_exists env r xs ≡ true
    → source_exists env r ys ≡ true
unfolding source_exists
source_exists_stays env r xs ys e h = elim (Bool-cases (is_empty (url_of r))) [
  | inl k ↦ rw k (still_there _ xs ys e (rw k at h))
  | inr k ↦ rw k (still_there _ xs ys e (rw k at h))
]

source_added :
    (env : Env) (r : Row) (xs : List SourceRow)
    → source_exists env r (xs ++ source_row env r ∷ []) ≡ true
unfolding source_exists source_row
source_added env r xs = elim (Bool-cases (is_empty (url_of r))) [
  | inl k ↦ rw k (any_where-snoc _ xs _ (text_eq_refl (env.lower (r (bytes "name")))))
  | inr k ↦ rw k (any_where-snoc _ xs _ (text_eq_refl (url_of r)))
]

source-IsStep :
    (env : Env) (now : ℕ) → IsStep (source_settled env) (import_source (record env { now = now }))
unfolding source_settled import_source source_exists
source-IsStep env now = record {
  idle = λ r t xs h. (ground arith, ground arith);
  grows = λ r t xs. grown r t xs;
  settles = λ r t xs. settled r t xs;
  stays = λ r xs ys e h. ground (arith, source_exists_stays env r xs ys e);
}
  where
    later : Env
    later = record env { now = now }

    grown : (r : Row) (t : Tally) (xs : List SourceRow) → Extends xs (import_source later r t xs).1
    grown r t xs = elim (Bool-cases (is_skipped r)) [
      | inl k ↦ rw k (Extends-refl xs)
      | inr k ↦ elim (Bool-cases (source_exists later r xs)) [
        | inl l ↦ rw (k, l) (Extends-refl xs)
        | inr l ↦ rw (k, l) (source_row later r ∷ [], refl)
      ]
    ]

    settled :
        (r : Row) (t : Tally) (xs : List SourceRow)
        → source_settled env r (import_source later r t xs).1 ≡ true
    settled r t xs = elim (Bool-cases (is_skipped r)) [
      | inl k ↦ rw k refl
      | inr k ↦ elim (Bool-cases (source_exists later r xs)) [
        | inl l ↦ rw (k, l) l
        | inr l ↦ rw (k, l) (source_added later r xs)
      ]
    ]

search_known : Env → Row → List SourceRow → Bool
search_known env r sources = any_where (query_is env.lower (r (bytes "query"))) sources

search_added :
    (env : Env) (k : SearchKind) (r : Row) (xs : List SourceRow)
    → search_known env r (xs ++ search_row env k (r (bytes "query")) ∷ []) ≡ true
unfolding search_known search_row
search_added env k r xs = any_where-snoc _ xs _ (text_eq_refl (env.lower (r (bytes "query"))))

search-IsStep :
    (env : Env) (now : ℕ) (k : SearchKind)
    → IsStep (search_known env) (import_search (record env { now = now }) k)
unfolding search_known import_search
search-IsStep env now k = record {
  idle = λ r t xs h. (ground arith, ground arith);
  grows = λ r t xs. grown r t xs;
  settles = λ r t xs. settled r t xs;
  stays = λ r xs ys e h. still_there (query_is env.lower (r (bytes "query"))) xs ys e h;
}
  where
    later : Env
    later = record env { now = now }

    grown :
        (r : Row) (t : Tally) (xs : List SourceRow) → Extends xs (import_search later k r t xs).1
    grown r t xs = elim (Bool-cases (any_where (query_is env.lower (r (bytes "query"))) xs)) [
      | inl l ↦ rw l (Extends-refl xs)
      | inr l ↦ rw l (search_row later k (r (bytes "query")) ∷ [], refl)
    ]

    settled :
        (r : Row) (t : Tally) (xs : List SourceRow)
        → any_where (query_is env.lower (r (bytes "query"))) (import_search later k r t xs).1 ≡ true
    settled r t xs = elim (Bool-cases (any_where (query_is env.lower (r (bytes "query"))) xs)) [
      | inl l ↦ rw l l
      | inr l ↦ rw l (search_added later k r xs)
    ]

seed_known : Row → List SeedRow → Bool
seed_known r seeds = any_where (has_input (r (bytes "input"))) seeds

seed_added : (r : Row) (xs : List SeedRow) → seed_known r (xs ++ seed_row r ∷ []) ≡ true
unfolding seed_known seed_row
seed_added r xs = any_where-snoc _ xs _ (text_eq_refl (r (bytes "input")))

seed-IsStep : IsStep seed_known import_seed
unfolding seed_known import_seed
seed-IsStep = record {
  idle = λ r t xs h. (ground arith, ground arith);
  grows = λ r t xs. grown r t xs;
  settles = λ r t xs. settled r t xs;
  stays = λ r xs ys e h. still_there (has_input (r (bytes "input"))) xs ys e h;
}
  where
    grown : (r : Row) (t : Tally) (xs : List SeedRow) → Extends xs (import_seed r t xs).1
    grown r t xs = elim (Bool-cases (any_where (has_input (r (bytes "input"))) xs)) [
      | inl l ↦ rw l (Extends-refl xs)
      | inr l ↦ rw l (seed_row r ∷ [], refl)
    ]

    settled :
        (r : Row) (t : Tally) (xs : List SeedRow)
        → any_where (has_input (r (bytes "input"))) (import_seed r t xs).1 ≡ true
    settled r t xs = elim (Bool-cases (any_where (has_input (r (bytes "input"))) xs)) [
      | inl l ↦ rw l l
      | inr l ↦ rw l (seed_added r xs)
    ]

-- Every row of the files is known to the tables, or is skipped.
record IsImported (env : Env) (f : Files) (db : Tables) : Type 0 where
  sources : All (λ (r : Row). source_settled env r db.sources ≡ true) (read_csv f.sources)
  searches : All (λ (r : Row). search_known env r db.sources ≡ true) (read_csv f.searches)
  post_searches : All (λ (r : Row). search_known env r db.sources ≡ true) (read_csv f.post_searches)
  seeds : All (λ (r : Row). seed_known r db.seeds ≡ true) (read_csv f.seeds)

import_all-IsImported :
    (env : Env) (f : Files) (db : Tables) → IsImported env f (import_all env f db).1
unfolding import_all
import_all-IsImported env f db =
    let rs = read_csv f.sources in
    let ws = read_csv f.searches in
    let ps = read_csv f.post_searches in
    let s₁ = (each (import_source env) rs nothing db.sources).1 in
    let s₂ = (each (import_search env web_search) ws nothing s₁).1 in
    let s₃ = (each (import_search env post_search) ps nothing s₂).1 in
    let source = source-IsStep env env.now in
    let web = search-IsStep env env.now web_search in
    let post = search-IsStep env env.now post_search in
    let e₂ : Extends s₁ s₂ = each-Extends _ _ web ws nothing s₁ in
    let e₃ : Extends s₂ s₃ = each-Extends _ _ post ps nothing s₂ in
    record {
      sources =
          AllKnown-stays _ _ source rs s₁ s₃ (Extends-trans s₁ s₂ s₃ e₂ e₃)
            (each-AllKnown _ _ source rs nothing db.sources);
      searches = AllKnown-stays _ _ web ws s₂ s₃ e₃ (each-AllKnown _ _ web ws nothing s₁);
      post_searches = each-AllKnown _ _ post ps nothing s₂;
      seeds = each-AllKnown _ _ seed-IsStep (read_csv f.seeds) nothing db.seeds;
    }

-- An import adds no row and changes no table.
abbrev pub AddsNothing : Env → Files → Tables → Type 0
AddsNothing env f db =
    ((import_all env f db).1 ≡ db)
    × ((import_all env f db).0.sources.added ≡ 0)
    × ((import_all env f db).0.searches.added ≡ 0)
    × ((import_all env f db).0.post_searches.added ≡ 0)
    × ((import_all env f db).0.seeds.added ≡ 0)

import_all-idle :
    (env : Env) (now : ℕ) (f : Files) (db : Tables)
    → IsImported env f db
    → AddsNothing (record env { now = now }) f db
unfolding import_all
import_all-idle env now f db h =
    let (r, r') =
      each-idle _ _ (source-IsStep env now) (read_csv f.sources) nothing db.sources h.sources in
    let (w, w') =
      each-idle _ _ (search-IsStep env now web_search) (read_csv f.searches) nothing db.sources
        h.searches in
    let (p, p') =
      each-idle _ _ (search-IsStep env now post_search) (read_csv f.post_searches) nothing
        db.sources h.post_searches in
    let (s, s') = each-idle _ _ seed-IsStep (read_csv f.seeds) nothing db.seeds h.seeds in
    (rw (r, w, p, s) refl, r', rw r w', rw (r, w) p', s')

-- A second import of the same files, at any later time, adds no row and changes none, whatever the
-- tables held before the first.
pub import_again :
    (env : Env) (now : ℕ) (f : Files) (db : Tables)
    → AddsNothing (record env { now = now }) f (import_all env f db).1
import_again env now f db =
    import_all-idle env now f (import_all env f db).1 (import_all-IsImported env f db)
