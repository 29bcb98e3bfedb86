-- ===== src/Portfolio/Counted.antt =====
-- internal/pipeline/portfolio.go: what a check of a portfolio stores is what it counts.
use mathlib.Core.List.{append-nil, append_assoc}
use speakertrail.Common.{
  ℕ, ◌+◌, ◌≤◌, ◌∙◌, ap, sym, keep_if, length-append, All-append, any_where, Bool, true, false, ◌≡◌,
  refl, inl, inr, Option, some, List, [], ◌∷◌, ◌++◌, Text, bytes, length, length-take-le, All,
  arith, if◌then◌else◌, Bool-cases, Option-cases,
}
use speakertrail.Urls.{Parser}
use speakertrail.Resolve.Titles.{Unicode}
use speakertrail.Resolve.Tables.{Sighting, Seen, Db, Stored}
use speakertrail.Resolve.Orgs.{upsert_organisation, is_organisation}
use speakertrail.Resolve.Check.{sight}
use speakertrail.Portfolio.{Startup}
use speakertrail.Portfolio.Organisations.{
  KeepsIds, Added, AddsOne, IsName, commits, upsert_organisation-AddsOne,
  upsert_organisation-commits, found-Added,
}
use speakertrail.Portfolio.Entries.{
  Store, Tally, find_entry, seen_entry, added_entry, store_entry, store_each, kept_entries,
  store_entries, set_page,
}

-- A sighting of this check: of an organisation that the table has, and a new one only if its id was
-- not given before.
pub record Sees (source now next : ℕ) (db : Db) (x : Sighting) : Type 0 where
  pub from : x.source_id ≡ source
  pub at : x.checked_at ≡ now
  pub id : ℕ
  pub seen : x.seen ≡ Seen.organisation_seen id
  pub there : any_where (is_organisation id) db.organisations ≡ true
  pub fresh : x.is_new ≡ true → next ≤ id

abbrev pub new_ones : List Sighting → List Sighting
new_ones xs = keep_if (λ (x : Sighting). x.is_new) xs

-- The transaction goes on. It has added `n` sightings, as `Sees` says, counted as many startups, and
-- counted as new those that are new in a sighting, as many as the table has new organisations.
pub record IsCounted (source now n : ℕ) (t : Tally) (st : Store) (r : Option (Tally × Store))
    : Type 0 where
  pub tally : Tally
  pub store : Store
  pub goes_on : r ≡ some (tally, store)
  pub startups : tally.startups ≡ t.startups + n
  pub sightings : List Sighting
  pub appended : store.db.sightings ≡ st.db.sightings ++ sightings
  pub each : length sightings ≡ n
  pub seen : All (Sees source now st.db.next_organisation store.db) sightings
  pub new : tally.startups_new ≡ t.startups_new + length (new_ones sightings)
  pub organisations :
      length store.db.organisations ≡ length st.db.organisations + length (new_ones sightings)
  pub kept : KeepsIds st.db store.db
  pub next : st.db.next_organisation ≤ store.db.next_organisation

new_ones-one : (x : Sighting) → length (new_ones (x ∷ [])) ≡ (if x.is_new then 1 else 0)
new_ones-one x = elim (Bool-cases x.is_new) [ inl e ↦ rw e refl | inr e ↦ rw e refl ]

-- The rest of a round, once the organisation is looked up or added.
seen_entry-IsCounted :
    (source now id : ℕ) (is_new : Bool) (t : Tally) (st st₁ : Store)
    → Added st.db id is_new st₁.db
    → IsCounted source now 1 t st (some (seen_entry source now id is_new t st₁))
unfolding seen_entry sight
seen_entry-IsCounted source now id is_new t st st₁ h =
    let x : Sighting = record {
      source_id = source;
      checked_at = now;
      seen = Seen.organisation_seen id;
      is_new = is_new;
    } in
    let one = new_ones-one x in
    record {
      tally = (seen_entry source now id is_new t st₁).0;
      store = (seen_entry source now id is_new t st₁).1;
      goes_on = refl;
      startups = refl;
      sightings = x ∷ [];
      appended = rw (h.sightings) refl;
      each = refl;
      seen = (
        record { from = refl; at = refl; id = id; seen = refl; there = h.there; fresh = h.fresh },
        tt,
      );
      new = ground (arith, one);
      organisations = omega (arith, h.organisations, one);
      kept = h.kept;
      next = h.next;
    }

committed-IsCounted :
    (source now : ℕ) (page : Text) (t : Tally) (st : Store) (r : Stored (ℕ × Bool))
    → commits r ≡ true
    → AddsOne st.db r
    → IsCounted source now 1 t st (added_entry source now page t st.pages r)
unfolding added_entry
committed-IsCounted source now page t st (Stored.done (id, is_new) db) c h =
    seen_entry-IsCounted source now id is_new t st
      (record { db = db; pages = set_page id page st.pages }) h
committed-IsCounted source now page t st (Stored.refused e) c h = absurd (ground arith)

store_entry-IsCounted :
    (u : Unicode) (parse : Parser) (source now : ℕ) (s : Startup) (t : Tally) (st : Store)
    → IsName u s.name
    → IsCounted source now 1 t st (store_entry u parse source now s t st)
unfolding store_entry
store_entry-IsCounted u parse source now s t st h = elim (Option-cases (find_entry parse s st)) [
  | inr (o, e) ↦
      rw (e, store_entry)
        (seen_entry-IsCounted source now o.id false t st st (found-Added parse s st o e))
  | inl e ↦
      rw (e, store_entry)
        (committed-IsCounted source now s.page t st
          (upsert_organisation u parse s.name (bytes "company") s.website [] st.db)
          (upsert_organisation-commits u parse s.name (bytes "company") s.website [] st.db h)
          (upsert_organisation-AddsOne u parse s.name (bytes "company") s.website [] st.db))
]

new_ones-append :
    (xs ys : List Sighting)
    → length (new_ones (xs ++ ys)) ≡ length (new_ones xs) + length (new_ones ys)
new_ones-append [] ys = omega arith
new_ones-append (x ∷ xs) ys = ground (arith, new_ones-append xs ys)

-- A sighting stays one while the table keeps its organisations, also seen from an earlier start.
Sees-weaken :
    (source now next later : ℕ) (db db' : Db) (xs : List Sighting)
    → next ≤ later
    → KeepsIds db db'
    → All (Sees source now later db) xs
    → All (Sees source now next db') xs
Sees-weaken source now next later db db' [] n k h = tt
Sees-weaken source now next later db db' (x ∷ xs) n k h = (
  record {
    from = h.0.from;
    at = h.0.at;
    id = h.0.id;
    seen = h.0.seen;
    there = k h.0.id h.0.there;
    fresh = λ e. omega (arith, n, h.0.fresh e);
  },
  Sees-weaken source now next later db db' xs n k h.1,
)

IsCounted-trans :
    (source now n m : ℕ) (t : Tally) (st : Store) (r r' : Option (Tally × Store))
    → (a : IsCounted source now n t st r) → IsCounted source now m a.tally a.store r'
    → IsCounted source now (n + m) t st r'
IsCounted-trans source now n m t st r r' a b = record {
  tally = b.tally;
  store = b.store;
  goes_on = b.goes_on;
  startups = omega (arith, a.startups, b.startups);
  sightings = a.sightings ++ b.sightings;
  appended =
      b.appended
      ∙ ap (λ (xs : List Sighting). xs ++ b.sightings) a.appended
      ∙ append_assoc st.db.sightings a.sightings b.sightings;
  each = omega (arith, length-append a.sightings b.sightings, a.each, b.each);
  seen =
      All-append (Sees source now st.db.next_organisation b.store.db) a.sightings b.sightings
        (Sees-weaken source now st.db.next_organisation st.db.next_organisation a.store.db
          b.store.db a.sightings (omega arith) b.kept a.seen)
        (Sees-weaken source now st.db.next_organisation a.store.db.next_organisation b.store.db
          b.store.db b.sightings a.next (λ id k. k) b.seen);
  new = omega (arith, new_ones-append a.sightings b.sightings, a.new, b.new);
  organisations =
      omega (arith, new_ones-append a.sightings b.sightings, a.organisations, b.organisations);
  kept = λ id k. b.kept id (a.kept id k);
  next = omega (arith, a.next, b.next);
}

store_each-IsCounted :
    (u : Unicode) (parse : Parser) (source now : ℕ) (ss : List Startup) (t : Tally) (st : Store)
    → All (λ s. IsName u s.name) ss
    → IsCounted source now (length ss) t st (store_each u parse source now ss t st)
unfolding store_each
store_each-IsCounted u parse source now [] t st h = record {
  tally = t;
  store = st;
  goes_on = refl;
  startups = omega arith;
  sightings = [];
  appended = sym (append-nil st.db.sightings);
  each = refl;
  seen = tt;
  new = omega arith;
  organisations = omega arith;
  kept = λ id k. k;
  next = omega arith;
}
store_each-IsCounted u parse source now (s ∷ ss) t st h =
    let first = store_entry-IsCounted u parse source now s t st h.0 in
    let rest = store_each-IsCounted u parse source now ss first.tally first.store h.1 in
    let whole =
      IsCounted-trans source now 1 (length ss) t st _ (store_each u parse source now (s ∷ ss) t st)
        first (rw (first.goes_on, store_each) rest) in
    let e : 1 + length ss ≡ length (s ∷ ss) = omega arith in rw (e) at whole

-- Where every entry that is kept has a name, at most 300 of them, the transaction commits. It adds a
-- sighting for each and counts it; each sighting is of this source and time and of an organisation
-- that the table then has. As many startups are counted as new as sightings say so and as the table
-- has new organisations, and a new one's id is none that was given before.
pub store_entries-IsCounted :
    (u : Unicode) (parse : Parser) (source now : ℕ) (kind : Text) (ss : List Startup) (st : Store)
    → All (λ s. IsName u s.name) (kept_entries kind ss)
    → (length (kept_entries kind ss) ≤ 300)
      × IsCounted source now
          (length (kept_entries kind ss))
          (record { startups = 0; startups_new = 0 })
          st
          (store_entries u parse source now kind ss st)
unfolding store_entries kept_entries
store_entries-IsCounted u parse source now kind ss st h = (
  length-take-le 300 _,
  store_each-IsCounted u parse source now (kept_entries kind ss)
      (record { startups = 0; startups_new = 0 }) st h,
)
