-- ===== src/Resolve/Totals.antt =====
-- internal/pipeline/resolve.go: what Resolve counts and adds, and what is stored where it ends early.
use speakertrail.Common.{
  ℕ, ◌+◌, ◌≤◌, ◌≡◌, refl, sym, ap, ◌∙◌, Bool, none, some, List, [], ◌∷◌, ◌++◌, Text, inl, inr, ◌⊎◌,
  arith, length,
}
use speakertrail.Fit.{FitRules}
use speakertrail.Resolve.Tables.{Db, Refused, Stored, done, refused}
use speakertrail.Resolve.People.{Env}
use speakertrail.Resolve.Events.{Event}
use speakertrail.Resolve.Check.{
  Source, Stats, Outcome, Trouble, Resolved, Tally, counts, prepared, in_tx, resolve_from, resolve,
}
use speakertrail.Resolve.Counts.{Counts}

-- The new people are among those that were found, and each has an id.
record IsCounted (t : Tally) : Type 0 where
  new : t.new_people ≤ t.people
  all : length t.ids ≡ t.people

-- How the counts of a check relate to each other.
pub record AreWithin (st : Stats) : Type 0 where
  pub kept : st.events_kept ≤ st.events_found
  pub new : st.events_new ≤ st.events_found
  pub with_people : st.kept_with_people ≤ st.events_kept
  -- Each kept event with people has at least one.
  pub peopled : st.kept_with_people ≤ st.people_found
  pub new_people : st.people_new ≤ st.people_found
  pub ids : length st.people ≡ st.people_found

-- The counts of a check of events are right about the tables before it and about what it leaves.
pub record IsConsistent (db : Db) (es : List Event) (o : Outcome) : Type 0 where
  pub within : AreWithin o.stats
  pub events : length o.db.events ≡ length db.events + o.stats.events_new
  pub people : length o.db.people ≡ length db.people + o.stats.people_new
  pub found : o.trouble ≡ none → o.stats.events_found ≡ length es

pub Stored-cases {ℓ} :
    {A : Type ℓ} (s : Stored A)
    → ((a : A) × (db : Db) × (s ≡ done a db)) ⊎ ((w : Refused) × (s ≡ refused w))
Stored-cases (done a db) = inl (a, db, refl)
Stored-cases (refused w) = inr (w, refl)

module _ (env : Env) (has : Text → Text → Bool) (rules : FitRules) (src : Source) (now : ℕ) where
  abbrev pub Run : Stats → Db → List Event → Outcome
  Run st db es = resolve_from env has rules src now st db es

  pub step-done :
      (e : Event) (es : List Event) (st : Stats) (db db' : Db) (r : Resolved)
      → in_tx env has rules src now (prepared src e) db ≡ done r db'
      → Run st db (e ∷ es) ≡ Run (counts st r) db' es
  unfolding resolve_from
  step-done e es st db db' r h = ground arith

  pub step-refused :
      (e : Event) (es : List Event) (st : Stats) (db : Db) (w : Refused)
      → in_tx env has rules src now (prepared src e) db ≡ refused w
      → Run st db (e ∷ es) ≡ record {
        db = db;
        stats = record st { events_found = st.events_found + 1 };
        trouble = some (record { title = e.title; why = w });
      }
  unfolding resolve_from
  step-refused e es st db w h = ground arith

  -- The same from counts that were made before.
  record GoesOn (st : Stats) (db : Db) (es : List Event) (o : Outcome) : Type 0 where
    within : AreWithin o.stats
    events : length o.db.events + st.events_new ≡ length db.events + o.stats.events_new
    people : length o.db.people + st.people_new ≡ length db.people + o.stats.people_new
    found : o.trouble ≡ none → o.stats.events_found ≡ st.events_found + length es

  -- The events before one that cannot be stored, and what they left.
  record IsCut (st : Stats) (db : Db) (es : List Event) (w : Trouble) : Type 0 where
    pub before : List Event
    pub event : Event
    pub after : List Event
    pub parted : es ≡ before ++ event ∷ after
    pub stored : (Run st db before).db ≡ (Run st db es).db
    pub unhurt : (Run st db before).trouble ≡ none
    pub why : in_tx env has rules src now (prepared src event) (Run st db es).db ≡ refused w.why
    pub named : w.title ≡ event.title

  cut :
      (es : List Event) (st : Stats) (db : Db) (w : Trouble)
      → (Run st db es).trouble ≡ some w
      → IsCut st db es w
  unfolding resolve_from
  cut [] st db w h = absurd (cc)
  cut (e ∷ es) st db w h = elim (Stored-cases (in_tx env has rules src now (prepared src e) db)) [
    | inl (r, db', k) ↦
        let c = cut es (counts st r) db' w (rw (step-done e es st db db' r k) at h) in
        record {
          before = e ∷ c.before;
          event = c.event;
          after = c.after;
          parted = ap (λ (l : List Event). e ∷ l) c.parted;
          stored = rw (step-done e es st db db' r k, step-done e c.before st db db' r k) c.stored;
          unhurt = rw (step-done e c.before st db db' r k) c.unhurt;
          why = rw (step-done e es st db db' r k) c.why;
          named = c.named;
        }
    | inr (x, k) ↦
        let same : record { title = e.title; why = x } ≡ w =
          (let h' : some (record { title = e.title; why = x }) ≡ some w =
              rw (step-refused e es st db x k) at h in
            cc) in
        record {
          before = [];
          event = e;
          after = es;
          parted = refl;
          stored = rw (step-refused e es st db x k) refl;
          unhurt = refl;
          why =
              rw (step-refused e es st db x k)
                (k ∙ ap (λ (t : Trouble). Stored.refused t.why) same);
          named = sym (ap (λ (t : Trouble). t.title) same);
        }
  ]

  -- Where Resolve ends early, the event that it names could not be stored in the tables as the
  -- events before it left them, all of which it stored, and nothing of that event or of one after
  -- it is stored.
  pub resolve_cut :
      (db : Db) (es : List Event) (w : Trouble)
      → (resolve env has rules src now db es).trouble ≡ some w
      → (before after : List Event) × (e : Event) × (es ≡ before ++ e ∷ after)
        × ((resolve env has rules src now db before).trouble ≡ none)
        × ((resolve env has rules src now db es).db ≡ (resolve env has rules src now db before).db)
        × (in_tx env has rules src now (prepared src e) (resolve env has rules src now db before).db
            ≡ refused w.why)
        × (w.title ≡ e.title)
  unfolding resolve
  resolve_cut db es w h =
      let c = cut es _ db w h in
      (c.before, c.after, c.event, c.parted, c.unhurt, sym c.stored, rw (c.stored) c.why, c.named)
