-- ===== src/Resolve/Again.antt =====
-- internal/pipeline/resolve.go: an event that is resolved once more adds no event and no person.
use mathlib.Core.Path.{subst}
use speakertrail.Common.{
  Order, Bool, false, ℕ, ◌≡◌, refl, sym, ap, ◌∙◌, Bool, false, List, [], ◌∷◌, Text, All, All-weaken,
}
use speakertrail.Resolve.Names.{normalise_name, parse_affiliation}
use speakertrail.Resolve.Titles.{normalise_title}
use speakertrail.Resolve.Tables.{EventRow, AppearanceRow, Seen, Db, done}
use speakertrail.Resolve.People.{Person, Env, resolve_person}
use speakertrail.Resolve.Events.{Event, Verdict, Placed, place_event}
use speakertrail.Resolve.Check.{
  sight, store_one, store_people, store_around, store_venue, store_organisers, resolve_event, Tally,
  counted, no_people, Resolved,
}
use speakertrail.Resolve.Found.{
  IsAlone, IsPlaced, matches, others, place-IsPlaced, place-again, place-keeps,
}
use speakertrail.Resolve.Frame.{Grows, Grows-trans, >>=-done}
use speakertrail.Resolve.Growth.{
  sight-Grows, store_one-Adds, store_people-Adds, store_venue-Adds, store_organisers-Adds,
}
use speakertrail.Resolve.Known.{IsKnown, IsKnown-Grows, store_person-IsKnown, store_person-not_new}

abbrev name_of : Env → Person → Text
name_of env p = normalise_name env.unicode env.patterns p.name

module _ (env : Env) (source now id : ℕ) (e : Event) where
  store_one-IsKnown :
      (p : Person) (db db' : Db) (found : ℕ × Bool)
      → store_one env source now id e p db ≡ done found db'
      → IsKnown id (name_of env p) db'
  unfolding store_one resolve_person
  store_one-IsKnown p db db' found h =
      let (f, mid, k, l) = >>=-done (resolve_person env id e.city p e.url now) _ db found db' h in
      let same : sight source now (Seen.person_seen f.0) f.1 mid ≡ db' = cc in
      rw (← same) (
        IsKnown-Grows id (name_of env p) mid _
          (sight-Grows source now (Seen.person_seen f.0) f.1 mid)
          (store_person-IsKnown env id e.city p e.url now
            (parse_affiliation env.patterns p.affiliation) db mid f k))

  store_one-not_new :
      (p : Person) (db db' : Db) (found : ℕ × Bool)
      → IsKnown id (name_of env p) db
      → store_one env source now id e p db ≡ done found db'
      → found.1 ≡ false
  unfolding store_one resolve_person
  store_one-not_new p db db' found known h =
      let (f, mid, k, l) = >>=-done (resolve_person env id e.city p e.url now) _ db found db' h in
      let same : f ≡ found = cc in
      rw (← same) (
        store_person-not_new env id e.city p e.url now
          (parse_affiliation env.patterns p.affiliation) db mid f known k)

  abbrev AllKnown : List Person → Db → Type 0
  AllKnown ps db = All (λ (p : Person). IsKnown id (name_of env p) db) ps

  AllKnown-Grows : (ps : List Person) (a b : Db) → Grows a b → AllKnown ps a → AllKnown ps b
  AllKnown-Grows ps a b g h = All-weaken ps (λ p k. IsKnown-Grows id (name_of env p) a b g k) h

  store_people-AllKnown :
      (ps : List Person) (t t' : Tally) (db db' : Db)
      → store_people env source now id e t ps db ≡ done t' db'
      → AllKnown ps db'
  unfolding store_people
  store_people-AllKnown [] t t' db db' h = tt
  store_people-AllKnown (p ∷ ps) t t' db db' h =
      let (f, mid, k, l) = >>=-done (store_one env source now id e p) _ db t' db' h in
      (
        IsKnown-Grows id (name_of env p) mid db'
            (store_people-Adds env source now id e (counted t f) ps mid t' db' l)
            (store_one-IsKnown p db mid f k),
        store_people-AllKnown ps (counted t f) t' mid db' l,
      )

  store_people-not_new :
      (ps : List Person) (t t' : Tally) (db db' : Db)
      → AllKnown ps db
      → store_people env source now id e t ps db ≡ done t' db'
      → t'.new_people ≡ t.new_people
  unfolding store_people counted
  store_people-not_new [] t t' db db' known h = let same : t ≡ t' = cc in rw same refl
  store_people-not_new (p ∷ ps) t t' db db' known h =
      let (f, mid, k, l) = >>=-done (store_one env source now id e p) _ db t' db' h in
      let rest =
        store_people-not_new ps (counted t f) t' mid db'
          (AllKnown-Grows ps db mid (store_one-Adds env source now id e p db f mid k) known.1) l in
      rw (store_one-not_new p db mid f known.0 k) at rest

module _ (env : Env) (source : ℕ) (e : Event) where
  abbrev norm_of : Text
  norm_of = normalise_title env.unicode e.title

  -- What one resolution of the event leaves for the next: its row, and its people.
  record IsResolved (id : ℕ) (db : Db) : Type 0 where
    event : IsPlaced e norm_of id db.events
    people : All (λ (p : Person). IsKnown id (name_of env p) db) e.people

  -- The parts of a resolution that commits.
  pub record Parts (v : Verdict) (now : ℕ) (db db' : Db) (r : Resolved) : Type 0 where
    pub placed : Placed
    pub mid : Db
    pub later : Db
    pub place : place_event env v e now db ≡ done placed mid
    pub grows : Grows mid later
    pub people : store_people env source now placed.id e no_people e.people later ≡ done r.tally db'
    pub new : r.is_new ≡ placed.is_new

  pub parts :
      (v : Verdict) (now : ℕ) (db db' : Db) (r : Resolved)
      → resolve_event env v source e now db ≡ done r db'
      → Parts v now db db' r
  unfolding resolve_event store_around
  parts v now db db' r h =
      let (placed, mid, k, l) = >>=-done (place_event env v e now) _ db r db' h in
      let (tally, last, a, b) = >>=-done (store_around env source e now placed) _ mid r db' l in
      let at = sight source now (Seen.event_seen placed.id) placed.is_new mid in
      let (u, db₁, c, c') = >>=-done (store_venue env placed.id e) _ at tally last a in
      let (w, db₂, d, d') =
        >>=-done (store_organisers env source now placed.id e.city e.organisers) _ db₁ tally last
          c' in
      let same : last ≡ db' = cc in
      let made : record { kept = placed.kept; is_new = placed.is_new; tally = tally } ≡ r = cc in
      record {
        placed = placed;
        mid = mid;
        later = db₂;
        place = k;
        grows =
            Grows-trans mid at db₂
              (sight-Grows source now (Seen.event_seen placed.id) placed.is_new mid)
              (Grows-trans at db₁ db₂ (store_venue-Adds env placed.id e at u db₁ c)
                (store_organisers-Adds env source now placed.id e.city e.organisers db₁ w db₂ d));
        people = d' ∙ (let t : tally ≡ r.tally = ap (λ (x : Resolved). x.tally) made in cc);
        new = sym (ap (λ (x : Resolved). x.is_new) made);
      }

  -- A resolution that commits leaves the event resolved.
  resolved :
      (v : Verdict) (now id : ℕ) (db db' : Db) (r : Resolved)
      → IsAlone id e.url norm_of e.start db.events
      → resolve_event env v source e now db ≡ done r db'
      → (i : ℕ) × IsResolved i db'
  unfolding place_event
  resolved v now id db db' r a h =
      let p = parts v now db db' r h in
      let g = Grows-trans p.mid p.later db' p.grows (
        store_people-Adds env source now p.placed.id e no_people e.people p.later r.tally db'
          p.people) in
      let (there, alone) = place-IsPlaced env norm_of v e now db p.mid p.placed id a p.place in
      (
        p.placed.id,
        record {
          event = (
            g.events (matches e.url norm_of e.start) ∙ there,
            g.events (others p.placed.id e.url norm_of e.start) ∙ alone,
          );
          people =
              store_people-AllKnown env source now p.placed.id e e.people no_people r.tally p.later
                db' p.people;
        },
      )

  -- A resolution of an event that is resolved updates its row, and finds all its people.
  nothing_new :
      (v : Verdict) (now id : ℕ) (db db' : Db) (r : Resolved)
      → IsPlaced e norm_of id db.events
      → All (λ (p : Person). IsKnown id (name_of env p) db) e.people
      → resolve_event env v source e now db ≡ done r db'
      → (r.is_new ≡ false) × (r.tally.new_people ≡ 0)
  unfolding place_event
  nothing_new v now id db db' r event all h =
      let p = parts v now db db' r h in
      let (old, same) = place-again env norm_of v e now db p.mid p.placed id event p.place in
      let (people, apps) = place-keeps env norm_of v e now db p.mid p.placed p.place in
      let known = subst (λ (j : ℕ). AllKnown env source now j e e.people db) (sym same) all in
      let at_mid : AllKnown env source now p.placed.id e e.people p.mid = rw (people, apps) known in
      (
        p.new ∙ old,
        store_people-not_new env source now p.placed.id e e.people no_people r.tally p.later db'
            (AllKnown-Grows env source now p.placed.id e e.people p.mid p.later p.grows at_mid)
            p.people,
      )

-- The same, but the database reads rows in another order.
abbrev pub with_orders : Order EventRow → Order AppearanceRow → Env → Env
with_orders events appearances env = record env {
  event_order = events;
  appearance_order = appearances;
}

-- Where at most one row of the tables has the event's address or its start and title, and the event was
-- resolved, and the transaction committed, a second resolution of it that commits, at any later time,
-- in whatever order the database then reads rows and whatever Fit says, finds the event and all its
-- people: it reports no new event and no new person.
pub resolve_again :
    (env : Env) (source : ℕ) (e : Event) (id : ℕ) (events : Order EventRow)
    (appearances : Order AppearanceRow) (v v' : Verdict) (now now' : ℕ) (db mid db' : Db)
    (r r' : Resolved)
    → IsAlone id e.url (normalise_title env.unicode e.title) e.start db.events
    → resolve_event env v source e now db ≡ done r mid
    → resolve_event (with_orders events appearances env) v' source e now' mid ≡ done r' db'
    → (r'.is_new ≡ false) × (r'.tally.new_people ≡ 0)
resolve_again env source e id events appearances v v' now now' db mid db' r r' a h k =
    let (i, done_before) = resolved env source e v now id db mid r a h in
    nothing_new (with_orders events appearances env) source e v' now' i mid db' r' done_before.event
      done_before.people k
