-- ===== src/Resolve/Counts/Transaction.antt =====
-- internal/pipeline/resolve.go: what resolveEvent counts as new is what its transaction adds.
use speakertrail.Common.{
  ℕ, ◌+◌, ◌≡◌, refl, ap, Bool, true, false, Option, none, some, List, [], ◌∷◌, Text, bytes, inl,
  inr, arith, length-snoc, length-set_where, is_empty, Bool-cases,
}
use speakertrail.Resolve.Names.{parse_affiliation}
use speakertrail.Resolve.Tables.{EventRow, Seen, Db, exec}
use speakertrail.Resolve.Orgs.{kind_for_url}
use speakertrail.Resolve.People.{Person, Env, add_appearance, store_person, resolve_person}
use speakertrail.Resolve.Events.{
  Organiser, Event, Verdict, Placed, find_event, new_row, merged, insert_row, update_row, place,
  place_event,
}
use speakertrail.Resolve.Check.{
  sight, add_organising, set_venue, store_venue, store_organiser, store_organisers, store_one,
  store_people, store_around, resolve_event, Tally, counted, no_people, one_if,
}
use speakertrail.Resolve.Found.{write_row-done}
use speakertrail.Resolve.Counts.{
  Rows, Gains, Counts, IsQuiet, Gains-same, Counts-bind, Counts-pure, IsQuiet-bind, IsQuiet-exec,
  IsQuiet-pure, upsert_organisation-IsQuiet, find_or_insert-Counts, affiliate_named-IsQuiet,
  store_profiles-same,
}

-- The count after a person, and after people.
abbrev after_person : ℕ → ℕ → ℕ × Bool → Rows
after_person k n found = record { events = k; people = n + one_if found.1 }

abbrev after_people : ℕ → Tally → Rows
after_people k t = record { events = k; people = t.new_people }

store_person-Counts :
    (env : Env) (event : ℕ) (city : Text) (p : Person) (url : Text) (now : ℕ) (aff : Text × Text)
    (k n : ℕ)
    → Counts
        (record { events = k; people = n })
        (after_person k n)
        (store_person env event city p url now aff)
unfolding store_person add_appearance
store_person-Counts env event city p url now aff k n =
    Counts-bind _ _ _ (after_person k n) _ (find_or_insert-Counts env event _ _ city p now k n)
      (λ found.
        Counts-bind _ _ _ (λ _. after_person k n found) _
          (IsQuiet-exec _ (λ m db. Gains-same m db _ refl refl) _)
          (λ _.
            Counts-bind _ _ _ (λ _. after_person k n found) _
              (affiliate_named-IsQuiet env found.0 aff _)
              (λ _.
                Counts-bind _ _ _ (λ _. after_person k n found) _
                  (IsQuiet-exec _ (store_profiles-same env found.0 url now p.links) _)
                  (λ _. Counts-pure (after_person k n) found))))

sight-IsQuiet :
    (source now : ℕ) (seen : Seen) (is_new : Bool) → IsQuiet (exec (sight source now seen is_new))
unfolding sight
sight-IsQuiet source now seen is_new = IsQuiet-exec _ (λ n db. Gains-same n db _ refl refl)

store_one-Counts :
    (env : Env) (source now id : ℕ) (e : Event) (p : Person) (k n : ℕ)
    → Counts
        (record { events = k; people = n })
        (after_person k n)
        (store_one env source now id e p)
unfolding store_one resolve_person
store_one-Counts env source now id e p k n =
    Counts-bind _ _ _ (after_person k n) _
      (store_person-Counts env id e.city p e.url now (parse_affiliation env.patterns p.affiliation)
        k n)
      (λ found.
        Counts-bind _ _ _ (λ _. after_person k n found) _
          (sight-IsQuiet source now (Seen.person_seen found.0) found.1 _)
          (λ _. Counts-pure (after_person k n) found))

abbrev rows_of : ℕ → ℕ → Rows
rows_of k n = record { events = k; people = n }

counted-people :
    (k : ℕ) (t : Tally) (found : ℕ × Bool)
    → after_person k t.new_people found ≡ after_people k (counted t found)
unfolding counted
counted-people k t (id, true) = refl
counted-people k t (id, false) =
    let e : t.new_people + 0 ≡ t.new_people = omega arith in ap (λ (n : ℕ). rows_of k n) e

store_people-Counts :
    (env : Env) (source now id : ℕ) (e : Event) (k : ℕ) (t : Tally) (ps : List Person)
    → Counts (after_people k t) (after_people k) (store_people env source now id e t ps)
unfolding store_people
store_people-Counts env source now id e k t [] = Counts-pure (after_people k) t
store_people-Counts env source now id e k t (p ∷ ps) =
    Counts-bind _ _ _ (after_person k t.new_people) _
      (store_one-Counts env source now id e p k t.new_people)
      (λ found.
        rw (counted-people k t found)
          (store_people-Counts env source now id e k (counted t found) ps))

add_organising-IsQuiet :
    (org event : ℕ) (role : Text) → IsQuiet (exec (add_organising org event role))
unfolding add_organising
add_organising-IsQuiet org event role = IsQuiet-exec _ (λ n db. Gains-same n db _ refl refl)

set_venue-same : (id venue : ℕ) (n : Rows) (db : Db) → Gains n n db (set_venue id venue db)
unfolding set_venue
set_venue-same id venue n db = record {
  events = omega (arith, length-set_where {A = EventRow});
  people = refl;
}

store_venue-IsQuiet : (env : Env) (id : ℕ) (e : Event) → IsQuiet (store_venue env id e)
unfolding store_venue
store_venue-IsQuiet env id e = elim (Bool-cases (is_empty e.venue)) [
  | inl h ↦ rw h (IsQuiet-pure tt)
  | inr h ↦ rw h (
      IsQuiet-bind _ _
        (upsert_organisation-IsQuiet env.unicode env.parse e.venue (bytes "venue") [] e.city)
        (λ found.
          IsQuiet-bind _ _ (IsQuiet-exec _ (set_venue-same id found.0))
            (λ _. add_organising-IsQuiet found.0 id (bytes "venue"))))
]

store_organiser-IsQuiet :
    (env : Env) (source now id : ℕ) (city : Text) (o : Organiser)
    → IsQuiet (store_organiser env source now id city o)
unfolding store_organiser
store_organiser-IsQuiet env source now id city o =
    IsQuiet-bind _ _
      (upsert_organisation-IsQuiet env.unicode env.parse o.name (kind_for_url o.url) o.url city)
      (λ found.
        IsQuiet-bind _ _ (add_organising-IsQuiet found.0 id (bytes "organiser"))
          (λ _. sight-IsQuiet source now (Seen.organisation_seen found.0) found.1))

store_organisers-IsQuiet :
    (env : Env) (source now id : ℕ) (city : Text) (os : List Organiser)
    → IsQuiet (store_organisers env source now id city os)
unfolding store_organisers
store_organisers-IsQuiet env source now id city [] = IsQuiet-pure tt
store_organisers-IsQuiet env source now id city (o ∷ os) = elim (Bool-cases (is_empty o.name)) [
  | inl e ↦ rw e (store_organisers-IsQuiet env source now id city os)
  | inr e ↦ rw e (
      IsQuiet-bind _ _ (store_organiser-IsQuiet env source now id city o)
        (λ _. store_organisers-IsQuiet env source now id city os))
]

store_around-Counts :
    (env : Env) (source : ℕ) (e : Event) (now k : ℕ) (placed : Placed)
    → Counts
        (record { events = k; people = 0 })
        (after_people k)
        (store_around env source e now placed)
unfolding store_around
store_around-Counts env source e now k placed =
    let start : Rows = record { events = k; people = 0 } in
    Counts-bind _ _ _ (λ _. start) _
      (sight-IsQuiet source now (Seen.event_seen placed.id) placed.is_new _)
      (λ _.
        Counts-bind _ _ _ (λ _. start) _ (store_venue-IsQuiet env placed.id e _)
          (λ _.
            Counts-bind _ _ _ (λ _. start) _
              (store_organisers-IsQuiet env source now placed.id e.city e.organisers _)
              (λ _. store_people-Counts env source now placed.id e k no_people e.people)))

-- The count after the event's row.
abbrev after_row : Placed → Rows
after_row placed = record { events = one_if placed.is_new; people = 0 }

place-Counts :
    (e : Event) (norm : Text) (v : Verdict) (now : ℕ) (o : Option EventRow)
    → Counts (record { events = 0; people = 0 }) after_row (place e norm v now o)
unfolding place insert_row update_row
place-Counts e norm v now none db a db' h =
    let r = new_row db.next_event e norm v now in
    let q = write_row-done r _ a (insert_row r) db db' h in
    let k : true ≡ a.is_new = ap (λ (x : Placed). x.is_new) q.0 in
    rw (← q.1, ← k) (record { events = omega (arith, length-snoc db.events r); people = refl })
place-Counts e norm v now (some old) db a db' h =
    let r = merged e norm v now old in
    let q = write_row-done r _ a (update_row r) db db' h in
    let k : false ≡ a.is_new = ap (λ (x : Placed). x.is_new) q.0 in
    rw (← q.1, ← k)
      (record { events = omega (arith, length-set_where {A = EventRow}); people = refl })

-- The transaction of an event adds an event's row exactly if it calls the event new, and as many
-- people's rows as it counts new people.
pub resolve_event-Counts :
    (env : Env) (v : Verdict) (source : ℕ) (e : Event) (now : ℕ)
    → Counts
        (record { events = 0; people = 0 })
        (λ r. record { events = one_if r.is_new; people = r.tally.new_people })
        (resolve_event env v source e now)
unfolding resolve_event place_event
resolve_event-Counts env v source e now =
    Counts-bind _ _ _ after_row _
      (λ db. place-Counts e _ v now (find_event env.event_order e.url _ e.start db.events) db)
      (λ placed.
        Counts-bind _ _ _ (after_people (one_if placed.is_new)) _
          (store_around-Counts env source e now (one_if placed.is_new) placed)
          (λ tally. Counts-pure _ _))
