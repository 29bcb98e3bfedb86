-- ===== src/Resolve/Found.antt =====
-- internal/pipeline/resolve.go: which row findEvent finds, in whatever order the database reads the rows, and
-- what resolveEvent makes of it.
use speakertrail.Common.{
  Order, first_where-none, any_where-put, any_where-put_none, any_where-append, any_where-snoc,
  any_where-of_read, ◌&&◌, ◌||◌, ◌==◌, Bool, false, ℕ, ◌≡◌, refl, sym, ap, ◌∙◌, Bool, true, false,
  not, none, some, List, [], ◌∷◌, Text, inl, inr, any_where, first_where, arith, Bool-cases,
  Option-cases, text_eq, text_eq_refl, is_empty, ==_iff, any_where-of_first, first_where-holds,
}
use speakertrail.Resolve.Titles.{same_title}
use speakertrail.Resolve.Tables.{EventRow, Db, done}
use speakertrail.Resolve.People.{Env}
use speakertrail.Resolve.Events.{
  Event, Verdict, Placed, find_event, by_title, has_address, is_like, place, write_row, new_row,
  merged, is_event, insert_row, update_row, meets_checks, is_taken,
}
use speakertrail.Resolve.Frame.{Columns, reads}

-- A title is like itself.
same_title_refl : (t : Text) → same_title t t ≡ true
unfolding same_title
same_title_refl t = rw (text_eq_refl t) refl

-- What findEvent looks for: the address, if there is one, or the start and the title, or nearly.
abbrev pub matches : Text → Text → ℕ → Columns
matches url norm start id u title s =
    (not (is_empty url) && text_eq u url) || (s == start && same_title title norm)

-- The same, in a row with another id.
abbrev pub others : ℕ → Text → Text → ℕ → Columns
others own url norm start id u title s = matches url norm start id u title s && not (id == own)

-- No row but perhaps the one with the id is what findEvent looks for.
abbrev pub IsAlone : ℕ → Text → Text → ℕ → List EventRow → Type 0
IsAlone id url norm start rows = any_where (reads (others id url norm start)) rows ≡ false

abbrev IsThere : Text → Text → ℕ → List EventRow → Type 0
IsThere url norm start rows = any_where (reads (matches url norm start)) rows ≡ true

-- The row with the id, and no other, is what findEvent looks for.
abbrev pub IsPlaced : Event → Text → ℕ → List EventRow → Type 0
IsPlaced e norm id rows = IsThere e.url norm e.start rows × IsAlone id e.url norm e.start rows

-- The row that findEvent finds is one of the table, in whatever order the rows are read.
pub any_where-of_found :
    (order : Order EventRow) (url norm : Text) (start : ℕ) (rows : List EventRow) (old : EventRow)
    → find_event order url norm start rows ≡ some old
    → (q : EventRow → Bool) → q old ≡ true
    → any_where q rows ≡ true
unfolding find_event by_title
any_where-of_found order url norm start rows old h q k = elim (Bool-cases (is_empty url)) [
  | inl e ↦ any_where-of_read order (is_like norm start) q rows old (rw e at h) k
  | inr e ↦ elim (Option-cases (first_where (has_address url) rows)) [
    | inl n ↦ any_where-of_read order (is_like norm start) q rows old (rw (e, n) at h) k
    | inr (r, n) ↦
        let same : r ≡ old = (let g : some r ≡ some old = rw (e, n) at h in cc) in
        any_where-of_first (has_address url) q rows old (rw (← same) n) k
  ]
]

pub found-matches :
    (order : Order EventRow) (url norm : Text) (start : ℕ) (rows : List EventRow) (old : EventRow)
    → find_event order url norm start rows ≡ some old
    → reads (matches url norm start) old ≡ true
unfolding find_event by_title
found-matches order url norm start rows old h = elim (Bool-cases (is_empty url)) [
  | inl e ↦
      let like = first_where-holds (is_like norm start) (order.read rows) old (rw e at h) in
      ground arith
  | inr e ↦ elim (Option-cases (first_where (has_address url) rows)) [
    | inl n ↦
        let like = first_where-holds (is_like norm start) (order.read rows) old (rw (e, n) at h) in
        ground arith
    | inr (r, n) ↦
        let same : r ≡ old = (let g : some r ≡ some old = rw (e, n) at h in cc) in
        let has = first_where-holds (has_address url) rows old (rw (← same) n) in ground arith
  ]
]

-- Where no other row is what it looks for, findEvent finds the one with the id.
pub alone-found :
    (order : Order EventRow) (id : ℕ) (url norm : Text) (start : ℕ) (rows : List EventRow)
    (old : EventRow)
    → IsAlone id url norm start rows
    → find_event order url norm start rows ≡ some old
    → old.id ≡ id
alone-found order id url norm start rows old a h = elim (Bool-cases (old.id == id)) [
  | inl e ↦ (==_iff old.id id).0 e
  | inr e ↦
      let m = found-matches order url norm start rows old h in
      let other : reads (others id url norm start) old ≡ true = rw (m, e) refl in
      let there =
        any_where-of_found order url norm start rows old h (reads (others id url norm start))
          other in
      absurd (ground arith)
]

not_own : (b c : Bool) → c ≡ true → (b && not c) ≡ false
not_own b c h = ground arith

own-not_other :
    (id : ℕ) (url norm : Text) (start : ℕ) (r : EventRow)
    → r.id ≡ id
    → reads (others id url norm start) r ≡ false
own-not_other id url norm start r h =
    not_own (reads (matches url norm start) r) (r.id == id) ((==_iff r.id id).1 h)

matches-no_other :
    (id : ℕ) (url norm : Text) (start : ℕ) (rows : List EventRow)
    → any_where (reads (matches url norm start)) rows ≡ false
    → IsAlone id url norm start rows
unfolding any_where
matches-no_other id url norm start [] h = refl
matches-no_other id url norm start (r ∷ rows) h =
    let ih = matches-no_other id url norm start rows (ground arith) in
    let m : reads (matches url norm start) r ≡ false = ground arith in rw (m, ih) refl

-- No row has the one thing or the other, so none has what needs one of them.
neither :
    (p q m : EventRow → Bool) (rows : List EventRow)
    → ((r : EventRow) → p r ≡ false → q r ≡ false → m r ≡ false)
    → any_where p rows ≡ false
    → any_where q rows ≡ false
    → any_where m rows ≡ false
unfolding any_where
neither p q m [] w h k = refl
neither p q m (r ∷ rows) w h k =
    let ih = neither p q m rows w (ground arith) (ground arith) in
    let e = w r (ground arith) (ground arith) in rw (e, ih) refl

none-matches :
    (order : Order EventRow) (url norm : Text) (start : ℕ) (rows : List EventRow)
    → find_event order url norm start rows ≡ none
    → any_where (reads (matches url norm start)) rows ≡ false
unfolding find_event by_title
none-matches order url norm start rows h = elim (Bool-cases (is_empty url)) [
  | inl e ↦
      let like = unlike (rw e at h) in
      neither (is_like norm start) (is_like norm start) _ rows (λ r a b. rw (e, b) refl) like like
  | inr e ↦ elim (Option-cases (first_where (has_address url) rows)) [
    | inl n ↦
        neither (has_address url) (is_like norm start) _ rows (λ r a b. rw (a, b, e) refl)
          (first_where-none (has_address url) rows n) (unlike (rw (e, n) at h))
    | inr (r, n) ↦ absurd (let g : some r ≡ none = rw (e, n) at h in cc)
  ]
]
  where
    unlike :
        first_where (is_like norm start) (order.read rows) ≡ none
        → any_where (is_like norm start) rows ≡ false
    unlike n =
        sym (order.same (is_like norm start) rows)
        ∙ first_where-none (is_like norm start) (order.read rows) n

-- A write that is not refused is made.
pub write_row-done :
    (r : EventRow) (a b : Placed) (write : Db → Db) (db db' : Db)
    → write_row r a write db ≡ done b db'
    → (a ≡ b) × (write db ≡ db')
unfolding write_row
write_row-done r a b write db db' h = elim (Bool-cases (not (meets_checks r))) [
  | inl e ↦ absurd (ground arith)
  | inr e ↦ elim (Bool-cases (is_taken r db.events)) [
    | inl k ↦ absurd (ground arith)
    | inr k ↦ (ground arith, ground arith)
  ]
]

module _ (env : Env) (norm : Text) (v : Verdict) (e : Event) (now : ℕ) (db db' : Db)
    (placed : Placed) where
  like :
      (r : EventRow)
      → r.starts_at ≡ e.start
      → r.normalised_title ≡ norm
      → reads (matches e.url norm e.start) r ≡ true
  like r s n = rw (s, n, same_title_refl norm, (==_iff e.start e.start).1 refl) (ground arith)

  inserted :
      find_event env.event_order e.url norm e.start db.events ≡ none
      → place e norm v now none db ≡ done placed db'
      → IsPlaced e norm placed.id db'.events
  unfolding place insert_row new_row
  inserted n k =
      let r = new_row db.next_event e norm v now in
      let (p, q) = write_row-done r _ placed (insert_row r) db db' k in
      let i : db.next_event ≡ placed.id = ap (λ (x : Placed). x.id) p in
      let none_there =
        matches-no_other placed.id e.url norm e.start db.events
          (none-matches env.event_order e.url norm e.start db.events n) in
      let self : reads (others placed.id e.url norm e.start) r ≡ false =
        own-not_other placed.id e.url norm e.start r i in
      rw (← q) (
        any_where-snoc (reads (matches e.url norm e.start)) db.events r (like r refl refl),
        any_where-append (reads (others placed.id e.url norm e.start)) db.events (r ∷ [])
            ∙ rw (none_there, self) refl,
      )

  updated :
      (id : ℕ) (old : EventRow)
      → IsAlone id e.url norm e.start db.events
      → find_event env.event_order e.url norm e.start db.events ≡ some old
      → place e norm v now (some old) db ≡ done placed db'
      → IsPlaced e norm placed.id db'.events
  unfolding place update_row merged
  updated id old alone n k =
      let r = merged e norm v now old in
      let (p, q) = write_row-done r _ placed (update_row r) db db' k in
      let i : old.id ≡ placed.id = ap (λ (x : Placed). x.id) p in
      let j : id ≡ placed.id =
        sym (alone-found env.event_order id e.url norm e.start db.events old alone n) ∙ i in
      let alone' : IsAlone placed.id e.url norm e.start db.events = rw (← j) alone in
      let there =
        any_where-of_found env.event_order e.url norm e.start db.events old n (is_event old.id)
          ((==_iff old.id old.id).1 refl) in
      rw (← q) (
        any_where-put (is_event old.id) (reads (matches e.url norm e.start)) db.events r there
            (like r refl refl),
        any_where-put_none (is_event old.id) (reads (others placed.id e.url norm e.start)) db.events
            r alone' (own-not_other placed.id e.url norm e.start r i),
      )

  -- resolveEvent leaves a row that findEvent finds for the event, and no other that it might find,
  -- where there was at most one.
  pub place-IsPlaced :
      (id : ℕ)
      → IsAlone id e.url norm e.start db.events
      → place e norm v now (find_event env.event_order e.url norm e.start db.events) db
        ≡ done placed db'
      → IsPlaced e norm placed.id db'.events
  place-IsPlaced id a h =
      elim (Option-cases (find_event env.event_order e.url norm e.start db.events)) [
        | inl n ↦ inserted n (rw n at h)
        | inr (old, n) ↦ updated id old a n (rw n at h)
      ]

  -- The row that is there is updated, and its id stays.
  pub place-again :
      (id : ℕ)
      → IsPlaced e norm id db.events
      → place e norm v now (find_event env.event_order e.url norm e.start db.events) db
        ≡ done placed db'
      → (placed.is_new ≡ false) × (placed.id ≡ id)
  unfolding place
  place-again id (there, alone) h =
      elim (Option-cases (find_event env.event_order e.url norm e.start db.events)) [
        | inl n ↦
            let m = none-matches env.event_order e.url norm e.start db.events n in
            absurd (ground arith)
        | inr (old, n) ↦
            let k =
              write_row-done (merged e norm v now old) _ placed
                (update_row (merged e norm v now old)) db db' (rw n at h) in
            (
              sym (ap (λ (x : Placed). x.is_new) k.0),
              sym (ap (λ (x : Placed). x.id) k.0)
                  ∙ alone-found env.event_order id e.url norm e.start db.events old alone n,
            )
      ]

-- The row of the event is all that is written up to there.
pub place-keeps :
    (env : Env) (norm : Text) (v : Verdict) (e : Event) (now : ℕ) (db db' : Db) (placed : Placed)
    → place e norm v now (find_event env.event_order e.url norm e.start db.events) db
      ≡ done placed db'
    → (db'.people ≡ db.people) × (db'.appearances ≡ db.appearances)
unfolding place insert_row update_row
place-keeps env norm v e now db db' placed h =
    elim (Option-cases (find_event env.event_order e.url norm e.start db.events)) [
      | inl n ↦
          let r = new_row db.next_event e norm v now in
          let q = write_row-done r _ placed (insert_row r) db db' (rw n at h) in
          (rw (← q.1) refl, rw (← q.1) refl)
      | inr (old, n) ↦
          let r = merged e norm v now old in
          let q = write_row-done r _ placed (update_row r) db db' (rw n at h) in
          (rw (← q.1) refl, rw (← q.1) refl)
    ]
