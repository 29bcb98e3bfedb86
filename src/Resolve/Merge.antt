-- ===== src/Resolve/Merge.antt =====
-- internal/pipeline/resolve.go: what merging an event into its row keeps, and when the table refuses it.
use speakertrail.Common.{
  Order, ℕ, ◌<◌, ◌≡◌, refl, sym, ap, ◌∙◌, Bool, true, false, none, some, List, ◌∷◌, Text, bytes,
  text_eq, arith, ==_iff, first_where, set_where, first_where-set_self, any_where,
}
use speakertrail.Fit.{FitRules, fit}
use speakertrail.Resolve.Titles.{normalise_title}
use speakertrail.Resolve.Tables.{EventRow, Db, Refused, check_violated, done, refused, ◌>>=◌}
use speakertrail.Resolve.People.{Env}
use speakertrail.Resolve.Events.{
  Event, Verdict, Placed, find_event, place_event, place, merged, meets_checks, ends_in_time,
  or_old_end, write_row, update_row, is_event,
}
use speakertrail.Resolve.Check.{
  Source, prepared, with_city, resolve_event, in_tx, resolve_from, resolve, to_fit,
}
use speakertrail.Resolve.Found.{write_row-done, any_where-of_found}

-- The row that findEvent finds is one of the table.
found-there :
    (order : Order EventRow) (url norm : Text) (start : ℕ) (rows : List EventRow) (old : EventRow)
    → find_event order url norm start rows ≡ some old
    → any_where (is_event old.id) rows ≡ true
found-there order url norm start rows old h =
    any_where-of_found order url norm start rows old h (is_event old.id)
      ((==_iff old.id old.id).1 refl)

-- The end of an event may not lie before its start.
ends_early : (r : EventRow) → ends_in_time r.starts_at r.ends_at ≡ false → meets_checks r ≡ false
unfolding meets_checks
ends_early r h = ground arith

module _ (env : Env) (v : Verdict) (e : Event) (now : ℕ) (db : Db) (old : EventRow) where
  abbrev IsFound : Type 0
  IsFound =
      find_event env.event_order e.url (normalise_title env.unicode e.title) e.start db.events
      ≡ some old

  moved-refused :
      (end : ℕ)
      → IsFound
      → old.ends_at ≡ some end
      → e.end ≡ none
      → end < e.start
      → place_event env v e now db ≡ refused check_violated
  unfolding place_event place write_row merged ends_in_time
  moved-refused end f o n lt =
      let r = merged e (normalise_title env.unicode e.title) v now old in
      let late : ends_in_time e.start (or_old_end e.end old.ends_at) ≡ false =
        rw (n, o) (ground arith) in
      rw (f, ends_early r late) refl

  -- Tim's decision wins: a row that he decided about keeps what he decided and why, whatever Fit
  -- says of the event, and the event counts as kept exactly if the row says so.
  pub manual_stays :
      (db' : Db) (placed : Placed)
      → IsFound
      → old.fit_manual ≡ true
      → place_event env v e now db ≡ done placed db'
      → (placed.kept ≡ text_eq old.fit (bytes "kept"))
        × ((r : EventRow) × (first_where (is_event old.id) db'.events ≡ some r)
            × (r.fit ≡ old.fit)
            × (r.fit_reason ≡ old.fit_reason)
            × (r.fit_manual ≡ true))
  unfolding place_event place merged update_row
  manual_stays db' placed f m h =
      let r = merged e (normalise_title env.unicode e.title) v now old in
      let q = write_row-done r _ placed (update_row r) db db' (rw f at h) in
      let kept : text_eq r.fit (bytes "kept") ≡ placed.kept = ap (λ (x : Placed). x.kept) q.0 in
      let there =
        found-there env.event_order e.url (normalise_title env.unicode e.title) e.start db.events
          old f in
      let same : text_eq r.fit (bytes "kept") ≡ text_eq old.fit (bytes "kept") = rw m refl in
      let found : first_where (is_event old.id) (set_where (is_event old.id) (λ _. r) db.events)
          ≡ some r =
        first_where-set_self (is_event old.id) db.events r there ((==_iff old.id old.id).1 refl) in
      (sym kept ∙ same, (r, rw (← q.1) found, rw m refl, rw m refl, m))

-- Neither the city nor the address of an event says what it is called and when it is.
prepared-times :
    (src : Source) (e : Event)
    → ((prepared src e).end ≡ e.end)
      × ((prepared src e).start ≡ e.start)
      × ((prepared src e).title ≡ e.title)
unfolding prepared with_city
prepared-times src e = (ground arith, ground arith, ground arith)

module _ (env : Env) (has : Text → Text → Bool) (rules : FitRules) (src : Source) (now : ℕ) where
  refused-at_once :
      (e : Event) (db : Db) (why : Refused)
      → place_event env (fit has rules (to_fit e)) e now db ≡ refused why
      → in_tx env has rules src now e db ≡ refused why
  unfolding in_tx resolve_event
  refused-at_once e db why h = rw (h, ◌>>=◌) refl

  stopped :
      (db : Db) (e : Event) (es : List Event) (why : Refused)
      → in_tx env has rules src now (prepared src e) db ≡ refused why
      → ((resolve env has rules src now db (e ∷ es)).db ≡ db)
        × ((resolve env has rules src now db (e ∷ es)).trouble
            ≡ some (record { title = e.title; why = why }))
  unfolding resolve resolve_from
  stopped db e es why h = (ground arith, ground arith)

  -- An event whose row has an end, and which has since moved to a start after that end with no end
  -- of its own, cannot be stored: the row keeps its old end, which the table's CHECK refuses. So
  -- the check ends there with an error, and stores neither the event nor any that comes after it.
  pub moved_event_refused :
      (db : Db) (e : Event) (es : List Event) (old : EventRow) (end : ℕ)
      → find_event env.event_order
          (prepared src e).url
          (normalise_title env.unicode e.title)
          e.start
          db.events
        ≡ some old
      → old.ends_at ≡ some end
      → e.end ≡ none
      → end < e.start
      → ((resolve env has rules src now db (e ∷ es)).db ≡ db)
        × ((resolve env has rules src now db (e ∷ es)).trouble
            ≡ some (record { title = e.title; why = check_violated }))
  moved_event_refused db e es old end f o n lt =
      let (t, u, w) = prepared-times src e in
      let v = fit has rules (to_fit (prepared src e)) in
      let lt' : end < (prepared src e).start = rw u lt in
      let r = moved-refused env v (prepared src e) now db old end (rw (u, w) f) o (t ∙ n) lt' in
      stopped db e es check_violated (refused-at_once (prepared src e) db check_violated r)
