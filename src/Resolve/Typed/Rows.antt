-- ===== src/Resolve/Typed/Rows.antt =====
-- internal/pipeline/resolve.go: the enumerations of the row of an event, as it is found and written.
use speakertrail.Common.{
  Order, true, false, not, All, arith, ℕ, ◌≡◌, refl, Bool, some, List, [], ◌∷◌, Text, inl, inr,
  Bool-cases, text_eq, any_where,
}
use speakertrail.Resolve.Names.{is_one_of}
use speakertrail.Resolve.Tables.{EventRow, Db, done}
use speakertrail.Resolve.Events.{
  find_event, fit_word, write_row, meets_checks, Event, Verdict, Placed, merged,
}
use speakertrail.Resolve.Found.{any_where-of_found}
use speakertrail.Resolve.Typed.{IsTypedEvent, event_fits, IsOneOf}

pub fit_word-IsOneOf : (kept : Bool) → IsOneOf event_fits (fit_word kept)
unfolding fit_word is_one_of text_eq
fit_word-IsOneOf true = refl
fit_word-IsOneOf false = refl

pub merged-fit :
    (e : Event) (norm : Text) (v : Verdict) (now : ℕ) (old : EventRow)
    → IsOneOf event_fits old.fit
    → IsOneOf event_fits (merged e norm v now old).fit
unfolding merged
merged-fit e norm v now old h = elim (Bool-cases old.fit_manual) [
  | inl m ↦ rw m h
  | inr m ↦ rw m (fit_word-IsOneOf v.0)
]

-- The CHECKs hold of a row that is written.
pub written-IsTypedEvent :
    (r : EventRow) (a b : Placed) (write : Db → Db) (db db' : Db)
    → write_row r a write db ≡ done b db'
    → IsOneOf event_fits r.fit
    → IsTypedEvent r
unfolding write_row meets_checks
written-IsTypedEvent r a b write db db' h f = elim (Bool-cases (meets_checks r)) [
  | inl e ↦ (ground arith, ground arith, f)
  | inr e ↦ absurd (ground arith)
]

-- No row has a fit outside of the enumeration.
any_where-not_fits :
    (rows : List EventRow)
    → All IsTypedEvent rows
    → any_where (λ (r : EventRow). not (is_one_of r.fit event_fits)) rows ≡ false
unfolding any_where
any_where-not_fits [] h = refl
any_where-not_fits (r ∷ rows) h = let ih = any_where-not_fits rows h.1 in rw (h.0.2, ih) refl

pub found-fit :
    (order : Order EventRow) (url norm : Text) (start : ℕ) (rows : List EventRow) (old : EventRow)
    → All IsTypedEvent rows
    → find_event order url norm start rows ≡ some old
    → IsOneOf event_fits old.fit
found-fit order url norm start rows old t h = elim (Bool-cases (is_one_of old.fit event_fits)) [
  | inl e ↦ e
  | inr e ↦
      let there =
        any_where-of_found order url norm start rows old h
          (λ (r : EventRow). not (is_one_of r.fit event_fits)) (rw e refl) in
      let none_there = any_where-not_fits rows t in absurd (ground arith)
]
