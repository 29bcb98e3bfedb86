-- ===== src/Queue/Rows.antt =====
-- The rows of the table `jobs` and the parts of SQL that queue.go's statements use: UPDATE with a
-- WHERE clause, the number of rows that it changed, and ORDER BY run_after, id LIMIT 1.
use speakertrail.Common.{
  ℕ, suc, Bool, true, false, ◌&&◌, ◌||◌, Option, none, some, List, [], ◌∷◌, Text, ltb, leb, ◌==◌,
  if◌then◌else◌,
}

pub data Status : Type 0 where
  queued running done failed : Status

abbrev pub is_queued : Status → Bool
is_queued queued = true
is_queued _ = false

abbrev pub is_running : Status → Bool
is_running running = true
is_running _ = false

abbrev pub is_done : Status → Bool
is_done done = true
is_done _ = false

-- status IN ('done', 'failed')
abbrev pub is_finished : Status → Bool
is_finished done = true
is_finished failed = true
is_finished _ = false

pub record Row : Type 0 where
  pub id : ℕ
  pub kind : Text
  pub key : Text
  pub payload : Text
  pub status : Status
  pub attempts : ℕ
  pub max_attempts : Option ℕ
  pub run_after : ℕ
  pub locked_until : Option ℕ
  pub last_error : Text
  pub created_at : ℕ
  pub updated_at : ℕ

-- UPDATE jobs SET … WHERE …
abbrev pub update_where : (Row → Bool) → (Row → Row) → List Row → List Row
update_where p f [] = []
update_where p f (r ∷ rs) = (if p r then f r else r) ∷ update_where p f rs

-- The number of rows that such a statement changes.
abbrev pub count_where : (Row → Bool) → List Row → ℕ
count_where p [] = 0
count_where p (r ∷ rs) = let n = count_where p rs in if p r then suc n else n

-- locked_until < now, which is not true where locked_until is NULL.
unfoldable pub lease_over : ℕ → Row → Bool
lease_over now r = elim r.locked_until [ none ↦ false | some t ↦ ltb t now ]

-- The WHERE clause of the claim's inner SELECT.
unfoldable pub is_due : ℕ → Row → Bool
unfolding lease_over
is_due now r =
    (is_queued r.status && leb r.run_after now) || (is_running r.status && lease_over now r)

-- Whether a stands before b in ORDER BY run_after, id.
abbrev pub is_before : Row → Row → Bool
is_before a b = ltb a.run_after b.run_after || (a.run_after == b.run_after && ltb a.id b.id)

abbrev first_of_two : Row → Option Row → Row
first_of_two r none = r
first_of_two r (some b) = if is_before b r then b else r

-- SELECT … WHERE is_due ORDER BY run_after, id LIMIT 1
unfoldable pub next_due : ℕ → List Row → Option Row
next_due now [] = none
next_due now (r ∷ rs) =
    let best = next_due now rs in if is_due now r then some (first_of_two r best) else best
