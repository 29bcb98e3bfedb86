-- ===== src/Search.antt =====
-- internal/search/pool.go: searches are spread over providers within their monthly budgets. The table
-- `search_calls` is a list of rows, and a provider's budget is its setting. A reservation holds the
-- provider's lock, so it is one step. The start of the month in Berlin is a parameter, since the time
-- zone database is. Times are microseconds.
pub mod Budgets
pub mod Failover
mod Examples
use speakertrail.Common.{
  ℕ, zero, suc, ◌+◌, ◌*◌, Bool, true, false, not, ◌&&◌, Option, none, some, List, [], ◌∷◌, ◌++◌,
  Text, bytes, text_eq, ltb, leb, ◌==◌, if◌then◌else◌,
}

-- A row of search_calls.
pub record Call : Type 0 where
  pub id : ℕ
  pub provider : Text
  pub query : Text
  pub called_at : ℕ
  pub results : ℕ
  pub error : Text

pub record Pool : Type 0 where
  pub calls : List Call
  pub next_id : ℕ
  -- The settings <provider>_monthly_searches, 0 if missing.
  pub budget : Text → ℕ

-- count(*) … WHERE provider = $1 AND called_at >= $2
unfoldable pub used : Text → ℕ → List Call → ℕ
used name month [] = 0
used name month (c ∷ cs) =
    let n = used name month cs in
    if text_eq c.provider name && leb month c.called_at then suc n else n

abbrev pub new_call : ℕ → ℕ → Text → Text → Call
new_call id now name query = record {
  id = id;
  provider = name;
  query = query;
  called_at = now;
  results = 0;
  error = [];
}

-- reserve, without a fault: the id of the new row, or nothing if the budget is spent.
unfoldable pub reserve : ℕ → ℕ → Text → Text → Pool → Pool × Option ℕ
unfolding used
reserve month now name query db =
    if leb (db.budget name) (used name month db.calls) then (db, none) else (
      record db {
        calls = db.calls ++ new_call db.next_id now name query ∷ [];
        next_id = suc db.next_id;
      },
      some db.next_id,
    )

-- A provider's answer to one call: how many results it gave, with the error of a failed call.
pub data Answer : Type 0 where
  found : ℕ → Answer
  failed : ℕ → Text → Answer

pub data Error : Type 0 where
  store : Text → Error
  -- errors.Join of the providers' errors
  all_failed : List Text → Error
  no_budget : Error

pub data Result {ℓ} (A : Type ℓ) : Type ℓ where
  ok : A → Result A
  err : Error → Result A

-- What happens at each turn of the loop in `try`.
pub record World : Type 0 where
  pub month : ℕ → ℕ
  pub now : ℕ → ℕ
  pub reserve_fault : ℕ → Option Text
  pub answer : ℕ → Text → Answer
  pub record_fault : ℕ → Option Text

abbrev outcome_of : Answer → Call → Call
outcome_of (found n) c = record c { results = n; error = [] }
outcome_of (failed n e) c = record c { results = n; error = e }

-- UPDATE search_calls SET results = $2, error = $3 WHERE id = $1
unfoldable pub record_outcome : ℕ → Answer → List Call → List Call
record_outcome id a [] = []
record_outcome id a (c ∷ cs) =
    let rest = record_outcome id a cs in (if c.id == id then outcome_of a c else c) ∷ rest

abbrev pub recorded : ℕ → Answer → Pool → Pool
recorded id a db = record db { calls = record_outcome id a db.calls }

abbrev ended : List Text → Result Text
ended [] = err no_budget
ended (e ∷ es) = err (all_failed (e ∷ es))

-- The loop of `try` over the providers in their order, from turn i on, with the errors so far.
unfoldable pub try_each : World → Text → ℕ → List Text → List Text → Pool → Pool × Result Text
unfolding reserve record_outcome
try_each w query i errs [] db = (db, ended errs)
try_each w query i errs (p ∷ ps) db = elim (w.reserve_fault i) [
  | some e ↦ (db, err (store e))
  | none ↦
      let (db', id) = reserve (w.month i) (w.now i) p query db in
      elim id [
        | none ↦ try_each w query (suc i) errs ps db'
        | some id ↦ elim (w.record_fault i) [
          | some e ↦ (db', err (store e))
          | none ↦ elim (w.answer i p) [
            | found n ↦ (recorded id (found n) db', ok p)
            | failed n e ↦
                try_each w query (suc i) (errs ++ e ∷ []) ps (recorded id (failed n e) db')
          ]
        ]
      ]
]

-- Known
abbrev pub known : List Text
known = bytes "exa" ∷ bytes "tavily" ∷ bytes "brave" ∷ []

abbrev contains_text : Text → List Text → Bool
contains_text t [] = false
contains_text t (x ∷ xs) = let rest = contains_text t xs in if text_eq x t then true else rest

-- The used share of a provider's budget as a fraction. What has no share left in `left`, since it has
-- no budget or is not known, counts as used up.
unfoldable pub share : ℕ → Pool → Text → ℕ × ℕ
unfolding used
share month db name =
    if contains_text name known && not (db.budget name == 0)
    then (used name month db.calls, db.budget name)
    else (1, 1)

-- left[a] > left[b], of the exact shares.
abbrev pub has_more : ℕ → Pool → Text → Text → Bool
has_more month db a b =
    let (ua, ba) = share month db a in let (ub, bb) = share month db b in ltb (ua * bb) (ub * ba)

unfoldable pub place : ℕ → Pool → Text → List Text → List Text
place month db p [] = p ∷ []
place month db p (q ∷ qs) =
    let rest = place month db p qs in if has_more month db q p then q ∷ rest else p ∷ q ∷ qs

-- slices.SortStableFunc by the share left, the largest first
unfoldable pub order : ℕ → Pool → List Text → List Text
unfolding place
order month db [] = []
order month db (p ∷ ps) = place month db p (order month db ps)

-- try. `fault` is the error of Usage, which runs at the turn 0, before the loop.
unfoldable pub try_providers :
    World → Option Text → ℕ → Text → List Text → Pool → Pool × Result Text
unfolding order try_each
try_providers w (some e) month query providers db = (db, err (store e))
try_providers w none month query providers db = try_each w query 0 [] (order month db providers) db
