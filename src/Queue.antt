-- ===== src/Queue.antt =====
-- internal/queue/queue.go: the job queue. The table `jobs` is a list of rows and the sequence of its
-- ids. Each SQL statement is one function on them, and each method runs its statements in turn; a
-- statement that the database refuses (a `Fault`) changes nothing and is the method's error.
-- Times and durations are microseconds.
pub mod Rows
pub mod Updates
pub mod Cases
pub mod Invariant
pub mod Claims
pub mod History
pub mod Leases
pub mod Finish
pub mod Backoff
pub mod Enqueues
pub mod Budget
pub mod Spent
pub mod Attempts
pub mod Stale
mod Examples
mod Types
unfoldable pub use Types.*
use speakertrail.Common.{
  ℕ, zero, suc, ◌+◌, ◌-◌, ◌*◌, min, Bool, true, false, ◌&&◌, ◌||◌, Option, none, some, List, [],
  ◌∷◌, ◌++◌, Text, bytes, text_eq, is_empty, length, get_or, leb, ◌==◌, if◌then◌else◌,
}
use Types.{
  Options, Job, Payload, no_payload, marshalled, marshal_error, NewJob, Error, missing_fields,
  bad_payload, store, lost_lease, Result, ok, err,
}
use Rows.{
  Status, queued, running, done, failed, is_running, is_finished, Row, update_where, count_where,
  lease_over, next_due,
}

-- The error that the database answers a statement with, if any.
abbrev pub Fault : Type 0
Fault = Option Text

pub record Queue : Type 0 where
  pub rows : List Row
  -- The next value of the identity column.
  pub next_id : ℕ

abbrev pub empty : Queue
empty = record { rows = []; next_id = 1 }

-- COALESCE(max_attempts, $n)
abbrev pub limit : Options → Row → ℕ
limit o r = elim r.max_attempts [ none ↦ o.max_attempts | some m ↦ m ]

abbrev null_if_zero : ℕ → Option ℕ
null_if_zero zero = none
null_if_zero (suc n) = some (suc n)

-- The conflict target (kind, key).
abbrev pub is_same : Text → Text → Row → Bool
is_same kind key r = text_eq r.kind kind && text_eq r.key key

unfoldable pub find_same : Text → Text → List Row → Option Row
find_same kind key [] = none
find_same kind key (r ∷ rs) =
    let rest = find_same kind key rs in if is_same kind key r then some r else rest

unfoldable pub inserted : ℕ → ℕ → Text → ℕ → NewJob → Row
inserted id now payload run_after j = record {
  id = id;
  kind = j.kind;
  key = j.key;
  payload = payload;
  status = queued;
  attempts = 0;
  max_attempts = null_if_zero j.max_attempts;
  run_after = run_after;
  locked_until = none;
  last_error = [];
  created_at = now;
  updated_at = now;
}

unfoldable pub requeued : ℕ → Text → ℕ → NewJob → Row → Row
requeued now payload run_after j r = record r {
  payload = payload;
  status = queued;
  attempts = 0;
  max_attempts = null_if_zero j.max_attempts;
  run_after = run_after;
  locked_until = none;
  last_error = [];
  updated_at = now;
}

-- INSERT … ON CONFLICT (kind, key) DO UPDATE … WHERE status IN ('done', 'failed') RETURNING id:
-- whether a row came back. The sequence moves on a conflict too.
unfoldable pub upsert : ℕ → Text → ℕ → NewJob → Queue → Queue × Bool
unfolding find_same inserted requeued
upsert now payload run_after j q = elim (find_same j.kind j.key q.rows) [
  | none ↦ (
    record {
      rows = q.rows ++ inserted q.next_id now payload run_after j ∷ [];
      next_id = suc q.next_id;
    },
    true,
  )
  | some r ↦ (
    record {
      rows =
          update_where (λ x. is_same j.kind j.key x && is_finished x.status)
            (requeued now payload run_after j) q.rows;
      next_id = suc q.next_id;
    },
    is_finished r.status,
  )
]

-- The payload as JSON, "{}" for nil.
encode : Payload → Result Text
encode no_payload = ok (bytes "{}")
encode (marshalled p) = ok p
encode (marshal_error e) = err (bad_payload e)

insert_job : Fault → ℕ → NewJob → Result Text → Queue → Queue × Result Bool
insert_job fault now j (err e) q = (q, err e)
insert_job (some e) now j (ok p) q = (q, err (store e))
insert_job none now j (ok p) q =
    let run_after : ℕ = elim j.run_after [ none ↦ now | some t ↦ t ] in
    let (q', added) = upsert now p run_after j q in (q', ok added)

-- Enqueue
unfoldable pub enqueue : Fault → ℕ → NewJob → Queue → Queue × Result Bool
unfolding encode insert_job
enqueue fault now j q =
    if is_empty j.kind || is_empty j.key
    then (q, err missing_fields)
    else insert_job fault now j (encode j.payload) q

abbrev pub is_expired : Options → ℕ → Row → Bool
is_expired o now r = is_running r.status && lease_over now r && leb (limit o r) r.attempts

abbrev pub expired : ℕ → Row → Row
expired now r = record r {
  status = failed;
  locked_until = none;
  updated_at = now;
  last_error = if is_empty r.last_error then bytes "lease expired" else r.last_error;
}

-- Claim's first statement: a job whose lease ran out on its last attempt will not run again.
unfoldable pub expire_leases : Options → ℕ → List Row → List Row
unfolding lease_over
expire_leases o now = update_where (is_expired o now) (expired now)

abbrev pub taken : Options → ℕ → Row → Row
taken o now r = record r {
  status = running;
  attempts = r.attempts + 1;
  locked_until = some (now + o.lease);
  updated_at = now;
}

abbrev pub job_of : Options → Row → Job
job_of o r = record {
  id = r.id;
  kind = r.kind;
  key = r.key;
  payload = r.payload;
  attempts = r.attempts;
  max_attempts = limit o r;
}

-- Claim's second statement: UPDATE … WHERE id = (SELECT …) RETURNING ….
unfoldable pub take_next : Options → ℕ → List Row → List Row × Option Job
unfolding next_due
take_next o now rows = elim (next_due now rows) [
  | none ↦ (rows, none)
  | some r ↦ (update_where (λ x. x.id == r.id) (taken o now) rows, some (job_of o (taken o now r)))
]

take_job : Options → Fault → ℕ → Queue → Queue × Result (Option Job)
take_job o (some e) now q = (q, err (store e))
take_job o none now q = let (rows, j) = take_next o now q.rows in (record q { rows = rows }, ok j)

-- Claim. The nil job is `none`.
unfoldable pub claim : Options → Fault → Fault → ℕ → Queue → Queue × Result (Option Job)
unfolding take_job
claim o (some e) fault now q = (q, err (store e))
claim o none fault now q = take_job o fault now (record q { rows = expire_leases o now q.rows })

-- WHERE id = $1 AND status = 'running' AND attempts = $2
abbrev pub is_held_by : Job → Row → Bool
is_held_by j r = r.id == j.id && is_running r.status && r.attempts == j.attempts

-- finish: an UPDATE that changed no row means that the lease is lost.
finish : Fault → Job → (Row → Row) → Queue → Queue × Result (Unit {0})
finish (some e) j f q = (q, err (store e))
finish none j f q = (
  record q { rows = update_where (is_held_by j) f q.rows },
  if count_where (is_held_by j) q.rows == 0 then err (lost_lease j.id) else ok tt,
)

abbrev completed : ℕ → Row → Row
completed now r = record r { status = done; locked_until = none; last_error = []; updated_at = now }

-- Complete
unfoldable pub complete : Fault → ℕ → Job → Queue → Queue × Result (Unit {0})
unfolding finish
complete fault now j = finish fault j (completed now)

-- backoff: the wait after the given failed attempt, counted from 1. `new` leaves no empty list.
unfoldable pub backoff : Options → ℕ → ℕ
backoff o attempt = get_or o.backoff (min (attempt - 1) (length o.backoff - 1)) 0

abbrev given_up : ℕ → Text → Row → Row
given_up now msg r = record r {
  status = failed;
  locked_until = none;
  last_error = msg;
  updated_at = now;
}

abbrev retried : ℕ → Text → ℕ → Row → Row
retried now msg wait r = record r {
  status = queued;
  locked_until = none;
  last_error = msg;
  run_after = now + wait;
  updated_at = now;
}

abbrev pub fail_limit : Options → Job → ℕ
fail_limit o j = if j.max_attempts == 0 then o.max_attempts else j.max_attempts

-- Fail. The nil cause is `none`.
unfoldable pub fail : Options → Fault → ℕ → Job → Option Text → Queue → Queue × Result (Unit {0})
unfolding finish backoff
fail o fault now j cause =
    let msg : Text = elim cause [ none ↦ bytes "unknown error" | some e ↦ e ] in
    if leb (fail_limit o j) j.attempts
    then finish fault j (given_up now msg)
    else finish fault j (retried now msg (backoff o j.attempts))
