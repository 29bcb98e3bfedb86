-- ===== src/Runs.antt =====
-- internal/pipeline/schedule.go: how a run starts, ends, is stopped by hand, and is ended when the app
-- restarts. The table `runs` is a list of rows beside the job queue; a run owns the jobs whose key
-- starts with its number. Each SQL statement is one step, and a refused one is the method's error.
-- Times are microseconds.
pub mod Keys
pub mod History
pub mod Final
pub mod Stops
mod Examples
use speakertrail.Common.{
  ℕ, zero, suc, ◌+◌, Bool, true, false, not, ◌&&◌, ◌||◌, Option, none, some, List, [], ◌∷◌, ◌++◌,
  Text, bytes, text_eq, is_empty, is_some, after_prefix, has_prefix, leb, ◌==◌, if◌then◌else◌,
}
use speakertrail.Common.Decimal.{decimal, value_from}
use speakertrail.Queue.Rows.{Row, Status, failed, is_queued, is_running, update_where}
use speakertrail.Queue.{
  Queue, Fault, NewJob, marshalled, Options, Error, store, Result, ok, err, enqueue,
}

-- The column `ended`: '', 'finished', 'stopped' or 'restart'.
pub data Ended : Type 0 where
  not_ended finished stopped restart : Ended

abbrev pub is_open : Ended → Bool
is_open not_ended = true
is_open _ = false

pub record Run : Type 0 where
  pub id : ℕ
  pub kind : Text
  pub started_at : ℕ
  pub finished_at : Option ℕ
  pub ended : Ended

pub record Store : Type 0 where
  pub queue : Queue
  pub runs : List Run
  -- The next value of the identity column of runs.
  pub next_run : ℕ

-- UPDATE runs SET … WHERE …
abbrev pub update_runs : (Run → Bool) → (Run → Run) → List Run → List Run
update_runs p f [] = []
update_runs p f (r ∷ rs) = (if p r then f r else r) ∷ update_runs p f rs

abbrev pub count_runs : (Run → Bool) → List Run → ℕ
count_runs p [] = 0
count_runs p (r ∷ rs) = let n = count_runs p rs in if p r then suc n else n

-- StartRun
unfoldable pub start_run : Fault → Text → ℕ → Store → Store × Result ℕ
start_run (some e) kind now db = (db, err (store e))
start_run none kind now db = (
  record db {
    runs =
        db.runs
        ++ record {
          id = db.next_run;
          kind = kind;
          started_at = now;
          finished_at = none;
          ended = not_ended;
        }
          ∷ [];
    next_run = suc db.next_run;
  },
  ok db.next_run,
)

abbrev pub ends : Ended → ℕ → Run → Run
ends how now r = record r { finished_at = some now; ended = how }

-- WHERE id = $1 AND ended = ''
abbrev pub is_open_run : ℕ → Run → Bool
is_open_run id r = r.id == id && is_open r.ended

-- FinishRun
unfoldable pub finish_run : Fault → ℕ → ℕ → Store → Store × Result (Unit {0})
finish_run (some e) id now db = (db, err (store e))
finish_run none id now db =
    (record db { runs = update_runs (is_open_run id) (ends finished now) db.runs }, ok tt)

abbrev is_cut : Ended → Bool
is_cut stopped = true
is_cut restart = true
is_cut _ = false

-- SELECT ended IN ('stopped', 'restart') FROM runs WHERE id = $1, false for no row.
abbrev cut_short : ℕ → List Run → Bool
cut_short id [] = false
cut_short id (r ∷ rs) = let rest = cut_short id rs in if r.id == id then is_cut r.ended else rest

-- ended
unfoldable pub has_ended : Fault → ℕ → Store → Result Bool
has_ended fault zero db = ok false
has_ended (some e) (suc id) db = err (store e)
has_ended none (suc id) db = ok (cut_short (suc id) db.runs)

-- 'run:' || id || ':'
abbrev pub run_key : ℕ → Text
run_key id = bytes "run:" ++ (decimal id ++ bytes ":")

-- key LIKE 'run:' || id || ':%'
abbrev pub is_of_run : ℕ → Row → Bool
is_of_run id r = has_prefix (run_key id) r.key

-- status IN ('queued', 'running')
abbrev pub is_live : Row → Bool
is_live r = is_queued r.status || is_running r.status

abbrev pub dropped : ℕ → Text → Row → Row
dropped now why r = record r {
  status = failed;
  last_error = why;
  locked_until = none;
  updated_at = now;
}

abbrev pub with_rows : List Row → Store → Store
with_rows rows db = record db { queue = record db.queue { rows = rows } }

-- status = 'queued' AND key LIKE …
abbrev pub is_waiting_for : ℕ → Row → Bool
is_waiting_for id r = is_queued r.status && is_of_run id r

-- dropQueued
unfoldable pub drop_queued : Fault → ℕ → ℕ → Text → Store → Store × Result (Unit {0})
drop_queued (some e) id now why db = (db, err (store e))
drop_queued none id now why db =
    (with_rows (update_where (is_waiting_for id) (dropped now why) db.queue.rows) db, ok tt)

-- EXISTS (SELECT 1 FROM jobs …)
abbrev any_row : (Row → Bool) → List Row → Bool
any_row p [] = false
any_row p (r ∷ rs) = p r || any_row p rs

abbrev has_work : ℕ → List Row → Bool
has_work id = any_row (λ r. is_live r && is_of_run id r)

-- The WHERE clause of StopRun.
abbrev pub is_stoppable : ℕ → List Row → Run → Bool
is_stoppable id rows r =
    r.id == id && not (is_some r.finished_at) && is_open r.ended && has_work r.id rows

abbrev as_stopped : Store × Result (Unit {0}) → Store × Result Bool
as_stopped (db, err e) = (db, err e)
as_stopped (db, ok u) = (db, ok true)

stop_rest : Fault → ℕ → ℕ → ℕ → Store → Store × Result Bool
unfolding drop_queued
stop_rest fault zero id now db = (db, ok false)
stop_rest fault (suc n) id now db =
    as_stopped (drop_queued fault id now (bytes "stopped by hand") db)

-- StopRun
unfoldable pub stop_run : Fault → Fault → ℕ → ℕ → Store → Store × Result Bool
unfolding stop_rest
stop_run (some e) fault id now db = (db, err (store e))
stop_run none fault id now db =
    stop_rest fault (count_runs (is_stoppable id db.queue.rows) db.runs) id now
      (record db { runs = update_runs (is_stoppable id db.queue.rows) (ends stopped now) db.runs })

-- split_part(key, ':', 2)::bigint of a key that starts with 'run:'. What is not a number in digits
-- is an error of the statement.
up_to_colon : Text → Text
up_to_colon [] = []
up_to_colon (c ∷ cs) = let rest = up_to_colon cs in if c == b':' then [] else c ∷ rest

all_digits : Text → Bool
all_digits [] = true
all_digits (c ∷ cs) = leb 48 c && leb c 57 && all_digits cs

digits_value : Text → Option ℕ
unfolding all_digits
digits_value s = if not (is_empty s) && all_digits s then some (value_from 0 s) else none

unfoldable pub number_of : Text → Option ℕ
unfolding up_to_colon digits_value
number_of key = elim (after_prefix (bytes "run:") key) [
  | none ↦ none
  | some r ↦ digits_value (up_to_colon r)
]

-- KindCheckSource, KindReadEvent, KindLookUp
abbrev pub is_step_kind : Text → Bool
is_step_kind k =
    text_eq k (bytes "check_source")
    || text_eq k (bytes "read_event")
    || text_eq k (bytes "look_up_startup")

-- The WHERE clause of EndInterrupted.
abbrev pub is_interrupted : Row → Bool
is_interrupted r = is_step_kind r.kind && is_live r && has_prefix (bytes "run:") r.key

and_then : Option ℕ → Option (List ℕ) → Option (List ℕ)
and_then none rest = none
and_then (some n) none = none
and_then (some n) (some ns) = some (n ∷ ns)

-- RETURNING: the runs of the jobs, `none` if one of them cannot be read.
unfoldable pub interrupted_runs : List Row → Option (List ℕ)
unfolding and_then
interrupted_runs [] = some []
interrupted_runs (r ∷ rs) =
    let rest = interrupted_runs rs in
    if is_interrupted r then and_then (number_of r.key) rest else rest

-- id = ANY($1)
abbrev pub is_any : ℕ → List ℕ → Bool
is_any n [] = false
is_any n (m ∷ ms) = n == m || is_any n ms

abbrev pub is_cut_off : List ℕ → Run → Bool
is_cut_off ids r = is_any r.id ids && not (is_some r.finished_at)

end_runs : Fault → ℕ → List ℕ → Store → Store × Result ℕ
end_runs (some e) now ids db = (db, err (store e))
end_runs none now ids db = (
  record db { runs = update_runs (is_cut_off ids) (ends restart now) db.runs },
  ok (count_runs (is_cut_off ids) db.runs),
)

abbrev pub stop_reason : Text
stop_reason = bytes "the app stopped while this waited or ran"

end_jobs : Fault → ℕ → Option (List ℕ) → Store → Store × Result ℕ
unfolding end_runs
end_jobs fault now none db = (db, err (store (bytes "invalid input syntax for type bigint")))
end_jobs fault now (some ids) db =
    end_runs fault now ids
      (with_rows (update_where is_interrupted (dropped now stop_reason) db.queue.rows) db)

-- EndInterrupted
unfoldable pub end_interrupted : Fault → Fault → ℕ → Store → Store × Result ℕ
unfolding end_jobs interrupted_runs
end_interrupted (some e) fault now db = (db, err (store e))
end_interrupted none fault now db = end_jobs fault now (interrupted_runs db.queue.rows) db

-- runAttempts
abbrev run_attempts : ℕ
run_attempts = 1

-- The job that checks a source in a run.
abbrev pub check_job : ℕ → ℕ → NewJob
check_job run source = record {
  kind = bytes "check_source";
  key = run_key run ++ (bytes "source:" ++ decimal source);
  payload = marshalled (
      bytes "{\"source_id\":"
      ++ (decimal source ++ (bytes ",\"run_id\":" ++ (decimal run ++ bytes "}"))));
  run_after = none;
  max_attempts = run_attempts;
}

queued_as : ℕ → Store → Queue × Result Bool → Store × Result ℕ
queued_as id db (q, err e) = (record db { queue = q }, err e)
queued_as id db (q, ok b) = (record db { queue = q }, ok id)

queue_check : Fault → ℕ → ℕ → Store × Result ℕ → Store × Result ℕ
unfolding queued_as
queue_check fault now source (db, err e) = (db, err e)
queue_check fault now source (db, ok id) =
    queued_as id db (enqueue fault now (check_job id source) db.queue)

-- CheckNow
unfoldable pub check_now : Fault → Fault → ℕ → ℕ → Store → Store × Result ℕ
unfolding queue_check start_run
check_now fault fault' now source db =
    queue_check fault' now source (start_run fault (bytes "check") now db)
