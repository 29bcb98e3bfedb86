-- ===== src/Queue/Examples.antt =====
-- The theorems about the queue at concrete tables, and tests of its methods.
use speakertrail.Common.{
  ◌+◌, ◌*◌, ◌≤◌, ◌≡◌, ◌≢◌, refl, true, false, none, some, List, [], ◌∷◌, bytes, text_eq, All, arith,
}
use speakertrail.Queue.Rows.{Row, queued, running, is_due, next_due, lease_over}
use speakertrail.Queue.Invariant.{IsValid}
use speakertrail.Queue.Claims.{Picks, claim-Picks, IsClaimable}
use speakertrail.Queue.History.{
  Call, enqueues, claims, completes, fails, step, run, claimed_ids, run-IsValid,
}
use speakertrail.Queue.Leases.{no_double_claim}
use speakertrail.Queue.Spent.{count_id}
use speakertrail.Queue.Attempts.{attempts_bounded}
use speakertrail.Queue.Stale.{AnswersAs, stale_result_recorded}
use speakertrail.Queue.{
  Options, Queue, Job, NewJob, no_payload, marshalled, ok, err, lost_lease, minute, empty, enqueue,
  claim, complete, find_same, upsert, expire_leases, take_next,
}

abbrev defaults : Options
defaults = record { max_attempts = 5; backoff = []; lease = 10 * minute }

-- A check of a run, tried once.
abbrev check : NewJob
check = record {
  kind = bytes "check_source";
  key = bytes "run:1:source:7";
  payload = no_payload;
  run_after = none;
  max_attempts = 1;
}

abbrev waiting : Row
waiting = record {
  id = 1;
  kind = bytes "check_source";
  key = bytes "run:1:source:7";
  payload = bytes "{}";
  status = queued;
  attempts = 0;
  max_attempts = some 1;
  run_after = 1000;
  locked_until = none;
  last_error = [];
  created_at = 1000;
  updated_at = 1000;
}

abbrev table : Queue
table = record { rows = waiting ∷ []; next_id = 2 }

enqueue_runs : enqueue none 1000 check empty ≡ (table, ok true)
unfolding enqueue upsert
enqueue_runs = refl

abbrev held_row : Row
held_row = record waiting {
  status = running;
  attempts = 1;
  locked_until = some (2000 + 10 * minute);
  updated_at = 2000;
}

abbrev held_table : Queue
held_table = record table { rows = held_row ∷ [] }

abbrev held_job : Job
held_job = record {
  id = 1;
  kind = bytes "check_source";
  key = bytes "run:1:source:7";
  payload = bytes "{}";
  attempts = 1;
  max_attempts = 1;
}

claim_runs : claim defaults none none 2000 table ≡ (held_table, ok (some held_job))
unfolding claim expire_leases take_next next_due is_due
claim_runs = refl

table-IsValid : IsValid table
table-IsValid = record {
  ids_below = omega arith;
  ids_distinct = (tt, tt);
  keys_distinct = (tt, tt);
  leased = (refl, tt);
}

empty-IsValid : IsValid empty
empty-IsValid = record { ids_below = tt; ids_distinct = tt; keys_distinct = tt; leased = tt }

run-IsValid_example :
    IsValid (run defaults empty (enqueues none 1000 check ∷ claims none none 2000 ∷ []))
run-IsValid_example = run-IsValid defaults (enqueues none 1000 check ∷ claims none none 2000 ∷ [])

claim-Picks_example : Picks defaults 2000 table.rows held_table.rows held_job
claim-Picks_example = claim-Picks defaults 2000 table held_table held_job claim_runs

waiting-IsClaimable : IsClaimable defaults 2000 waiting
unfolding is_due lease_over
waiting-IsClaimable = (refl, refl)

abbrev rivals : List Call
rivals =
    claims none none 3000
    ∷ enqueues none 4000 check
    ∷ completes none 4500 (record held_job { id = 9 })
    ∷ claims none none 5000
    ∷ []

no_double_claim_example : All (λ i. i ≢ 1) (claimed_ids defaults held_table rivals)
no_double_claim_example =
    no_double_claim defaults 2000 table held_table held_job rivals table-IsValid claim_runs
      (omega arith)

enqueue_repeat_runs : enqueue none 1500 check table ≡ (record table { next_id = 3 }, ok false)
unfolding enqueue upsert text_eq
enqueue_repeat_runs = refl

lost_lease_runs : (complete none 3000 held_job table).1 ≡ err (lost_lease 1)
unfolding complete
lost_lease_runs = refl

attempts_bounded_example :
    count_id 1 (
      claimed_ids defaults table
        (claims none none 2000 ∷ fails none 2500 held_job none ∷ claims none none 3000 ∷ []))
    ≤ 1
unfolding find_same text_eq
attempts_bounded_example =
    attempts_bounded defaults none 1000 check empty table waiting
      (claims none none 2000 ∷ fails none 2500 held_job none ∷ claims none none 3000 ∷ [])
      empty-IsValid enqueue_runs refl (omega arith) (tt, (λ _. refl, (tt, tt)))

-- The same check with another payload, enqueued when the first one has failed.
abbrev check_anew : NewJob
check_anew = record check { payload = marshalled (bytes "{\"deep\":true}") }

abbrev failed_table : Queue
failed_table = run defaults held_table (claims none none (3000 + 10 * minute) ∷ [])

abbrev anew : Queue
anew = (enqueue none (4000 + 10 * minute) check_anew failed_table).0

abbrev held_anew : Queue
held_anew = (claim defaults none none (5000 + 10 * minute) anew).0

abbrev job_anew : Job
job_anew = record held_job { payload = bytes "{\"deep\":true}" }

enqueue_once_more_runs : enqueue none (4000 + 10 * minute) check_anew failed_table ≡ (anew, ok true)
unfolding enqueue upsert claim expire_leases take_next next_due is_due text_eq lease_over run step
enqueue_once_more_runs = refl

claim_once_more_runs :
    claim defaults none none (5000 + 10 * minute) anew ≡ (held_anew, ok (some job_anew))
unfolding enqueue upsert claim expire_leases take_next next_due is_due text_eq lease_over run step
claim_once_more_runs = refl

stale_result_recorded_example : AnswersAs held_job job_anew (6000 + 10 * minute) held_anew
stale_result_recorded_example =
    stale_result_recorded defaults 2000 table held_table held_job table-IsValid claim_runs refl
      (claims none none (3000 + 10 * minute) ∷ []) none (4000 + 10 * minute) check_anew anew
      (omega arith) enqueue_once_more_runs refl refl (5000 + 10 * minute) held_anew job_anew
      (omega arith) claim_once_more_runs refl refl refl (6000 + 10 * minute) (omega arith)
