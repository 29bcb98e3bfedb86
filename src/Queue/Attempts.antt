-- ===== src/Queue/Attempts.antt =====
-- How often a job can be handed out before it is enqueued again.
use speakertrail.Common.{
  ℕ, ◌≤◌, ◌<◌, ◌≡◌, refl, ap, Bool, true, some, List, All, All_at, All-of_mem, arith,
}
use speakertrail.Queue.Rows.{Row}
use speakertrail.Queue.Updates.{same_row}
use speakertrail.Queue.Spent.{count_id, Budget-bounds}
use speakertrail.Queue.Budget.{HasRoom, Budget, IsRetry}
use speakertrail.Queue.Invariant.{IsValid, enqueue-IsValid}
use speakertrail.Queue.Enqueues.{find_same-IsFound, IsFresh, enqueue-Enqueued}
use speakertrail.Queue.Leases.{of_map}
use speakertrail.Queue.History.{Call, claimed_ids}
use speakertrail.Queue.{Options, Fault, Queue, Result, NewJob, ok, find_same, limit, enqueue}

fresh_room :
    (o : Options) (j : NewJob) (r : Row)
    → r.kind ≡ j.kind
    → r.key ≡ j.key
    → 0 < limit o r
    → IsFresh j r
    → HasRoom o r.id j.kind j.key (limit o r) (limit o r) r
fresh_room o j r k l pos fresh _ =
    (k, l, refl, rw (fresh.status, fresh.attempts) (pos, omega arith))

start :
    (o : Options) (j : NewJob) (q : Queue) (r : Row)
    → IsValid q
    → find_same j.kind j.key q.rows ≡ some r
    → 0 < limit o r
    → IsFresh j r
    → Budget o r.id j.kind j.key (limit o r) (limit o r) q
start o j q r v found pos fresh =
    let f = find_same-IsFound j.kind j.key q.rows r found in
    record {
      old = All_at (λ x. x.id < q.next_id) r q.rows (of_map q.next_id q.rows v.ids_below) f.member;
      room = All-of_mem (HasRoom o r.id j.kind j.key (limit o r) (limit o r)) q.rows λ x m e.
          rw (same_row (λ y. y.id) q.rows x r v.ids_distinct m f.member e)
            (fresh_room o j r f.kind_eq f.key_eq pos fresh refl);
    }

-- A job that Enqueue added is handed out at most as often as its limit says, until it is enqueued
-- again: whatever claims, results, database errors and other jobs come after it, as long as its
-- failures are recorded with its own limit.
pub attempts_bounded :
    (o : Options) (f : Fault) (now : ℕ) (j : NewJob) (q q' : Queue) (r : Row) (cs : List Call)
    → IsValid q
    → enqueue f now j q ≡ (q', ok true)
    → find_same j.kind j.key q'.rows ≡ some r
    → 0 < limit o r
    → All (IsRetry o r.id j.kind j.key (limit o r)) cs
    → count_id r.id (claimed_ids o q' cs) ≤ limit o r
attempts_bounded o f now j q q' r cs v e found pos calls =
    let valid : IsValid q' =
      rw (ap (λ (x : Queue × Result Bool). x.0) e) at (enqueue-IsValid f now j q v) in
    let entry = enqueue-Enqueued f now j q q' true e in
    let same : entry.row ≡ r = ground (arith, entry.found) in
    Budget-bounds o r.id j.kind j.key (limit o r) (limit o r) q' cs calls valid
      (start o j q' r valid found pos (rw same at (entry.fresh refl)))
