-- ===== src/Queue/History.antt =====
-- Histories of the queue: any calls of its methods, by any workers, at any times.
use speakertrail.Common.{ℕ, Option, none, some, List, [], ◌∷◌, ◌++◌, Text}
use speakertrail.Queue.Invariant.{
  IsValid, enqueue-IsValid, claim-IsValid, complete-IsValid, fail-IsValid,
}
use speakertrail.Queue.{
  Options, Fault, Queue, Job, NewJob, Result, ok, err, empty, enqueue, claim, complete, fail,
}

pub data Call : Type 0 where
  enqueues : Fault → ℕ → NewJob → Call
  claims : Fault → Fault → ℕ → Call
  completes : Fault → ℕ → Job → Call
  fails : Fault → ℕ → Job → Option Text → Call

unfoldable pub step : Options → Queue → Call → Queue
step o q (enqueues f now j) = (enqueue f now j q).0
step o q (claims f g now) = (claim o f g now q).0
step o q (completes f now j) = (complete f now j q).0
step o q (fails f now j cause) = (fail o f now j cause q).0

unfoldable pub run : Options → Queue → List Call → Queue
run o q [] = q
run o q (c ∷ cs) = run o (step o q c) cs

abbrev pub claimed_id : Result (Option Job) → List ℕ
claimed_id (ok none) = []
claimed_id (ok (some j)) = j.id ∷ []
claimed_id (err e) = []

-- The id of the job that a call hands to a worker, if it does.
unfoldable pub handed_out : Options → Queue → Call → List ℕ
handed_out o q (claims f g now) = claimed_id (claim o f g now q).1
handed_out o q _ = []

-- The ids that a history hands out, in order.
unfoldable pub claimed_ids : Options → Queue → List Call → List ℕ
unfolding handed_out
claimed_ids o q [] = []
claimed_ids o q (c ∷ cs) = handed_out o q c ++ claimed_ids o (step o q c) cs

pub step-IsValid : (o : Options) (q : Queue) (c : Call) → IsValid q → IsValid (step o q c)
unfolding step
step-IsValid o q (enqueues f now j) v = enqueue-IsValid f now j q v
step-IsValid o q (claims f g now) v = claim-IsValid o f g now q v
step-IsValid o q (completes f now j) v = complete-IsValid f now j q v
step-IsValid o q (fails f now j cause) v = fail-IsValid o f now j cause q v

pub run_from-IsValid : (o : Options) (q : Queue) (cs : List Call) → IsValid q → IsValid (run o q cs)
unfolding run
run_from-IsValid o q [] v = v
run_from-IsValid o q (c ∷ cs) v = run_from-IsValid o (step o q c) cs (step-IsValid o q c v)

-- From the empty table, whatever calls are made at whatever times and with whatever database errors,
-- no two rows share an id or a kind and key, ids stay below the sequence, and a row has a lease
-- exactly while its job is running.
pub run-IsValid : (o : Options) (cs : List Call) → IsValid (run o empty cs)
run-IsValid o cs =
    run_from-IsValid o empty cs
      (record { ids_below = tt; ids_distinct = tt; keys_distinct = tt; leased = tt })
