-- ===== src/Runs/Final.antt =====
-- A run that has ended keeps its end.
use mathlib.Core.List.{Memᴰ}
use mathlib.Core.List.Memᴰ
use speakertrail.Common.{
  ℕ, zero, suc, ◌≡◌, Bool, true, false, Option, none, some, List, [], ◌∷◌, is_some, All_at, arith,
}
use speakertrail.Queue.{Queue, Fault, Result, ok, err, enqueue}
use speakertrail.Runs.{
  Run, Store, is_open, is_stoppable, is_cut_off, is_open_run, ends, finished, stopped, restart,
  start_run, finish_run, stop_run, stop_rest, drop_queued, end_interrupted, end_jobs, end_runs,
  check_now, queue_check, queued_as, check_job,
}
use speakertrail.Runs.History.{
  RunCall, starts, finishes, stops, interrupts, checks, works, run_step, run_all, IsSound,
  IsClosedWell, mem-update_runs, run_step-IsSound, run_all-IsSound, no_runs,
}

module _ (r : Run) (h : is_open r.ended ≡ false) where
  stop_rest-keeps :
      (f : Fault) (n id now : ℕ) (db : Store)
      → Memᴰ r db.runs
      → Memᴰ r (stop_rest f n id now db).0.runs
  unfolding stop_rest drop_queued
  stop_rest-keeps f zero id now db m = m
  stop_rest-keeps (some e) (suc n) id now db m = m
  stop_rest-keeps none (suc n) id now db m = m

  stop_run-keeps :
      (f g : Fault) (id now : ℕ) (db : Store)
      → Memᴰ r db.runs
      → Memᴰ r (stop_run f g id now db).0.runs
  unfolding stop_run
  stop_run-keeps (some e) g id now db m = m
  stop_run-keeps none g id now db m = stop_rest-keeps g _ id now _ (
      mem-update_runs (is_stoppable id db.queue.rows) (ends stopped now) r db.runs m (ground arith))

  end_jobs-keeps :
      (f : Fault) (now : ℕ) (ids : Option (List ℕ)) (db : Store)
      → is_some r.finished_at ≡ true
      → Memᴰ r db.runs
      → Memᴰ r (end_jobs f now ids db).0.runs
  unfolding end_jobs end_runs
  end_jobs-keeps f now none db k m = m
  end_jobs-keeps (some e) now (some ids) db k m = m
  end_jobs-keeps none now (some ids) db k m =
      mem-update_runs (is_cut_off ids) (ends restart now) r db.runs m (ground arith)

  start_run-keeps :
      (f : Fault) (kind : List ℕ) (now : ℕ) (db : Store)
      → Memᴰ r db.runs
      → Memᴰ r (start_run f kind now db).0.runs
  unfolding start_run
  start_run-keeps (some e) kind now db m = m
  start_run-keeps none kind now db m = Memᴰ.append_left _ m

  queue_check-keeps :
      (f : Fault) (now source : ℕ) (w : Store × Result ℕ)
      → Memᴰ r w.0.runs
      → Memᴰ r (queue_check f now source w).0.runs
  unfolding queue_check queued_as
  queue_check-keeps f now source (db, err e) m = m
  queue_check-keeps f now source (db, ok id) m = go (enqueue f now (check_job id source) db.queue)
    where
      go : (w : Queue × Result Bool) → Memᴰ r (queued_as id db w).0.runs
      go (q, err e) = m
      go (q, ok b) = m

  run_step-keeps :
      (db : Store) (c : RunCall) → IsSound db → Memᴰ r db.runs → Memᴰ r (run_step db c).runs
  unfolding run_step finish_run end_interrupted check_now
  run_step-keeps db (starts f kind now) v m = start_run-keeps f kind now db m
  run_step-keeps db (finishes (some e) id now) v m = m
  run_step-keeps db (finishes none id now) v m =
      mem-update_runs (is_open_run id) (ends finished now) r db.runs m (ground arith)
  run_step-keeps db (stops f g id now) v m = stop_run-keeps f g id now db m
  run_step-keeps db (interrupts (some e) g now) v m = m
  run_step-keeps db (interrupts none g now) v m =
      let closed = All_at IsClosedWell r db.runs v.closed m in
      end_jobs-keeps g now _ db (ground arith) m
  run_step-keeps db (checks f g now source) v m =
      queue_check-keeps g now source _ (start_run-keeps f _ now db m)
  run_step-keeps db (works o c) v m = m

  run_all-keeps :
      (db : Store) (cs : List RunCall) → IsSound db → Memᴰ r db.runs → Memᴰ r (run_all db cs).runs
  unfolding run_all
  run_all-keeps db [] v m = m
  run_all-keeps db (c ∷ cs) v m =
      run_all-keeps (run_step db c) cs (run_step-IsSound db c v) (run_step-keeps db c v m)

-- Once a run says how it ended, whatever happens later leaves its row as it is: how it ended and when.
pub ended_stays :
    (cs ds : List RunCall) (r : Run)
    → Memᴰ r (run_all no_runs cs).runs
    → is_open r.ended ≡ false
    → Memᴰ r (run_all (run_all no_runs cs) ds).runs
ended_stays cs ds r m h = run_all-keeps r h (run_all no_runs cs) ds (run_all-IsSound cs) m
