-- ===== src/Runs/History.antt =====
-- Histories of runs and jobs: any calls, at any times, with any database errors.
use mathlib.Core.List.{Memᴰ, map-append}
use mathlib.Core.List.Memᴰ
use speakertrail.Common.{
  ℕ, zero, suc, ◌<◌, ◌≡◌, refl, inl, inr, Bool, true, false, not, Option, none, some, List, [], ◌∷◌,
  map, Text, is_some, All, All-append, All-weaken, Distinct, Distinct-snoc, arith, Bool-cases,
}
use speakertrail.Queue.Invariant.{IsValid, IsValid-update, enqueue-IsValid}
use speakertrail.Queue.{Options, Queue, Fault, Result, ok, err, enqueue, empty}
use speakertrail.Queue.Rows.{Row, update_where}
use speakertrail.Queue.History.{Call, step, step-IsValid}
use speakertrail.Runs.{
  Run, Store, is_open, update_runs, dropped, with_rows, start_run, finish_run, stop_run, stop_rest,
  drop_queued, end_interrupted, end_jobs, end_runs, check_now, queue_check, queued_as, check_job,
}

pub data RunCall : Type 0 where
  starts : Fault → Text → ℕ → RunCall
  finishes : Fault → ℕ → ℕ → RunCall
  stops : Fault → Fault → ℕ → ℕ → RunCall
  interrupts : Fault → Fault → ℕ → RunCall
  checks : Fault → Fault → ℕ → ℕ → RunCall
  works : Options → Call → RunCall

unfoldable pub run_step : Store → RunCall → Store
run_step db (starts f kind now) = (start_run f kind now db).0
run_step db (finishes f id now) = (finish_run f id now db).0
run_step db (stops f g id now) = (stop_run f g id now db).0
run_step db (interrupts f g now) = (end_interrupted f g now db).0
run_step db (checks f g now source) = (check_now f g now source db).0
run_step db (works o c) = record db { queue = step o db.queue c }

unfoldable pub run_all : Store → List RunCall → Store
run_all db [] = db
run_all db (c ∷ cs) = run_all (run_step db c) cs

abbrev pub no_runs : Store
no_runs = record { queue = empty; runs = []; next_run = 1 }

-- A run has an end exactly if it says how it ended.
abbrev pub IsClosedWell : Run → Type 0
IsClosedWell r = is_open r.ended ≡ not (is_some r.finished_at)

-- The queue's table is valid, each run that has an end says how it ended, and no two runs share an id.
pub record IsSound (db : Store) : Type 0 where
  pub jobs : IsValid db.queue
  pub closed : All IsClosedWell db.runs
  pub run_ids_below : All (λ i. i < db.next_run) (map (λ r. r.id) db.runs)
  pub run_ids_distinct : Distinct (map (λ r. r.id) db.runs)

module _ (p : Run → Bool) (f : Run → Run) where
  map-update_runs {ℓ} :
      {A : Type ℓ} (g : Run → A) (rs : List Run)
      → ((r : Run) → g (f r) ≡ g r)
      → map g (update_runs p f rs) ≡ map g rs
  map-update_runs g [] h = refl
  map-update_runs g (r ∷ rs) h = ground (arith, h r, map-update_runs g rs h)

  pub All-update_runs :
      (P : Run → Type 0) (rs : List Run)
      → ((r : Run) → p r ≡ true → P (f r))
      → All P rs
      → All P (update_runs p f rs)
  All-update_runs P [] h a = tt
  All-update_runs P (r ∷ rs) h a = elim (Bool-cases (p r)) [
    | inl e ↦ rw e (h r e, All-update_runs P rs h a.1)
    | inr e ↦ rw e (a.0, All-update_runs P rs h a.1)
  ]

  pub mem-update_runs :
      (r : Run) (rs : List Run) → Memᴰ r rs → p r ≡ false → Memᴰ r (update_runs p f rs)
  mem-update_runs r [] m e = absurd (Memᴰ.not-nil m)
  mem-update_runs r (x ∷ rs) m e = elim (Memᴰ.cases_cons m) [
    | inl h ↦ Memᴰ.head (ground arith)
    | inr n ↦ Memᴰ.tail (mem-update_runs r rs n e)
  ]

  -- Ending some of the runs keeps the store sound.
  IsSound-ends :
      (db : Store)
      → ((r : Run) → (f r).id ≡ r.id)
      → ((r : Run) → IsClosedWell (f r))
      → IsSound db
      → IsSound (record db { runs = update_runs p f db.runs })
  IsSound-ends db hi hc v = record {
    jobs = v.jobs;
    closed = All-update_runs IsClosedWell db.runs (λ r _. hc r) v.closed;
    run_ids_below = rw (map-update_runs (λ r. r.id) db.runs hi) v.run_ids_below;
    run_ids_distinct = rw (map-update_runs (λ r. r.id) db.runs hi) v.run_ids_distinct;
  }

IsSound-queue :
    (db : Store) (q : Queue) → IsValid q → IsSound db → IsSound (record db { queue = q })
IsSound-queue db q h v = record {
  jobs = h;
  closed = v.closed;
  run_ids_below = v.run_ids_below;
  run_ids_distinct = v.run_ids_distinct;
}

IsSound-drop :
    (p : Row → Bool) (now : ℕ) (why : Text) (db : Store)
    → IsSound db
    → IsSound (with_rows (update_where p (dropped now why) db.queue.rows) db)
IsSound-drop p now why db v =
    IsSound-queue db _
      (IsValid-update p (dropped now why) db.queue.rows db.queue.next_id (λ r. refl) (λ r. refl)
        (λ r. refl) v.jobs)
      v

start_run-IsSound :
    (f : Fault) (kind : Text) (now : ℕ) (db : Store)
    → IsSound db
    → IsSound (start_run f kind now db).0
unfolding start_run
start_run-IsSound (some e) kind now db v = v
start_run-IsSound none kind now db v = record {
  jobs = v.jobs;
  closed = All-append IsClosedWell db.runs _ v.closed (refl, tt);
  run_ids_below = rw map-append (
      All-append (λ i. i < suc db.next_run) (map (λ r. r.id) db.runs) (db.next_run ∷ [])
        (All-weaken (map (λ r. r.id) db.runs) (λ i h. omega arith) v.run_ids_below) (omega arith));
  run_ids_distinct = rw map-append (
      Distinct-snoc (map (λ r. r.id) db.runs) db.next_run
        (All-weaken (map (λ r. r.id) db.runs) (λ i h. omega arith) v.run_ids_below)
        v.run_ids_distinct);
}

stop_rest-IsSound :
    (f : Fault) (n id now : ℕ) (db : Store) → IsSound db → IsSound (stop_rest f n id now db).0
unfolding stop_rest drop_queued
stop_rest-IsSound f zero id now db v = v
stop_rest-IsSound (some e) (suc n) id now db v = v
stop_rest-IsSound none (suc n) id now db v = IsSound-drop _ now _ db v

stop_run-IsSound :
    (f g : Fault) (id now : ℕ) (db : Store) → IsSound db → IsSound (stop_run f g id now db).0
unfolding stop_run
stop_run-IsSound (some e) g id now db v = v
stop_run-IsSound none g id now db v =
    stop_rest-IsSound g _ id now _ (IsSound-ends _ _ db (λ r. refl) (λ r. refl) v)

end_jobs-IsSound :
    (f : Fault) (now : ℕ) (ids : Option (List ℕ)) (db : Store)
    → IsSound db
    → IsSound (end_jobs f now ids db).0
unfolding end_jobs end_runs
end_jobs-IsSound f now none db v = v
end_jobs-IsSound (some e) now (some ids) db v = IsSound-drop _ now _ db v
end_jobs-IsSound none now (some ids) db v =
    IsSound-ends _ _ _ (λ r. refl) (λ r. refl) (IsSound-drop _ now _ db v)

check-IsSound :
    (f : Fault) (now source : ℕ) (w : Store × Result ℕ)
    → IsSound w.0
    → IsSound (queue_check f now source w).0
unfolding queue_check queued_as
check-IsSound f now source (db, err e) v = v
check-IsSound f now source (db, ok id) v =
    go (enqueue f now (check_job id source) db.queue)
      (enqueue-IsValid f now (check_job id source) db.queue v.jobs)
  where
    go : (w : Queue × Result Bool) → IsValid w.0 → IsSound (queued_as id db w).0
    go (q, err e) h = IsSound-queue db q h v
    go (q, ok b) h = IsSound-queue db q h v

pub run_step-IsSound : (db : Store) (c : RunCall) → IsSound db → IsSound (run_step db c)
unfolding run_step finish_run end_interrupted check_now
run_step-IsSound db (starts f kind now) v = start_run-IsSound f kind now db v
run_step-IsSound db (finishes (some e) id now) v = v
run_step-IsSound db (finishes none id now) v = IsSound-ends _ _ db (λ r. refl) (λ r. refl) v
run_step-IsSound db (stops f g id now) v = stop_run-IsSound f g id now db v
run_step-IsSound db (interrupts (some e) g now) v = v
run_step-IsSound db (interrupts none g now) v = end_jobs-IsSound g now _ db v
run_step-IsSound db (checks f g now source) v =
    check-IsSound g now source _ (start_run-IsSound f _ now db v)
run_step-IsSound db (works o c) v = IsSound-queue db _ (step-IsValid o db.queue c v.jobs) v

run_all_from-IsSound : (db : Store) (cs : List RunCall) → IsSound db → IsSound (run_all db cs)
unfolding run_all
run_all_from-IsSound db [] v = v
run_all_from-IsSound db (c ∷ cs) v =
    run_all_from-IsSound (run_step db c) cs (run_step-IsSound db c v)

-- From the empty tables, whatever is started, finished, stopped, interrupted, checked and worked on,
-- the queue's table stays valid, each run has an end exactly if it says how it ended, and no two runs
-- share an id.
pub run_all-IsSound : (cs : List RunCall) → IsSound (run_all no_runs cs)
run_all-IsSound cs = run_all_from-IsSound no_runs cs (record {
  jobs = record { ids_below = tt; ids_distinct = tt; keys_distinct = tt; leased = tt };
  closed = tt;
  run_ids_below = tt;
  run_ids_distinct = tt;
})
