-- ===== src/Runs/Examples.antt =====
-- The theorems about runs at concrete tables, and tests of the calls.
use mathlib.Core.List.{Memᴰ}
use speakertrail.Common.{
  ◌≡◌, refl, ◌⊎◌, true, false, none, some, List, [], ◌∷◌, bytes, has_prefix, after_prefix, text_eq,
}
use speakertrail.Common.Decimal.{decimal, value_from}
use speakertrail.Queue.{enqueue, upsert, find_same, inserted, ok}
use speakertrail.Runs.{
  Run, Store, check_now, start_run, stop_run, end_interrupted, interrupted_runs, number_of, stopped,
  drop_queued,
}
use speakertrail.Runs.History.{RunCall, checks, stops, interrupts, run_all, run_step, no_runs}
use speakertrail.Runs.Final.{ended_stays}
use speakertrail.Runs.Stops.{IsStopped, stop_run_exact, IsCleared, end_interrupted_clears}

abbrev two_checks : List RunCall
two_checks = checks none none 100 7 ∷ checks none none 200 8 ∷ []

abbrev one_stopped : List RunCall
one_stopped = checks none none 100 7 ∷ stops none none 1 150 ∷ checks none none 200 8 ∷ []

abbrev first_run : Run
first_run = record {
  id = 1;
  kind = bytes "check";
  started_at = 100;
  finished_at = some 150;
  ended = stopped;
}

first_run_stops :
    (run_all no_runs (checks none none 100 7 ∷ stops none none 1 150 ∷ [])).runs ≡ first_run ∷ []
unfolding run_all run_step check_now start_run stop_run drop_queued enqueue upsert find_same
    inserted decimal has_prefix after_prefix
first_run_stops = refl

first_run_there :
    Memᴰ first_run (run_all no_runs (checks none none 100 7 ∷ stops none none 1 150 ∷ [])).runs
first_run_there = rw first_run_stops (Memᴰ.head refl)

ended_stays_example :
    Memᴰ first_run
      (run_all
        (run_all no_runs (checks none none 100 7 ∷ stops none none 1 150 ∷ []))
        (interrupts none none 300 ∷ [])).runs
ended_stays_example =
    ended_stays (checks none none 100 7 ∷ stops none none 1 150 ∷ [])
      (interrupts none none 300 ∷ []) first_run first_run_there refl

abbrev working : Store
working = run_all no_runs two_checks

stop_reports : stop_run none none 1 300 working ≡ ((stop_run none none 1 300 working).0, ok true)
unfolding run_all run_step check_now start_run stop_run drop_queued enqueue upsert find_same
    inserted decimal has_prefix after_prefix text_eq
stop_reports = refl

stop_run_exact_example :
    ((true ≡ true) × IsStopped 1 300 working (stop_run none none 1 300 working).0)
    ⊎ ((true ≡ false) × ((stop_run none none 1 300 working).0 ≡ working))
stop_run_exact_example =
    stop_run_exact none none 1 300 working (stop_run none none 1 300 working).0 true stop_reports

restart_reports :
    end_interrupted none none 300 working ≡ ((end_interrupted none none 300 working).0, ok 2)
unfolding run_all run_step check_now start_run end_interrupted interrupted_runs number_of enqueue
    upsert find_same inserted decimal has_prefix after_prefix text_eq value_from
restart_reports = refl

end_interrupted_clears_example : IsCleared 300 working (end_interrupted none none 300 working).0
end_interrupted_clears_example =
    end_interrupted_clears none none 300 2 working (end_interrupted none none 300 working).0
      restart_reports
