-- ===== src/Due.antt =====
-- internal/pipeline/schedule.go: which sources a run checks, the jobs that it queues for them and for
-- the open seeds, and the pruning. Tables are lists of rows; times are microseconds.
use speakertrail.Common.{
  ℕ, ◌-◌, ◌*◌, Bool, true, false, not, ◌&&◌, ◌||◌, Option, none, some, List, [], ◌∷◌, ◌++◌, map,
  Text, bytes, text_eq, keep_if, take, ltb, leb, ◌==◌, if◌then◌else◌,
}
use speakertrail.Common.Decimal.{decimal}
use speakertrail.Settings.{Settings, int, days, day}
use speakertrail.Sources.{Status, candidate, probation, active, retired, status_eq}
use speakertrail.Queue.{Queue, Fault, NewJob, marshalled, Result, ok, err, enqueue}
use speakertrail.Queue.Rows.{Row, is_queued, is_done, update_where}
use speakertrail.Runs.{Store, is_of_run, check_job, dropped, with_rows, is_step_kind}

-- A row of `sources`, as far as these statements read it.
pub record DueSource : Type 0 where
  pub id : ℕ
  pub kind : Text
  pub has_url : Bool
  pub has_query : Bool
  pub status : Status
  pub next_check_at : Option ℕ
  pub points : ℕ
  pub checks : ℕ
  pub created_at : ℕ

-- next_check_at IS NULL OR next_check_at <= now
unfoldable pub is_open_now : ℕ → DueSource → Bool
is_open_now now s = elim s.next_check_at [ none ↦ true | some t ↦ leb t now ]

-- How two values are ordered, and the next column where they are equal.
abbrev by_number : ℕ → ℕ → Bool → Bool
by_number a b next = ltb a b || (a == b && next)

-- next_check_at NULLS FIRST
nulls_first : Option ℕ → Option ℕ → Bool → Bool
nulls_first none none next = next
nulls_first none (some b) next = true
nulls_first (some a) none next = false
nulls_first (some a) (some b) next = by_number a b next

-- ORDER BY next_check_at NULLS FIRST, points DESC, id
unfoldable pub comes_first : DueSource → DueSource → Bool
unfolding nulls_first
comes_first a b =
    nulls_first a.next_check_at b.next_check_at (by_number b.points a.points (ltb a.id b.id))

abbrev is_collection : DueSource → Bool
is_collection s = text_eq s.kind (bytes "portfolio") || text_eq s.kind (bytes "directory")

abbrev rank : DueSource → ℕ
rank s = if is_collection s then 0 else 1

-- ORDER BY kind IN ('portfolio', 'directory') DESC, checks, created_at, id
unfoldable pub is_newer : DueSource → DueSource → Bool
is_newer a b =
    by_number (rank a) (rank b)
      (by_number a.checks b.checks (by_number a.created_at b.created_at (ltb a.id b.id)))

insert_by : (DueSource → DueSource → Bool) → DueSource → List DueSource → List DueSource
insert_by before s [] = s ∷ []
insert_by before s (x ∷ xs) =
    let rest = insert_by before s xs in if before x s then x ∷ rest else s ∷ x ∷ xs

unfoldable pub sort_by : (DueSource → DueSource → Bool) → List DueSource → List DueSource
unfolding insert_by
sort_by before [] = []
sort_by before (s ∷ ss) = insert_by before s (sort_by before ss)

-- SELECT id … WHERE … ORDER BY … LIMIT …
unfoldable pub select_ids :
    (DueSource → Bool) → (DueSource → DueSource → Bool) → ℕ → List DueSource → List ℕ
unfolding sort_by
select_ids wanted before limit rows =
    map (λ s. s.id) (take limit (sort_by before (keep_if wanted rows)))

abbrev is_known : Status → Bool
is_known s = status_eq s active || status_eq s probation || status_eq s retired

abbrev is_live_query : Status → Bool
is_live_query s = status_eq s candidate || status_eq s probation || status_eq s active

-- The sources that were checked before, and the new candidates.
unfoldable pub due_pages : Settings → ℕ → List DueSource → List ℕ
unfolding select_ids comes_first is_newer is_open_now int
due_pages cfg now rows =
    select_ids (λ s. s.has_url && is_known s.status && is_open_now now s) comes_first
      (int cfg "sources_per_run" 15) rows
    ++ select_ids (λ s. s.has_url && status_eq s.status candidate && is_open_now now s) is_newer
        (int cfg "new_candidates_per_run" 5) rows

-- The searches of one kind that are due.
unfoldable pub due_queries : Text → ℕ → ℕ → List DueSource → List ℕ
unfolding select_ids comes_first is_open_now
due_queries kind limit now rows =
    select_ids
      (λ s. text_eq s.kind kind && s.has_query && is_live_query s.status && is_open_now now s)
      comes_first limit rows

-- The sources of a run. `searches` says whether a search provider is set up, `posts` whether one finds
-- posts.
unfoldable pub due_ids : Settings → Bool → Bool → ℕ → List DueSource → List ℕ
unfolding due_pages due_queries int
due_ids cfg searches posts now rows =
    due_pages cfg now rows
    ++ ((if searches
          then due_queries (bytes "search_query") (int cfg "searches_per_run" 3) now rows
          else [])
        ++ (if searches && posts
            then due_queries (bytes "post_search") (int cfg "post_searches_per_run" 2) now rows
            else []))

-- A check, read or lookup that waits from another run.
abbrev pub is_leftover : ℕ → Row → Bool
is_leftover run r = is_step_kind r.kind && is_queued r.status && not (is_of_run run r)

-- UPDATE jobs SET status = 'failed', … WHERE … key NOT LIKE 'run:' || $1 || ':%'
unfoldable pub replace_leftovers : ℕ → ℕ → Store → Store
replace_leftovers run now db =
    with_rows
      (update_where (is_leftover run) (dropped now (bytes "replaced by run " ++ decimal run))
        db.queue.rows)
      db

-- The loops that queue one job after the other, up to the first error. Each has its own fault and clock.
unfoldable pub queue_all :
    (ℕ → NewJob) → (ℕ → Fault) → (ℕ → ℕ) → List ℕ → Queue → Queue × Result (Unit {0})
queue_all job fault now [] q = (q, ok tt)
queue_all job fault now (id ∷ ids) q =
    let (q', added) = enqueue (fault id) (now id) (job id) q in
    let rest = queue_all job fault now ids q' in elim added [ ok b ↦ rest | err e ↦ (q', err e) ]

-- The checks of a run.
unfoldable pub queue_checks : ℕ → (ℕ → Fault) → (ℕ → ℕ) → List ℕ → Queue → Queue × Result (Unit {0})
unfolding queue_all
queue_checks run = queue_all (check_job run)

-- The job of EnqueueSeed.
abbrev pub seed_job : ℕ → NewJob
seed_job id = record {
  kind = bytes "process_seed";
  key = bytes "seed:" ++ decimal id;
  payload = marshalled (bytes "{\"seed_id\":" ++ (decimal id ++ bytes "}"));
  run_after = none;
  max_attempts = 0;
}

-- The seeds that are not processed, in the order of their ids.
unfoldable pub queue_seeds : (ℕ → Fault) → (ℕ → ℕ) → List ℕ → Queue → Queue × Result (Unit {0})
unfolding queue_all
queue_seeds = queue_all seed_job

-- The tables that handlePrune deletes from: when pages were fetched, the jobs, and the status of each
-- person with the time of its change.
pub record Kept : Type 0 where
  pub fetches : List ℕ
  pub jobs : List Row
  pub people : List (Text × ℕ)

-- handlePrune. Its three statements run in turn, each with its own fault.
unfoldable pub prune : Settings → Fault → Fault → Fault → ℕ → Kept → Kept × Option Text
unfolding days
prune cfg (some e) g h now k = (k, some e)
prune cfg none g h now k =
    let fetched = record k {
      fetches = keep_if (λ t. leb (now - days cfg "snapshot_retention_days" 30) t) k.fetches;
    } in
    elim g [
      | some e ↦ (fetched, some e)
      | none ↦
          let worked = record fetched {
            jobs =
                keep_if (λ r. not (is_done r.status && ltb r.updated_at (now - 30 * day))) k.jobs;
          } in
          elim h [
            | some e ↦ (worked, some e)
            | none ↦ (
              record worked {
                people =
                    keep_if
                      (λ p. not (
                        text_eq p.0 (bytes "skipped")
                        && ltb p.1 (now - days cfg "skipped_person_retention_days" 90)))
                      k.people;
              },
              none,
            )
          ]
    ]
