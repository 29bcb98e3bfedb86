-- ===== src/Runs/Stops.antt =====
-- What stopping a run and a restart leave behind.
use mathlib.Core.List.{Memᴰ}
use mathlib.Core.List.Memᴰ
use speakertrail.Common.{
  ℕ, zero, suc, ◌≡◌, refl, sym, ap, ◌∙◌, ◌⊎◌, inl, inr, Bool, true, false, Option, none, some, List,
  [], ◌∷◌, Text, is_some, All, Each, Changed, if-Changed, arith, Bool-cases, bytes,
}
use speakertrail.Queue.{Fault, ok}
use speakertrail.Queue.Rows.{Row, update_where}
use speakertrail.Runs.{
  Run, Store, update_runs, count_runs, ends, stopped, restart, dropped, is_stoppable, is_cut_off,
  is_waiting_for, is_interrupted, is_any, stop_reason, stop_run, stop_rest, drop_queued,
  end_interrupted, end_jobs, end_runs, interrupted_runs, number_of, and_then,
}

-- The jobs after a run's queued jobs were dropped: none waits for the run, and one by one each is as it
-- was, or dropped if it waited for the run.
abbrev pub AreDropped : ℕ → ℕ → Text → List Row → List Row → Type 0
AreDropped id now why before after =
    All (λ r. is_waiting_for id r ≡ false) after
    × Each (Changed (is_waiting_for id) (dropped now why)) before after

update_where-Each :
    (p : Row → Bool) (f : Row → Row) (rows : List Row)
    → Each (Changed p f) rows (update_where p f rows)
update_where-Each p f [] = tt
update_where-Each p f (r ∷ rs) = (if-Changed p f r, update_where-Each p f rs)

update_runs-Each :
    (p : Run → Bool) (f : Run → Run) (runs : List Run)
    → Each (Changed p f) runs (update_runs p f runs)
update_runs-Each p f [] = tt
update_runs-Each p f (r ∷ rs) = (if-Changed p f r, update_runs-Each p f rs)

drop_lem :
    (p : Row → Bool) (f : Row → Row) (rows : List Row)
    → ((r : Row) → p (f r) ≡ false)
    → All (λ r. p r ≡ false) (update_where p f rows)
drop_lem p f [] h = tt
drop_lem p f (r ∷ rs) h = elim (Bool-cases (p r)) [
  | inl e ↦ rw e (h r, drop_lem p f rs h)
  | inr e ↦ rw e (e, drop_lem p f rs h)
]

count_zero :
    (p : Run → Bool) (f : Run → Run) (rs : List Run) → count_runs p rs ≡ 0 → update_runs p f rs ≡ rs
count_zero p f [] h = refl
count_zero p f (r ∷ rs) h = ground (arith, count_zero p f rs)

count_suc :
    (p : Run → Bool) (n : ℕ) (rs : List Run)
    → count_runs p rs ≡ suc n
    → (r : Run) × Memᴰ r rs × (p r ≡ true)
count_suc p n [] h = absurd (omega arith)
count_suc p n (r ∷ rs) h = elim (Bool-cases (p r)) [
  | inl e ↦ (r, Memᴰ.head refl, e)
  | inr e ↦ let (x, m, k) = count_suc p n rs (ground arith) in (x, Memᴰ.tail m, k)
]

-- A stop that reports success.
abbrev pub IsStopped : ℕ → ℕ → Store → Store → Type 0
IsStopped id now db db' =
    ((r : Run) × Memᴰ r db.runs × (is_stoppable id db.queue.rows r ≡ true))
    × Each (Changed (is_stoppable id db.queue.rows) (ends stopped now)) db.runs db'.runs
    × AreDropped id now (bytes "stopped by hand") db.queue.rows db'.queue.rows

-- A stop that reports success had an open run with work left; it ends that run now as stopped and leaves
-- every other run as it was, drops the jobs that waited for the run, so that none does any more, and
-- leaves every other job as it was. A stop that reports that there was nothing to stop changes nothing.
pub stop_run_exact :
    (f g : Fault) (id now : ℕ) (db db' : Store) (b : Bool)
    → stop_run f g id now db ≡ (db', ok b)
    → ((b ≡ true) × IsStopped id now db db') ⊎ ((b ≡ false) × (db' ≡ db))
unfolding stop_run stop_rest drop_queued
stop_run_exact (some e) g id now db db' b h = absurd (ground arith)
stop_run_exact none g id now db db' b h =
    go (count_runs (is_stoppable id db.queue.rows) db.runs) refl g h
  where
    stopped_db : Store
    stopped_db = record db {
      runs = update_runs (is_stoppable id db.queue.rows) (ends stopped now) db.runs;
    }

    go :
        (n : ℕ)
        → count_runs (is_stoppable id db.queue.rows) db.runs ≡ n
        → (g : Fault) → stop_rest g n id now stopped_db ≡ (db', ok b)
        → ((b ≡ true) × IsStopped id now db db') ⊎ ((b ≡ false) × (db' ≡ db))
    go zero e g h = inr (
      cc,
      sym (ap (λ p. p.0) h)
          ∙ ap (λ rs. record db { runs = rs })
              (count_zero (is_stoppable id db.queue.rows) (ends stopped now) db.runs e),
    )
    go (suc n) e (some x) h = absurd (ground arith)
    go (suc n) e none h =
        let rows_eq : db'.queue.rows
            ≡ update_where (is_waiting_for id) (dropped now (bytes "stopped by hand"))
                db.queue.rows =
          sym (ap (λ p. p.0.queue.rows) h) in
        inl (
          cc,
          (
            count_suc (is_stoppable id db.queue.rows) n db.runs e,
            rw (sym (ap (λ p. p.0.runs) h))
                (update_runs-Each (is_stoppable id db.queue.rows) (ends stopped now) db.runs),
            (
              rw rows_eq (
                  drop_lem (is_waiting_for id) (dropped now (bytes "stopped by hand")) db.queue.rows
                    (λ r. refl)),
              rw rows_eq (
                  update_where-Each (is_waiting_for id) (dropped now (bytes "stopped by hand"))
                    db.queue.rows),
            ),
          ),
        )

and_then_here :
    (n : ℕ) (o : Option ℕ) (rest : Option (List ℕ)) (ids : List ℕ)
    → o ≡ some n
    → and_then o rest ≡ some ids
    → is_any n ids ≡ true
unfolding and_then
and_then_here n none rest ids a b = absurd (ground arith)
and_then_here n (some i) none ids a b = absurd (ground arith)
and_then_here n (some i) (some is) ids a b =
    let e : i ∷ is ≡ ids = cc in let f : i ≡ n = cc in rw (sym e) (ground arith)

and_then_there :
    (n : ℕ) (o : Option ℕ) (rest : Option (List ℕ)) (ids : List ℕ)
    → ((is : List ℕ) → rest ≡ some is → is_any n is ≡ true)
    → and_then o rest ≡ some ids
    → is_any n ids ≡ true
unfolding and_then
and_then_there n none rest ids ih b = absurd (ground arith)
and_then_there n (some i) none ids ih b = absurd (ground arith)
and_then_there n (some i) (some is) ids ih b =
    let e : i ∷ is ≡ ids = cc in rw (sym e) (ground (arith, ih is refl))

-- A number that is read from an interrupted job's key is among those that are ended.
number_found :
    (n : ℕ) (rows : List Row) (ids : List ℕ) (r : Row)
    → interrupted_runs rows ≡ some ids
    → Memᴰ r rows
    → is_interrupted r ≡ true
    → number_of r.key ≡ some n
    → is_any n ids ≡ true
unfolding interrupted_runs
number_found n [] ids r h m e k = absurd (Memᴰ.not-nil m)
number_found n (x ∷ rows) ids r h m e k = elim (Memᴰ.cases_cons m) [
  | inl same ↦
      and_then_here n (number_of x.key) (interrupted_runs rows) ids (rw same at k)
        (rw (rw same at e) at h)
  | inr m' ↦ elim (Bool-cases (is_interrupted x)) [
    | inl f ↦
        and_then_there n (number_of x.key) (interrupted_runs rows) ids
          (λ is g. number_found n rows is r g m' e k) (rw f at h)
    | inr f ↦ number_found n rows ids r (rw f at h) m' e k
  ]
]

-- A run with a job that was under way has an end.
abbrev pub IsEnded : List Row → Run → Type 0
IsEnded rows x =
    (r : Row)
    → Memᴰ r rows
    → is_interrupted r ≡ true
    → number_of r.key ≡ some x.id
    → is_some x.finished_at ≡ true

ends-All :
    (rows : List Row) (ids : List ℕ) (now : ℕ) (runs : List Run)
    → interrupted_runs rows ≡ some ids
    → All (IsEnded rows) (update_runs (is_cut_off ids) (ends restart now) runs)
ends-All rows ids now [] h = tt
ends-All rows ids now (x ∷ runs) h = elim (Bool-cases (is_cut_off ids x)) [
  | inl e ↦ rw e (λ _ _ _ _. refl, ends-All rows ids now runs h)
  | inr e ↦ rw e (
    λ r m i n. ground (arith, number_found x.id rows ids r h m i n),
    ends-All rows ids now runs h,
  )
]

-- A restart that was dealt with: the jobs and the runs, before and after it.
abbrev pub IsCleared : ℕ → Store → Store → Type 0
IsCleared now db db' =
    All (λ r. is_interrupted r ≡ false) db'.queue.rows
    × Each (Changed is_interrupted (dropped now stop_reason)) db.queue.rows db'.queue.rows
    × All (IsEnded db.queue.rows) db'.runs
    × ((ids : List ℕ) × (interrupted_runs db.queue.rows ≡ some ids)
        × Each (Changed (is_cut_off ids) (ends restart now)) db.runs db'.runs)

-- After a restart was dealt with without an error, no check, read or lookup of any run waits or runs: one
-- by one, each such job was dropped, and every other job is as it was. Every run that had one waiting or
-- running has an end: the open ones among the runs that the keys of these jobs name were ended, and every
-- other run is as it was.
pub end_interrupted_clears :
    (f g : Fault) (now n : ℕ) (db db' : Store)
    → end_interrupted f g now db ≡ (db', ok n)
    → IsCleared now db db'
unfolding end_interrupted end_jobs end_runs
end_interrupted_clears (some e) g now n db db' h = absurd (ground arith)
end_interrupted_clears none g now n db db' h = go (interrupted_runs db.queue.rows) refl g h
  where
    go :
        (ids : Option (List ℕ))
        → interrupted_runs db.queue.rows ≡ ids
        → (g : Fault) → end_jobs g now ids db ≡ (db', ok n)
        → IsCleared now db db'
    go none e g h = absurd (ground arith)
    go (some ids) e (some x) h = absurd (ground arith)
    go (some ids) e none h =
        let rows_eq : db'.queue.rows
            ≡ update_where is_interrupted (dropped now stop_reason) db.queue.rows =
          sym (ap (λ p. p.0.queue.rows) h) in
        let runs_eq : db'.runs ≡ update_runs (is_cut_off ids) (ends restart now) db.runs =
          sym (ap (λ p. p.0.runs) h) in
        (
          rw rows_eq
              (drop_lem is_interrupted (dropped now stop_reason) db.queue.rows (λ r. ground arith)),
          rw rows_eq (update_where-Each is_interrupted (dropped now stop_reason) db.queue.rows),
          rw runs_eq (ends-All db.queue.rows ids now db.runs e),
          (ids, e, rw runs_eq (update_runs-Each (is_cut_off ids) (ends restart now) db.runs)),
        )
