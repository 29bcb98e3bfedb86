-- ===== src/Worker.antt =====
-- internal/queue/worker.go: how a worker runs one claimed job and records how it went. What a handler
-- does is a parameter. The log is left out.
use speakertrail.Common.{ℕ, Option, none, some, Text, bytes, ◌++◌}
use speakertrail.Queue.{Options, Fault, Queue, Job, Result, complete, fail}

-- How a handler ends: with its error, if any, or with a panic.
pub data Ending : Type 0 where
  returns : Option Text → Ending
  panics : Text → Ending

-- Worker.Handlers, by kind
abbrev pub Handlers : Type 0
Handlers = Text → Option (Job → Ending)

error_of : Ending → Option Text
error_of (returns e) = e
error_of (panics p) = some (bytes "panic: " ++ p)

-- call, with `none` for no error. The text of a panic is without its stack.
unfoldable pub call : Handlers → Job → Option Text
unfolding error_of
call handlers j = elim (handlers j.kind) [
  | none ↦ some (bytes "no handler for job kind " ++ j.kind)
  | some h ↦ error_of (h j)
]

-- runJob: the queue afterwards, and what recording the result came to.
unfoldable pub run_job : Options → Handlers → Fault → ℕ → Job → Queue → Queue × Result (Unit {0})
unfolding call
run_job o handlers fault now j q = elim (call handlers j) [
  | some e ↦ fail o fault now j (some e) q
  | none ↦ complete fault now j q
]
