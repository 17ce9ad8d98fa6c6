-- ===== src/Record/Queue.antt =====
-- internal/record/queue.go: the bounded queue between the proxy and the store.
--
-- Emitters, the worker and `Close` run at once. The mutex and the channel make each piece below
-- one step, and a schedule is a list of steps, in any order. The worker waits in its `select`, or
-- is between two attempts of `flush`; `stored` is what the sink has taken, in order. A step that
-- the worker is not ready for changes nothing. The counters are uint64 in the source and wrap
-- after 2^64 events; here they are plain numbers.
pub mod Account
pub mod Order
pub mod Drain
mod Tests
use easy_docker_proxy.Base.{
  ℕ, suc, ◌+◌, ◌≡◌, Bool, true, false, not, List, [], ◌∷◌, ◌++◌, ltb, leb, ◌==◌, if◌then◌else◌,
  length,
}
use easy_docker_proxy.Base.Int.{ℤ, pos, pos_part, ltb_ℤ}
use easy_docker_proxy.Record.Event.{Event}

-- `out` is the batch being written, `attempt` counts from 1, `last` says that the channel is
-- closed and drained.
pub data Worker : Type 0 where
  absent waiting done : Worker
  writing : (out : List Event) (attempt : ℕ) (last : Bool) → Worker

pub record Queue : Type 0 where
  pub buffer : ℕ
  pub batch_n : ℕ
  pub max_attempts : ℕ
  pub has_sink : Bool
  pub ch : List Event
  pub batch : List Event
  pub worker : Worker
  pub start_once : Bool
  pub closed : Bool
  pub dropped : ℕ
  pub written : ℕ
  pub stored : List Event

-- `FlushInterval` and `RetryBackoff` only say when a step happens.
pub record Options : Type 0 where
  pub buffer : ℤ
  pub batch_size : ℤ
  pub max_write_attempts : ℤ

abbrev or_default : ℤ → ℕ → ℕ
or_default z d = if ltb_ℤ (pos 0) z then pos_part z else d

unfoldable pub new_queue : Bool → Options → Queue
new_queue has_sink opt = record {
  buffer = or_default opt.buffer 4096;
  batch_n = or_default opt.batch_size 200;
  max_attempts = or_default opt.max_write_attempts 3;
  has_sink = has_sink;
  ch = [];
  batch = [];
  worker = absent;
  start_once = false;
  closed = false;
  dropped = 0;
  written = 0;
  stored = [];
}

unfoldable pub start : Queue → Queue
start q =
    if q.start_once
    then q
    else if q.closed
    then record q { start_once = true }
    else record q { start_once = true; worker = waiting }

-- `if e.TS.IsZero() { e.TS = time.Now().UTC() }`
abbrev pub stamp : ℕ → Event → Event
stamp now e = if e.ts == 0 then record e { ts = now } else e

unfoldable pub emit : Queue → ℕ → Event → Queue
emit q now e =
    if q.closed
    then q
    else if ltb (length q.ch) q.buffer
    then record q { ch = q.ch ++ stamp now e ∷ [] }
    else record q { dropped = q.dropped + 1 }

unfoldable pub close : Queue → Queue
close q = record q { closed = true }

-- Where the worker goes after `flush`.
abbrev pub resume : Bool → Worker
resume true = done
resume false = waiting

-- `flush`, up to the first write; the last argument is `batch`.
unfoldable pub flush : Queue → Bool → List Event → Queue
flush q last [] = record q { worker = resume last }
flush q last (e ∷ es) =
    if not q.has_sink
    then record q { dropped = q.dropped + length (e ∷ es); batch = []; worker = resume last }
    else record q { batch = []; worker = writing (e ∷ es) 1 last }

-- One round of the loop of `flush`; the last argument is whether the sink took the batch.
unfoldable pub attempt_write : Queue → List Event → ℕ → Bool → Bool → Queue
attempt_write q out attempt last true = record q {
  written = q.written + length out;
  stored = q.stored ++ out;
  worker = resume last;
}
attempt_write q out attempt last false =
    if attempt == q.max_attempts
    then record q { dropped = q.dropped + length out; worker = resume last }
    else record q { worker = writing out (attempt + 1) last }

-- `case e, ok := <-q.ch`; on an open, empty channel the worker goes on waiting.
unfoldable pub receive : Queue → List Event → Queue
receive q [] = if q.closed then flush q true q.batch else q
receive q (e ∷ rest) =
    let batch' = q.batch ++ e ∷ [] in
    let q' = record q { ch = rest; batch = batch' } in
    if leb q.batch_n (length batch') then flush q' false batch' else q'

pub data Step : Type 0 where
  start_step close_step receive_step tick_step : Step
  emit_step : (now : ℕ) (e : Event) → Step
  write_step : (took : Bool) → Step

unfoldable pub work : Queue → Worker → Step → Queue
work q waiting receive_step = receive q q.ch
work q waiting tick_step = flush q false q.batch
work q (writing out attempt last) (write_step took) = attempt_write q out attempt last took
work q _ _ = q

unfoldable pub step : Queue → Step → Queue
step q start_step = start q
step q close_step = close q
step q (emit_step now e) = emit q now e
step q receive_step = work q q.worker receive_step
step q tick_step = work q q.worker tick_step
step q (write_step took) = work q q.worker (write_step took)

abbrev pub run : Queue → List Step → Queue
run q [] = q
run q (s ∷ more) = run (step q s) more

-- The events that are in the worker's hands.
abbrev pub in_flight : Worker → List Event
in_flight (writing out attempt last) = out
in_flight _ = []

-- The events that were taken in and have not been disposed of, oldest first.
abbrev pub pending : Queue → List Event
pending q = in_flight q.worker ++ (q.batch ++ q.ch)
