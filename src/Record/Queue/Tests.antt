-- ===== src/Record/Queue/Tests.antt =====
-- The queue at concrete inputs.
use easy_docker_proxy.Base.{
  ℕ, ◌+◌, ◌≤◌, ◌≡◌, refl, true, false, List, [], ◌∷◌, ◌++◌, codes, length, arith,
}
use easy_docker_proxy.Base.Int.{pos}
use easy_docker_proxy.Record.Event.{Event, manifest}
use easy_docker_proxy.Record.Queue.{
  Queue, Options, new_queue, start, emit, close, flush, attempt_write, receive, work, step, run,
  Step, start_step, close_step, receive_step, emit_step, write_step, pending, in_flight, done,
}
use easy_docker_proxy.Record.Queue.Account.{queue_account, offered, held}
use easy_docker_proxy.Record.Queue.Drain.{Turn, ticked, went, drive, drive-Finished}
use easy_docker_proxy.Record.Queue.Order.{Sub, accepted, stored-Sub}

abbrev pull : ℕ → Event
pull ts = record {
  ts = ts;
  client_ip = codes "10.0.0.1";
  registry = codes "ghcr";
  host = codes "reg.example.com";
  event_type = manifest;
  repository = codes "owner/app";
  reference = codes "latest";
  method = codes "GET";
  status = 200;
  bytes = 7;
  duration_ms = 3;
  user_agent = codes "docker";
  error = [];
  pull_user = [];
}

abbrev small : Options
small = record { buffer = pos 2; batch_size = pos 2; max_write_attempts = pos 2 }

abbrev busy : List Step
busy =
    start_step
    ∷ emit_step 9 (pull 1)
    ∷ emit_step 9 (pull 0)
    ∷ emit_step 9 (pull 3)
    ∷ receive_step
    ∷ receive_step
    ∷ emit_step 9 (pull 4)
    ∷ write_step false
    ∷ write_step true
    ∷ close_step
    ∷ emit_step 9 (pull 5)
    ∷ []

busy-run :
    let q = run (new_queue true small) busy in
    (q.written ≡ 2)
    × (q.dropped ≡ 1)
    × (q.stored ≡ pull 1 ∷ pull 9 ∷ [])
    × (pending q ≡ pull 4 ∷ [])
unfolding new_queue step start emit close flush attempt_write receive work
busy-run = (refl, refl, refl, refl)

queue_account_example :
    let q = run (new_queue true small) busy in
    (q.written + q.dropped + held q ≡ offered (new_queue true small) busy)
    × (q.written ≡ length q.stored)
    × (length q.ch ≤ q.buffer)
    × (length (in_flight q.worker) + length q.batch ≤ q.batch_n)
queue_account_example = queue_account true small busy

stored-Sub_example :
    let q = run (new_queue true small) busy in
    Sub (q.stored ++ pending q) (accepted (new_queue true small) busy)
stored-Sub_example = stored-Sub true small busy

abbrev closing : Queue
closing = run (new_queue true small) busy

abbrev turns : List Turn
turns =
    went true
    ∷ ticked
    ∷ went true
    ∷ ticked
    ∷ went true
    ∷ went true
    ∷ went true
    ∷ went true
    ∷ went true
    ∷ went true
    ∷ went true
    ∷ went true
    ∷ went true
    ∷ went true
    ∷ went true
    ∷ went true
    ∷ []

drive-Finished_example :
    ((drive (run (new_queue true small) busy) turns).worker ≡ done)
    × (pending (drive (run (new_queue true small) busy) turns) ≡ [])
unfolding new_queue step start emit close flush attempt_write receive work
drive-Finished_example = drive-Finished true small busy turns refl (λ e. cc) (omega arith)
