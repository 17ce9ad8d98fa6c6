-- ===== src/Record/Queue/Account.antt =====
-- No event is lost without being counted, and the buffers stay within their bounds.
use easy_docker_proxy.Base.{
  ℕ, ◌+◌, ◌≤◌, ◌<◌, ◌≡◌, refl, Bool, true, false, List, [], ◌∷◌, ◌++◌, leb, if◌then◌else◌, length,
  length-append, arith, Bool-cases, inl, inr,
}
use easy_docker_proxy.Record.Event.{Event}
use easy_docker_proxy.Record.Queue.{
  Worker, absent, waiting, done, writing, Queue, Options, new_queue, start, emit, close, flush,
  attempt_write, receive, Step, start_step, close_step, receive_step, tick_step, emit_step,
  write_step, work, step, run, stamp, in_flight,
}

-- The emit calls of a schedule that come before `Close`.
abbrev pub offers : Queue → Step → ℕ
offers q (emit_step now e) = if q.closed then 0 else 1
offers q _ = 0

abbrev pub offered : Queue → List Step → ℕ
offered q [] = 0
offered q (s ∷ more) = offers q s + offered (step q s) more

abbrev pub held : Queue → ℕ
held q = length (in_flight q.worker) + length q.batch + length q.ch

abbrev WorkerInv : Queue → Worker → Type 0
WorkerInv q absent = q.batch ≡ []
WorkerInv q waiting = length q.batch < q.batch_n
WorkerInv q (writing out attempt last) =
    (q.batch ≡ [])
    × (length out ≤ q.batch_n)
    × (0 < attempt)
    × (attempt ≤ q.max_attempts)
    × (last ≡ true → (q.ch ≡ []) × (q.closed ≡ true))
WorkerInv q done = (q.batch ≡ []) × (q.ch ≡ []) × (q.closed ≡ true)

pub record Inv (q : Queue) : Type 0 where
  pub batch_pos : 0 < q.batch_n
  pub attempts_pos : 0 < q.max_attempts
  pub bounded : length q.ch ≤ q.buffer
  pub absent_unstarted : q.start_once ≡ false → q.worker ≡ absent
  pub counted : q.written ≡ length q.stored
  pub worker_ok : WorkerInv q q.worker

pub new_queue-Inv : (has_sink : Bool) (opt : Options) → Inv (new_queue has_sink opt)
unfolding new_queue
new_queue-Inv has_sink opt = ground arith

-- What `flush` needs to know of its caller.
record Ready (q : Queue) : Type 0 where
  batch_pos : 0 < q.batch_n
  attempts_pos : 0 < q.max_attempts
  bounded : length q.ch ≤ q.buffer
  started : q.start_once ≡ true
  counted : q.written ≡ length q.stored
  fits : length q.batch ≤ q.batch_n

flush-Inv :
    (q : Queue) (last : Bool) (b : List Event)
    → Ready q
    → q.batch ≡ b
    → (last ≡ true → (q.ch ≡ []) × (q.closed ≡ true))
    → Inv (flush q last b)
unfolding flush
flush-Inv q true [] v e k = ground (arith, k refl)
flush-Inv q false [] v e k = ground arith
flush-Inv q true (x ∷ es) v e k = ground (arith, k refl)
flush-Inv q false (x ∷ es) v e k = ground arith

flush_account :
    (q : Queue) (last : Bool) (b : List Event)
    → q.batch ≡ b
    → (flush q last b).written + (flush q last b).dropped + held (flush q last b)
      ≡ q.written + q.dropped + length q.batch + length q.ch
unfolding flush
flush_account q true [] e = ground arith
flush_account q false [] e = ground arith
flush_account q last (x ∷ es) e = ground arith

attempt_write-Inv :
    (q : Queue) (out : List Event) (attempt : ℕ) (last took : Bool)
    → Inv q
    → q.worker ≡ writing out attempt last
    → Inv (attempt_write q out attempt last took)
unfolding attempt_write
attempt_write-Inv q out attempt true true v e = ground (arith, length-append q.stored out)
attempt_write-Inv q out attempt false true v e = ground (arith, length-append q.stored out)
attempt_write-Inv q out attempt true false v e = ground arith
attempt_write-Inv q out attempt false false v e = ground arith

attempt_write_account :
    (q : Queue) (out : List Event) (attempt : ℕ) (last took : Bool)
    → (attempt_write q out attempt last took).written
        + (attempt_write q out attempt last took).dropped
        + held (attempt_write q out attempt last took)
      ≡ q.written + q.dropped + length out + length q.batch + length q.ch
unfolding attempt_write
attempt_write_account q out attempt true true = ground arith
attempt_write_account q out attempt false true = ground arith
attempt_write_account q out attempt true false = ground arith
attempt_write_account q out attempt false false = ground arith

waiting-Ready : (q : Queue) → Inv q → q.worker ≡ waiting → Ready q
waiting-Ready q v w = ground arith

receive-Inv :
    (q : Queue) (c : List Event) → Inv q → q.ch ≡ c → q.worker ≡ waiting → Inv (receive q c)
unfolding receive
receive-Inv q [] v e w = elim (Bool-cases q.closed) [
  | inl shut ↦ simp shut (flush-Inv q true q.batch (waiting-Ready q v w) refl (λ _. (e, shut)))
  | inr still_open ↦ simp still_open v
]
receive-Inv q (x ∷ rest) v e w =
    let batch' = q.batch ++ x ∷ [] in
    let q' = record q { ch = rest; batch = batch' } in
    let r = waiting-Ready q v w in
    elim (Bool-cases (leb q.batch_n (length batch'))) [
      | inl full ↦
          let ready : Ready q' = ground (arith, r, length-append q.batch (x ∷ [])) in
          rw full (flush-Inv q' false batch' ready refl (λ h. cc h))
      | inr room ↦ rw room (ground (arith, v, w, length-append q.batch (x ∷ [])))
    ]

receive_account :
    (q : Queue) (c : List Event)
    → q.ch ≡ c
    → q.worker ≡ waiting
    → (receive q c).written + (receive q c).dropped + held (receive q c)
      ≡ q.written + q.dropped + length q.batch + length q.ch
unfolding receive
receive_account q [] e w = ground (arith, flush_account q true q.batch refl)
receive_account q (x ∷ rest) e w =
    let batch' = q.batch ++ x ∷ [] in
    let q' = record q { ch = rest; batch = batch' } in
    ground (arith, flush_account q' false batch' refl, length-append q.batch (x ∷ []))

work-Inv : (q : Queue) (w : Worker) (s : Step) → Inv q → q.worker ≡ w → Inv (work q w s)
unfolding work
work-Inv q waiting receive_step v e = receive-Inv q q.ch v refl e
work-Inv q waiting tick_step v e = flush-Inv q false q.batch (waiting-Ready q v e) refl (λ h. cc h)
work-Inv q (writing out attempt last) (write_step took) v e =
    attempt_write-Inv q out attempt last took v e
work-Inv q _ _ v e = v

work_account :
    (q : Queue) (w : Worker) (s : Step)
    → q.worker ≡ w
    → (work q w s).written + (work q w s).dropped + held (work q w s)
      ≡ q.written + q.dropped + held q
unfolding work
work_account q waiting receive_step e = ground (arith, receive_account q q.ch refl e)
work_account q waiting tick_step e = ground (arith, flush_account q false q.batch refl)
work_account q (writing out attempt last) (write_step took) e =
    ground (arith, attempt_write_account q out attempt last took)
work_account q _ _ e = refl

-- Every step keeps the bounds: the channel within the buffer, the batch within the batch size,
-- the attempts within their number, and nothing left behind by a worker that has returned.
pub step-Inv : (q : Queue) (s : Step) → Inv q → Inv (step q s)
unfolding step start close emit
step-Inv q start_step v = ground arith
step-Inv q close_step v = ground arith
step-Inv q (emit_step now e) v = ground (arith, length-append q.ch (stamp now e ∷ []))
step-Inv q receive_step v = work-Inv q q.worker receive_step v refl
step-Inv q tick_step v = work-Inv q q.worker tick_step v refl
step-Inv q (write_step took) v = work-Inv q q.worker (write_step took) v refl

step_account :
    (q : Queue) (s : Step)
    → Inv q
    → (step q s).written + (step q s).dropped + held (step q s)
      ≡ q.written + q.dropped + held q + offers q s
unfolding step start close emit
step_account q start_step v = ground arith
step_account q close_step v = ground arith
step_account q (emit_step now e) v = ground (arith, length-append q.ch (stamp now e ∷ []))
step_account q receive_step v = omega (arith, work_account q q.worker receive_step refl)
step_account q tick_step v = omega (arith, work_account q q.worker tick_step refl)
step_account q (write_step took) v = omega (arith, work_account q q.worker (write_step took) refl)

pub run-Inv : (q : Queue) (more : List Step) → Inv q → Inv (run q more)
run-Inv q [] v = v
run-Inv q (s ∷ more) v = run-Inv (step q s) more (step-Inv q s v)

run_account :
    (q : Queue) (more : List Step)
    → Inv q
    → (run q more).written + (run q more).dropped + held (run q more)
      ≡ q.written + q.dropped + held q + offered q more
run_account q [] v = omega arith
run_account q (s ∷ more) v =
    omega (arith, step_account q s v, run_account (step q s) more (step-Inv q s v))

worker_fits :
    (q : Queue)
    → Inv q
    → (w : Worker) → q.worker ≡ w
    → length (in_flight q.worker) + length q.batch ≤ q.batch_n
worker_fits q v absent e = ground arith
worker_fits q v _ e = ground arith

-- After any schedule of a new queue: each event offered before `Close` is counted as written or as
-- dropped, or is still in the channel, the batch or the write under way; the written ones are those
-- that the sink holds; the channel and the batch keep within the configured sizes.
pub queue_account :
    (has_sink : Bool) (opt : Options) (steps : List Step)
    → let q = run (new_queue has_sink opt) steps in
      (q.written + q.dropped + held q ≡ offered (new_queue has_sink opt) steps)
      × (q.written ≡ length q.stored)
      × (length q.ch ≤ q.buffer)
      × (length (in_flight q.worker) + length q.batch ≤ q.batch_n)
unfolding new_queue
queue_account has_sink opt steps =
    let q₀ = new_queue has_sink opt in
    let v = run-Inv q₀ steps (new_queue-Inv has_sink opt) in
    (
      omega (arith, run_account q₀ steps (new_queue-Inv has_sink opt)),
      v.counted,
      v.bounded,
      worker_fits (run q₀ steps) v (run q₀ steps).worker refl,
    )
