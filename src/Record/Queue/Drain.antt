-- ===== src/Record/Queue/Drain.antt =====
-- After `Close` the worker returns, with the channel and the batch emptied, whatever the sink does.
use easy_docker_proxy.Base.{
  ℕ, zero, suc, ◌+◌, ◌-◌, ◌≤◌, ◌<◌, ◌≡◌, ◌≢◌, ◌⊎◌, refl, sym, subst, Bool, true, false, List, [],
  ◌∷◌, ◌++◌, length, leb, if◌then◌else◌, arith, inl, inr,
}
use easy_docker_proxy.Record.Event.{Event}
use easy_docker_proxy.Record.Queue.{
  Worker, absent, waiting, done, writing, Queue, flush, attempt_write, receive, Step, receive_step,
  Options, new_queue, run, tick_step, write_step, work, step, pending,
}
use easy_docker_proxy.Record.Queue.Account.{Inv, step-Inv, run-Inv, new_queue-Inv}

-- One turn of a worker that runs: the ticker fires, or it goes on. A worker that waits goes on with
-- the next event of the channel; one that writes has the answer of the sink, and sees no tick.
pub data Turn : Type 0 where
  ticked : Turn
  went : (took : Bool) → Turn

abbrev pub next_step : Worker → Turn → Step
next_step w ticked = tick_step
next_step (writing out attempt last) (went took) = write_step took
next_step _ (went took) = receive_step

abbrev pub drive : Queue → List Turn → Queue
drive q [] = q
drive q (t ∷ turns) = drive (step q (next_step q.worker t)) turns

-- The turns that are no ticks.
abbrev pub moves_in : List Turn → ℕ
moves_in [] = 0
moves_in (ticked ∷ turns) = moves_in turns
moves_in (went took ∷ turns) = suc (moves_in turns)

-- Each batch costs at most `a` writes and what starts them.
abbrev pub cost : ℕ → ℕ → ℕ
cost a zero = 0
cost a (suc n) = cost a n + (a + 1)

-- There are at most as many batches as events, those that are collected counted as one.
abbrev pub batches : ℕ → List Event → ℕ
batches n [] = n
batches n (e ∷ es) = suc n

abbrev left : ℕ → ℕ → List Event → ℕ
left a n batch = n + 1 + cost a (batches n batch)

-- How many more moves the worker can make.
abbrev pub moves : ℕ → ℕ → List Event → Worker → ℕ
moves a n batch absent = 0
moves a n batch done = 0
moves a n batch waiting = left a n batch
moves a n batch (writing out attempt false) = (a + 1 - attempt) + left a n batch
moves a n batch (writing out attempt true) = a + 1 - attempt

abbrev pub fuel : Queue → ℕ
fuel q = moves q.max_attempts (length q.ch) q.batch q.worker

abbrev Kept : Queue → Queue → Type 0
Kept q q' = (q'.closed ≡ true) × (q'.worker ≢ absent)

abbrev Advances : Queue → Queue → Type 0
Advances q q' = (fuel q' < fuel q) × Kept q q'

last_flush-Advances :
    (q : Queue) (b : List Event)
    → 0 < q.max_attempts
    → q.closed ≡ true
    → q.worker ≡ waiting
    → q.batch ≡ b
    → Advances q (flush q true b)
unfolding flush
last_flush-Advances q [] pos shut w e = ground arith
last_flush-Advances q (x ∷ xs) pos shut w e = ground arith

collect-Advances :
    (q : Queue) (b : List Event) (x : Event) (rest : List Event)
    → 0 < q.max_attempts
    → q.closed ≡ true
    → q.worker ≡ waiting
    → q.ch ≡ x ∷ rest
    → q.batch ≡ b
    → Advances q (
        let batch' = b ++ x ∷ [] in
        let q' = record q { ch = rest; batch = batch' } in
        if leb q.batch_n (length batch') then flush q' false batch' else q')
unfolding flush
collect-Advances q [] x rest pos shut w e k = ground arith
collect-Advances q (y ∷ ys) x rest pos shut w e k = ground arith

receive-Advances :
    (q : Queue) (c : List Event)
    → Inv q
    → q.closed ≡ true
    → q.worker ≡ waiting
    → q.ch ≡ c
    → Advances q (receive q c)
unfolding receive
receive-Advances q [] v shut w e =
    simp shut (last_flush-Advances q q.batch v.attempts_pos shut w refl)
receive-Advances q (x ∷ rest) v shut w e =
    collect-Advances q q.batch x rest v.attempts_pos shut w e refl

-- A tick costs no move.
tick-Kept :
    (q : Queue) (b : List Event)
    → 0 < q.max_attempts
    → q.closed ≡ true
    → q.worker ≡ waiting
    → q.batch ≡ b
    → (fuel (flush q false b) ≤ fuel q) × Kept q (flush q false b)
unfolding flush
tick-Kept q [] pos shut w e = ground arith
tick-Kept q (x ∷ xs) pos shut w e = ground arith

attempt_write-Advances :
    (q : Queue) (out : List Event) (attempt : ℕ) (last took : Bool)
    → Inv q
    → q.closed ≡ true
    → q.worker ≡ writing out attempt last
    → Advances q (attempt_write q out attempt last took)
unfolding attempt_write
attempt_write-Advances q out attempt true true v shut w = ground arith
attempt_write-Advances q out attempt false true v shut w = ground arith
attempt_write-Advances q out attempt true false v shut w = ground arith
attempt_write-Advances q out attempt false false v shut w = ground arith

step-Advances :
    (q : Queue) (w : Worker) (took : Bool)
    → Inv q
    → q.closed ≡ true
    → q.worker ≡ w
    → w ≢ absent
    → w ≢ done
    → Advances q (step q (next_step w (went took)))
unfolding step work
step-Advances q absent took v shut e a d = absurd (a refl)
step-Advances q done took v shut e a d = absurd (d refl)
step-Advances q waiting took v shut e a d = ground (arith, receive-Advances q q.ch v shut e refl)
step-Advances q (writing out attempt last) took v shut e a d =
    ground (arith, attempt_write-Advances q out attempt last took v shut e)

step-Kept :
    (q : Queue) (w : Worker)
    → Inv q
    → q.closed ≡ true
    → q.worker ≡ w
    → w ≢ absent
    → (fuel (step q tick_step) ≤ fuel q) × Kept q (step q tick_step)
unfolding step work
step-Kept q absent v shut e a = absurd (a refl)
step-Kept q done v shut e a = ground arith
step-Kept q waiting v shut e a = ground (arith, tick-Kept q q.batch v.attempts_pos shut e refl)
step-Kept q (writing out attempt last) v shut e a = ground arith

record Finished (q : Queue) : Type 0 where
  returned : q.worker ≡ done
  emptied : pending q ≡ []

done-Finished : (q : Queue) → Inv q → q.worker ≡ done → Finished q
done-Finished q v e = ground arith

worker_cases : (w : Worker) → (w ≡ done) ⊎ (w ≢ done)
worker_cases done = inl refl
worker_cases absent = inr (λ e. cc)
worker_cases waiting = inr (λ e. cc)
worker_cases (writing out attempt last) = inr (λ e. cc)

done_stays : (q : Queue) (turns : List Turn) → q.worker ≡ done → drive q turns ≡ q
unfolding step work
done_stays q [] e = refl
done_stays q (ticked ∷ turns) e = simp e (done_stays q turns e)
done_stays q (went took ∷ turns) e = simp e (done_stays q turns e)

fuel_pos : (q : Queue) (w : Worker) → Inv q → q.worker ≡ w → w ≢ absent → w ≢ done → 0 < fuel q
fuel_pos q absent v e a d = absurd (a refl)
fuel_pos q done v e a d = absurd (d refl)
fuel_pos q waiting v e a d = rw e (omega arith)
fuel_pos q (writing out attempt true) v e a d = ground arith
fuel_pos q (writing out attempt false) v e a d = ground arith

abbrev Returned : Queue → Type 0
Returned q = (q.worker ≡ done) × (pending q ≡ [])

finished_stays :
    (q : Queue) (turns : List Turn) → Inv q → q.worker ≡ done → Returned (drive q turns)
finished_stays q turns v d =
    subst Returned (sym (done_stays q turns d)) (d, (done-Finished q v d).emptied)

drive_enough :
    (q : Queue) (turns : List Turn)
    → Inv q
    → q.closed ≡ true
    → q.worker ≢ absent
    → fuel q ≤ moves_in turns
    → Returned (drive q turns)
drive_enough q [] v shut a enough = elim (worker_cases q.worker) [
  | inl d ↦ finished_stays q [] v d
  | inr n ↦ absurd (omega (arith, fuel_pos q q.worker v refl a n))
]
drive_enough q (ticked ∷ turns) v shut a enough =
    let k = step-Kept q q.worker v shut refl a in
    drive_enough (step q tick_step) turns (step-Inv q tick_step v) (k.1.0) (k.1.1)
      (omega (arith, k.0, enough))
drive_enough q (went took ∷ turns) v shut a enough = elim (worker_cases q.worker) [
  | inl d ↦ finished_stays q (went took ∷ turns) v d
  | inr n ↦
      let s = next_step q.worker (went took) in
      let (less, k) = step-Advances q q.worker took v shut refl a n in
      drive_enough (step q s) turns (step-Inv q s v) (k.0) (k.1) (omega (arith, less, enough))
]

-- A queue after any schedule of steps, closed, with a worker that has been started: once the worker
-- has made as many moves as the queue has left (each event costs at most one receive and
-- `max_attempts` writes, and there is one more receive), it has returned and nothing is pending,
-- whatever the sink answers and however often the ticker fires in between, which is not counted.
pub drive-Finished :
    (has_sink : Bool) (opt : Options) (steps : List Step) (turns : List Turn)
    → (run (new_queue has_sink opt) steps).closed ≡ true
    → (run (new_queue has_sink opt) steps).worker ≢ absent
    → fuel (run (new_queue has_sink opt) steps) ≤ moves_in turns
    → ((drive (run (new_queue has_sink opt) steps) turns).worker ≡ done)
      × (pending (drive (run (new_queue has_sink opt) steps) turns) ≡ [])
drive-Finished has_sink opt steps turns shut a enough =
    drive_enough (run (new_queue has_sink opt) steps) turns
      (run-Inv (new_queue has_sink opt) steps (new_queue-Inv has_sink opt)) shut a enough
