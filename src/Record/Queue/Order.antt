-- ===== src/Record/Queue/Order.antt =====
-- The sink receives the events in the order in which they were emitted.
use mathlib.Core.List.{append_assoc, append-nil}
use easy_docker_proxy.Base.{
  ℕ, ◌≡◌, refl, sym, subst, Bool, true, false, List, [], ◌∷◌, ◌++◌, ltb, leb, ◌==◌, if◌then◌else◌,
  length, Bool-cases, inl, inr,
}
use easy_docker_proxy.Record.Event.{Event}
use easy_docker_proxy.Record.Queue.{
  Worker, waiting, writing, Queue, Options, new_queue, start, emit, close, stamp, flush,
  attempt_write, receive, Step, start_step, close_step, receive_step, tick_step, emit_step,
  write_step, work, step, run, pending,
}
use easy_docker_proxy.Record.Queue.Account.{Inv, new_queue-Inv, step-Inv}

-- The first list is the second with some elements left out.
pub data Sub : List Event → List Event → Type 0 where
  nil : Sub [] []
  keep : {xs ys : List Event} (x : Event) → Sub xs ys → Sub (x ∷ xs) (x ∷ ys)
  skip : {xs ys : List Event} (x : Event) → Sub xs ys → Sub xs (x ∷ ys)

Sub_refl : (xs : List Event) → Sub xs xs
Sub_refl [] = nil
Sub_refl (x ∷ xs) = keep x (Sub_refl xs)

Sub_from_nil : (ys : List Event) → Sub [] ys
Sub_from_nil [] = nil
Sub_from_nil (x ∷ ys) = skip x (Sub_from_nil ys)

Sub-append : {xs ys us vs : List Event} → Sub xs ys → Sub us vs → Sub (xs ++ us) (ys ++ vs)
Sub-append nil t = t
Sub-append (keep x s) t = keep x (Sub-append s t)
Sub-append (skip x s) t = skip x (Sub-append s t)

Sub_trans : {xs ys zs : List Event} → Sub xs ys → Sub ys zs → Sub xs zs
Sub_trans s nil = s
Sub_trans (keep x s) (keep _ t) = keep x (Sub_trans s t)
Sub_trans (skip x s) (keep _ t) = skip x (Sub_trans s t)
Sub_trans s (skip x t) = skip x (Sub_trans s t)

-- What one step adds to the events taken in.
abbrev pub taken : Queue → Step → List Event
taken q (emit_step now e) =
    if q.closed then [] else if ltb (length q.ch) q.buffer then stamp now e ∷ [] else []
taken q _ = []

abbrev pub accepted : Queue → List Step → List Event
accepted q [] = []
accepted q (s ∷ more) = taken q s ++ accepted (step q s) more

-- What has been stored, followed by what may yet be.
abbrev line : Queue → List Event
line q = q.stored ++ pending q

drop_middle : (xs ys zs : List Event) → Sub (xs ++ zs) (xs ++ (ys ++ zs))
drop_middle xs ys zs = Sub-append (Sub_refl xs) (Sub-append (Sub_from_nil ys) (Sub_refl zs))

flush-Sub :
    (q : Queue) (last : Bool) (b : List Event)
    → q.batch ≡ b
    → Sub (line (flush q last b)) (q.stored ++ (b ++ q.ch))
unfolding flush
flush-Sub q true [] e = rw e (Sub_refl (q.stored ++ q.ch))
flush-Sub q false [] e = rw e (Sub_refl (q.stored ++ q.ch))
flush-Sub q true (x ∷ es) e = elim (Bool-cases q.has_sink) [
  | inl sink ↦ simp sink (Sub_refl (q.stored ++ ((x ∷ es) ++ q.ch)))
  | inr no_sink ↦ simp no_sink (drop_middle q.stored (x ∷ es) q.ch)
]
flush-Sub q false (x ∷ es) e = elim (Bool-cases q.has_sink) [
  | inl sink ↦ simp sink (Sub_refl (q.stored ++ ((x ∷ es) ++ q.ch)))
  | inr no_sink ↦ simp no_sink (drop_middle q.stored (x ∷ es) q.ch)
]

attempt_write-Sub :
    (q : Queue) (out : List Event) (attempt : ℕ) (last took : Bool)
    → Sub (line (attempt_write q out attempt last took)) (q.stored ++ (out ++ (q.batch ++ q.ch)))
unfolding attempt_write
attempt_write-Sub q out attempt true true = rw append_assoc (Sub_refl _)
attempt_write-Sub q out attempt false true = rw append_assoc (Sub_refl _)
attempt_write-Sub q out attempt true false = elim (Bool-cases (attempt == q.max_attempts)) [
  | inl spent ↦ rw spent (drop_middle q.stored out (q.batch ++ q.ch))
  | inr more ↦ rw more (Sub_refl _)
]
attempt_write-Sub q out attempt false false = elim (Bool-cases (attempt == q.max_attempts)) [
  | inl spent ↦ rw spent (drop_middle q.stored out (q.batch ++ q.ch))
  | inr more ↦ rw more (Sub_refl _)
]

receive-Sub :
    (q : Queue) (c : List Event)
    → q.ch ≡ c
    → q.worker ≡ waiting
    → Sub (line (receive q c)) (q.stored ++ (q.batch ++ c))
unfolding receive
receive-Sub q [] e w = elim (Bool-cases q.closed) [
  | inl shut ↦ simp shut (
      subst (λ c. Sub (line (flush q true q.batch)) (q.stored ++ (q.batch ++ c))) e
        (flush-Sub q true q.batch refl))
  | inr still_open ↦ simp (still_open, w, e) (Sub_refl _)
]
receive-Sub q (x ∷ rest) e w =
    let batch' = q.batch ++ x ∷ [] in
    let q' = record q { ch = rest; batch = batch' } in
    let moved = append_assoc q.batch (x ∷ []) rest in
    elim (Bool-cases (leb q.batch_n (length batch'))) [
      | inl full ↦ rw full (
          subst (λ l. Sub (line (flush q' false batch')) (q.stored ++ l)) moved
            (flush-Sub q' false batch' refl))
      | inr room ↦
          simp (room, w)
            (subst (λ l. Sub (q.stored ++ l) (q.stored ++ (q.batch ++ x ∷ rest))) (sym moved)
              (Sub_refl _))
    ]

work-Sub : (q : Queue) (w : Worker) (s : Step) → q.worker ≡ w → Sub (line (work q w s)) (line q)
unfolding work
work-Sub q waiting receive_step e = simp e (receive-Sub q q.ch refl e)
work-Sub q waiting tick_step e = simp e (flush-Sub q false q.batch refl)
work-Sub q (writing out attempt last) (write_step took) e =
    simp e (attempt_write-Sub q out attempt last took)
work-Sub q _ _ e = Sub_refl (line q)

step-Sub : (q : Queue) (s : Step) → Inv q → Sub (line (step q s)) (line q ++ taken q s)
unfolding step start close emit
step-Sub q start_step v = rw append-nil (elim (Bool-cases q.start_once) [
  | inl again ↦ simp again (Sub_refl (line q))
  | inr first ↦ elim (Bool-cases q.closed) [
    | inl shut ↦ simp (first, shut) (Sub_refl (line q))
    | inr still_open ↦ simp (first, still_open, v.absent_unstarted first) (Sub_refl _)
  ]
])
step-Sub q close_step v = rw append-nil (Sub_refl (line q))
step-Sub q (emit_step now e) v = elim (Bool-cases q.closed) [
  | inl shut ↦ simp (shut, append-nil) (Sub_refl (line q))
  | inr still_open ↦ elim (Bool-cases (ltb (length q.ch) q.buffer)) [
    | inl room ↦ simp (still_open, room, append_assoc) (Sub_refl _)
    | inr full ↦ simp (still_open, full, append-nil) (Sub_refl (line q))
  ]
]
step-Sub q receive_step v = rw append-nil (work-Sub q q.worker receive_step refl)
step-Sub q tick_step v = rw append-nil (work-Sub q q.worker tick_step refl)
step-Sub q (write_step took) v = rw append-nil (work-Sub q q.worker (write_step took) refl)

run-Sub :
    (q : Queue) (more : List Step) → Inv q → Sub (line (run q more)) (line q ++ accepted q more)
run-Sub q [] v = rw append-nil (Sub_refl (line q))
run-Sub q (s ∷ more) v =
    subst (Sub (line (run (step q s) more)))
      (append_assoc (line q) (taken q s) (accepted (step q s) more))
      (Sub_trans (run-Sub (step q s) more (step-Inv q s v))
        (Sub-append (step-Sub q s v) (Sub_refl (accepted (step q s) more))))

-- After any schedule of a new queue, the events in the sink followed by those still pending are the
-- events that the queue took in, in the order of `Emit`, with some left out.
pub stored-Sub :
    (has_sink : Bool) (opt : Options) (steps : List Step)
    → let q = run (new_queue has_sink opt) steps in
      Sub (q.stored ++ pending q) (accepted (new_queue has_sink opt) steps)
unfolding new_queue
stored-Sub has_sink opt steps = run-Sub (new_queue has_sink opt) steps (new_queue-Inv has_sink opt)
