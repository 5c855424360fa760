-- ===== src/Threads/Order.antt =====
-- The queue operations of the threads as runs of `ThreadPool.Order`.
use proxy_server_in_c.Common.{ℕ, suc, ◌≡◌, ◌∙◌, refl, true, false, List, [], ◌∷◌, ◌++◌, ◌==◌, arith}
use proxy_server_in_c.Common.Int.{ℤ}
use proxy_server_in_c.Common.Run.{ok, Returns-ok}
use proxy_server_in_c.Cache.{Ptr}
use proxy_server_in_c.Cache.Order.{has, remove, has-remove_ne, has-remove_self}
use proxy_server_in_c.ThreadPool.{Queue, Turn, worker_turn, free_task}
use proxy_server_in_c.ThreadPool.Order.{Steps, IsFifo, Steps-IsFifo}
use proxy_server_in_c.Threads.{
  Pc, looking, testing, waiting, holding, serving, exited, System, total, of, holds, after_turn,
  Work, look, sleep, sem_wait, finish, Step, work, spurious, spawn, ready, add, stop, Reach, start,
  later, accepted_after, taken_by, taken_in_work, taken_after, accepted, taken,
}
use proxy_server_in_c.Threads.Totals.{
  total-move, total-least, total-snoc, total-Signal, total-broadcast, Outcome, nothing, over, got,
  worker_turn-Outcome,
}
use proxy_server_in_c.Threads.Orderly.{IsOrderly, of-front}
use proxy_server_in_c.Threads.Invariant.{Reach-IsOrderly}

-- A run of the queue that accepts and takes these sockets, leads to the queue of `s`, and leaves in
-- the hands of the workers what is in their hands in `s`.
pub record IsRun (s : System) (came gone : List ℤ) : Type 0 where
  pub held : List Ptr
  pub run : Steps s.queue came gone held
  pub in_hand : (p : Ptr) → total (holds p) s.workers ≡ of (has p held)

-- A step of one worker that leaves the queue and its hands as they are.
move-IsRun :
    {s : System} {came gone : List ℤ} (pre post : List Pc) (w w' : Pc) (n : ℕ)
    → IsRun s came gone
    → s.workers ≡ pre ++ (w ∷ post)
    → ((p : Ptr) → holds p w' ≡ holds p w)
    → IsRun (record s { workers = pre ++ (w' ∷ post); semaphore = n }) came gone
move-IsRun pre post w w' n r e same = record {
  held = r.held;
  run = r.run;
  in_hand = λ p. omega (arith, total-move (holds p) pre post w w' e, same p, r.in_hand p);
}

look-IsRun :
    {s : System} {came gone : List ℤ} (pre post : List Pc) {turn : Turn} {q : Queue}
    → (f : IsOrderly s) → IsRun s came gone
    → s.workers ≡ pre ++ (looking ∷ post)
    → worker_turn s.queue ≡ ok turn q
    → Outcome s.queue f.tasks turn q
    → IsRun
        (record s { queue = q; workers = pre ++ (after_turn turn ∷ post) })
        came
        (taken_by gone turn q)
look-IsRun {s} pre post f r e looked (nothing none runs) =
    move-IsRun pre post looking testing s.semaphore r e (λ p. refl)
look-IsRun {s} pre post f r e looked (over down) =
    move-IsRun pre post looking exited s.semaphore r e (λ p. refl)
look-IsRun {s} pre post {q = q} f r e looked (got task rest front runs good live same) =
    let there : has task f.tasks ≡ true = rw front (ground arith) in
    let absent : has task r.held ≡ false = ground (arith, there, f.memory task, r.in_hand task) in
    record {
      held = task ∷ r.held;
      run = Steps.take r.run looked;
      in_hand = λ p. omega (
        arith,
        total-move (holds p) pre post looking (holding task) e,
        r.in_hand p,
        of-front task p r.held absent,
      );
    }

finish-IsRun :
    {s : System} {came gone : List ℤ} (pre post : List Pc) (task : Ptr) {q : Queue}
    → IsRun s came gone
    → s.workers ≡ pre ++ (serving task ∷ post)
    → free_task task s.queue ≡ ok tt q
    → IsRun
        (record s { queue = q; workers = pre ++ (looking ∷ post); semaphore = suc s.semaphore })
        came
        gone
finish-IsRun pre post task r e freed =
    let mine : of (task == task) ≡ 1 = ground arith in
    let there : has task r.held ≡ true =
      ground (arith, r.in_hand task, total-least (holds task) pre post (serving task) e) in
    let distinct = (Steps-IsFifo r.run).distinct in
    record {
      held = remove task r.held;
      run = Steps.release task r.run there freed;
      in_hand = λ p. ground (
        arith,
        total-move (holds p) pre post (serving task) looking e,
        r.in_hand p,
        has-remove_ne p task r.held,
        has-remove_self task r.held distinct,
        there,
      );
    }

-- A step that changes neither the queue nor the sums of what the workers hold.
same-IsRun :
    {s : System} {came gone : List ℤ} {ws : List Pc}
    → IsRun s came gone
    → ((p : Ptr) → total (holds p) ws ≡ total (holds p) s.workers)
    → IsRun (record s { workers = ws }) came gone
same-IsRun r same = record { held = r.held; run = r.run; in_hand = λ p. same p ∙ r.in_hand p }

Work-IsRun :
    {s t : System} {came gone : List ℤ}
    → IsOrderly s
    → IsRun s came gone
    → (step : Work s t) → IsRun t came (taken_in_work gone step)
Work-IsRun f r (look pre post turn e u looked) =
    look-IsRun pre post f r e looked
      (Returns-ok (rw looked at (worker_turn-Outcome f.tasks f.queue)))
Work-IsRun {s} f r (sleep pre post e) =
    move-IsRun pre post testing waiting s.semaphore r e (λ p. refl)
Work-IsRun f r (sem_wait pre post task n e above) =
    move-IsRun pre post (holding task) (serving task) n r e (λ p. refl)
Work-IsRun f r (finish pre post task e freed) = finish-IsRun pre post task r e freed

Step-IsRun :
    {s t : System} {came gone : List ℤ}
    → IsOrderly s
    → IsRun s came gone
    → (step : Step s t) → IsRun t (accepted_after came step) (taken_after gone step)
Step-IsRun f r (work step) = Work-IsRun f r step
Step-IsRun {s} f r (spurious pre post e) =
    move-IsRun pre post waiting looking s.semaphore r e (λ p. refl)
Step-IsRun {s} f r (spawn phase room) =
    same-IsRun r (λ p. omega (arith, total-snoc (holds p) s.workers looking))
Step-IsRun f r (ready phase all) = record { held = r.held; run = r.run; in_hand = r.in_hand }
Step-IsRun {s} f r (add task client_socket phase u h nz fresh e signal) = record {
  held = r.held;
  run = Steps.add r.run task client_socket h nz fresh e;
  in_hand = λ p. total-Signal (holds p) signal refl ∙ r.in_hand p;
}
Step-IsRun {s} f r (stop phase u) = record {
  held = r.held;
  run = Steps.stop r.run;
  in_hand = λ p. total-broadcast (holds p) s.workers refl ∙ r.in_hand p;
}

Reach-IsRun : {s : System} → (r : Reach s) → IsRun s (accepted r) (taken r)
Reach-IsRun start = record { held = []; run = Steps.start; in_hand = λ p. refl }
Reach-IsRun (later r step) = Step-IsRun (Reach-IsOrderly r) (Reach-IsRun r) step

-- The threads refine the runs of the queue alone: to every history of their steps belongs a run of
-- `thread_pool_add_task`, of the workers' critical sections, of `free` and of the shutdown on the
-- queue, which accepts and takes the same clients in the same order as the steps of the history do
-- and ends in the queue of its last state, with exactly the tasks in hand that the workers have. So,
-- whatever the scheduler does, the clients that the history has accepted are those that its workers
-- have taken followed by those in the queue, in the order in which they came.
pub Reach-IsFifo :
    {s : System}
    → (r : Reach s)
    → (h : IsRun s (accepted r) (taken r)) × IsFifo s.queue (accepted r) (taken r) h.held
Reach-IsFifo r = let h = Reach-IsRun r in (h, Steps-IsFifo h.run)
