-- ===== src/Threads/Orderly.antt =====
-- How workers, queue, semaphore and memory belong together, and the steps of a worker.
use proxy_server_in_c.Common.{
  ℕ, suc, ◌+◌, ◌<◌, ◌≤◌, ◌≡◌, refl, Bool, true, false, List, ◌∷◌, ◌++◌, ◌==◌, arith, length, ap,
  ◌∙◌,
}
use proxy_server_in_c.Common.Run.{ok, Returns-ok}
use proxy_server_in_c.Cache.{Ptr}
use proxy_server_in_c.Cache.Order.{has}
use proxy_server_in_c.ThreadPool.{Queue, Turn, free_task}
use proxy_server_in_c.ThreadPool.Fifo.{IsQueue}
use proxy_server_in_c.ThreadPool.Order.{free_task_lem}
use proxy_server_in_c.Threads.{
  Pc, looking, testing, waiting, holding, serving, exited, Phase, running, closing, System, total,
  is_testing, is_waiting, is_awake, is_serving, is_exited, of, holds, IsUnlocked, after_turn, Work,
  look, sleep, sem_wait, finish, num_worker_threads, max_clients,
}
use proxy_server_in_c.Threads.Totals.{
  total-move, total-least, length-move, Outcome, nothing, over, got, worker_turn-Outcome,
}

abbrev pub is_closing : Phase → Bool
is_closing closing = true
is_closing _ = false

abbrev pub is_running : Phase → Bool
is_running running = true
is_running _ = false

-- The workers agree with the queue, the semaphore and the memory.
pub record IsOrderly (s : System) : Type 0 where
  pub tasks : List Ptr
  pub queue : IsQueue s.queue tasks
  -- a task in memory is in the queue or with one worker, never with two
  pub memory : (p : Ptr) → of (has p tasks) + total (holds p) s.workers ≡ of (s.queue.live p)
  pub permits : s.semaphore + total is_serving s.workers ≡ max_clients
  pub crew : length s.workers ≤ num_worker_threads
  pub full : is_running s.phase ≡ true → length s.workers ≡ num_worker_threads
  pub down : s.queue.shutdown ≡ is_closing s.phase
  -- the mutex that a worker keeps from its test to its wait
  pub one_lock : total is_testing s.workers ≤ 1
  pub tested : 0 < total is_testing s.workers → (length tasks ≡ 0) × (s.queue.shutdown ≡ false)
  -- no wake-up is lost
  pub no_lost : s.queue.shutdown ≡ false → 0 < length tasks → 0 < total is_awake s.workers
  pub none_left : s.queue.shutdown ≡ false → total is_exited s.workers ≡ 0
  pub none_waits : s.queue.shutdown ≡ true → total is_waiting s.workers ≡ 0

pub of-front :
    (task p : Ptr) (rest : List Ptr)
    → has task rest ≡ false
    → of (has p (task ∷ rest)) ≡ of (task == p) + of (has p rest)
of-front task p rest h = ground arith

look-IsOrderly :
    {s : System} (pre post : List Pc) {turn : Turn} {q : Queue}
    → (f : IsOrderly s) → s.workers ≡ pre ++ (looking ∷ post)
    → IsUnlocked s.workers
    → Outcome s.queue f.tasks turn q
    → IsOrderly (record s { queue = q; workers = pre ++ (after_turn turn ∷ post) })
look-IsOrderly {s} pre post f e u (nothing none runs) =
    let move : (g : Pc → ℕ)
        → total g (pre ++ (testing ∷ post)) + g looking ≡ total g s.workers + g testing =
      λ g. total-move g pre post looking testing e in
    let empty : length f.tasks ≡ 0 = ap length none in
    record {
      tasks = f.tasks;
      queue = f.queue;
      memory = λ p. omega (arith, f.memory p, move (holds p));
      permits = omega (arith, f.permits, move is_serving);
      crew = omega (arith, f.crew, length-move pre post looking testing e);
      full = λ h. omega (arith, f.full h, length-move pre post looking testing e);
      down = f.down;
      one_lock = omega (arith, u, move is_testing);
      tested = λ h. (empty, runs);
      no_lost = λ h l. absurd (omega (arith, empty));
      none_left = λ h. omega (arith, f.none_left h, move is_exited);
      none_waits = λ h. omega (arith, f.none_waits h, move is_waiting);
    }
look-IsOrderly {s} pre post f e u (over down) =
    let move : (g : Pc → ℕ)
        → total g (pre ++ (exited ∷ post)) + g looking ≡ total g s.workers + g exited =
      λ g. total-move g pre post looking exited e in
    record {
      tasks = f.tasks;
      queue = f.queue;
      memory = λ p. omega (arith, f.memory p, move (holds p));
      permits = omega (arith, f.permits, move is_serving);
      crew = omega (arith, f.crew, length-move pre post looking exited e);
      full = λ h. omega (arith, f.full h, length-move pre post looking exited e);
      down = f.down;
      one_lock = omega (arith, u, move is_testing);
      tested = λ h. absurd (omega (arith, u, move is_testing));
      no_lost = λ h l. ground arith;
      none_left = λ h. ground arith;
      none_waits = λ h. omega (arith, f.none_waits h, move is_waiting);
    }
look-IsOrderly {s} pre post f e u (got task rest front runs good live same) =
    let move : (g : Pc → ℕ)
        → total g (pre ++ (holding task ∷ post)) + g looking
          ≡ total g s.workers + g (holding task) =
      λ g. total-move g pre post looking (holding task) e in
    let fresh : has task rest ≡ false = (rw front at f.queue.distinct).0 in
    record {
      tasks = rest;
      queue = good;
      memory = λ p.
          rw live
            (omega (arith, rw front at f.memory p, move (holds p), of-front task p rest fresh));
      permits = omega (arith, f.permits, move is_serving);
      crew = omega (arith, f.crew, length-move pre post looking (holding task) e);
      full = λ h. omega (arith, f.full h, length-move pre post looking (holding task) e);
      down = same ∙ f.down;
      one_lock = omega (arith, u, move is_testing);
      tested = λ h. absurd (omega (arith, u, move is_testing));
      no_lost = λ h l. omega (arith, move is_awake, total-least is_awake pre post looking e);
      none_left = λ h. omega (arith, f.none_left runs, move is_exited);
      none_waits = λ h. ground arith;
    }

-- A worker that moves on with the queue as it is.
pub move-IsOrderly :
    {s : System} (pre post : List Pc) (w w' : Pc) (n : ℕ)
    → IsOrderly s
    → s.workers ≡ pre ++ (w ∷ post)
    → ((p : Ptr) → holds p w' ≡ holds p w)
    → n + is_serving w' ≡ s.semaphore + is_serving w
    → is_testing w' ≤ is_testing w
    → is_awake w ≤ is_awake w'
    → is_exited w' ≡ is_exited w
    → (s.queue.shutdown ≡ true → is_waiting w' ≤ is_waiting w)
    → IsOrderly (record s { workers = pre ++ (w' ∷ post); semaphore = n })
move-IsOrderly {s} pre post w w' n f e same permit test awake left wait =
    let move : (g : Pc → ℕ) → total g (pre ++ (w' ∷ post)) + g w ≡ total g s.workers + g w' =
      λ g. total-move g pre post w w' e in
    record {
      tasks = f.tasks;
      queue = f.queue;
      memory = λ p. omega (arith, f.memory p, move (holds p), same p);
      permits = omega (arith, f.permits, move is_serving, permit);
      crew = omega (arith, f.crew, length-move pre post w w' e);
      full = λ h. omega (arith, f.full h, length-move pre post w w' e);
      down = f.down;
      one_lock = omega (arith, f.one_lock, move is_testing, test);
      tested = λ h. f.tested (omega (arith, h, move is_testing, test));
      no_lost = λ h l. omega (arith, f.no_lost h l, move is_awake, awake);
      none_left = λ h. omega (arith, f.none_left h, move is_exited, left);
      none_waits = λ h. omega (arith, f.none_waits h, move is_waiting, wait h);
    }

-- A test that has found no task in a running pool has not yet been overtaken by a shutdown.
testing-runs :
    {s : System} (pre post : List Pc)
    → IsOrderly s
    → s.workers ≡ pre ++ (testing ∷ post)
    → s.queue.shutdown ≡ false
testing-runs pre post f e =
    (f.tested (omega (arith, total-move is_testing pre post testing looking e))).1

-- The task that a worker serves is in memory.
pub served-live :
    {s : System} (pre post : List Pc) (task : Ptr)
    → IsOrderly s
    → s.workers ≡ pre ++ (serving task ∷ post)
    → s.queue.live task ≡ true
served-live {s} pre post task f e =
    let here : of (task == task) ≡ 1 = ground arith in
    ground (arith, f.memory task, total-least (holds task) pre post (serving task) e)

finish-IsOrderly :
    {s : System} (pre post : List Pc) (task : Ptr) {q : Queue}
    → IsOrderly s
    → s.workers ≡ pre ++ (serving task ∷ post)
    → free_task task s.queue ≡ ok tt q
    → IsOrderly
        (record s { queue = q; workers = pre ++ (looking ∷ post); semaphore = suc s.semaphore })
finish-IsOrderly {s} pre post task {q} f e done =
    let after =
      Returns-ok (rw done at (free_task_lem s.queue task (served-live pre post task f e))) in
    let move : (g : Pc → ℕ)
        → total g (pre ++ (looking ∷ post)) + g (serving task) ≡ total g s.workers + g looking =
      λ g. total-move g pre post (serving task) looking e in
    let least : (p : Ptr) → holds p (serving task) ≤ total (holds p) s.workers =
      λ p. total-least (holds p) pre post (serving task) e in
    rw after (record {
      tasks = f.tasks;
      queue = record {
        chain = f.queue.chain;
        tail = f.queue.tail;
        size = f.queue.size;
        live = λ p h. ground (arith, f.queue.live p h, f.memory p, least p);
        distinct = f.queue.distinct;
      };
      memory = λ p. ground (arith, f.memory p, move (holds p), least p);
      permits = omega (arith, f.permits, move is_serving);
      crew = omega (arith, f.crew, length-move pre post (serving task) looking e);
      full = λ h. omega (arith, f.full h, length-move pre post (serving task) looking e);
      down = f.down;
      one_lock = omega (arith, f.one_lock, move is_testing);
      tested = λ h. f.tested (omega (arith, h, move is_testing));
      no_lost = λ h l. omega (arith, f.no_lost h l, move is_awake);
      none_left = λ h. omega (arith, f.none_left h, move is_exited);
      none_waits = λ h. omega (arith, f.none_waits h, move is_waiting);
    })

pub Work-IsOrderly : {s t : System} → IsOrderly s → Work s t → IsOrderly t
Work-IsOrderly f (look pre post turn e u looked) =
    look-IsOrderly pre post f e u (Returns-ok (rw looked at (worker_turn-Outcome f.tasks f.queue)))
Work-IsOrderly {s} f (sleep pre post e) =
    let runs = testing-runs pre post f e in
    move-IsOrderly pre post testing waiting s.semaphore f e (λ p. refl) refl (omega arith)
      (omega arith) refl (λ h. ground arith)
Work-IsOrderly f (sem_wait pre post task n e above) =
    move-IsOrderly pre post (holding task) (serving task) n f e (λ p. refl) (omega arith)
      (omega arith) (omega arith) refl (λ h. omega arith)
Work-IsOrderly f (finish pre post task e done) = finish-IsOrderly pre post task f e done
