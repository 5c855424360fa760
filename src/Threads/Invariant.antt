-- ===== src/Threads/Invariant.antt =====
-- What holds of the pool and its workers whatever the scheduler does.
use proxy_server_in_c.Common.{
  ℕ, ◌+◌, ◌<◌, ◌≡◌, ◌≢◌, refl, Bool, true, false, List, [], ◌∷◌, ◌++◌, arith, length, ap, ◌∙◌,
}
use proxy_server_in_c.Common.Int.{ℤ, positive}
use proxy_server_in_c.Common.Run.{ok, Returns-ok}
use proxy_server_in_c.Cache.{Ptr, null, update}
use proxy_server_in_c.Cache.Order.{has}
use proxy_server_in_c.ThreadPool.{Queue, thread_pool_add_task}
use proxy_server_in_c.ThreadPool.Fifo.{has-append, thread_pool_add_task_lem}
use proxy_server_in_c.Threads.{
  Pc, looking, waiting, creating, running, closing, System, total, is_testing, is_waiting, is_awake,
  is_serving, is_exited, of, holds, IsUnlocked, Signal, broadcast, Step, work, spurious, spawn,
  ready, add, stop, Reach, start, later, num_worker_threads, no_workers,
}
use proxy_server_in_c.Threads.Totals.{
  total-snoc, length-snoc, total-broadcast, broadcast-wakes, length-broadcast, total-Signal,
  length-Signal, Signal-awake,
}
use proxy_server_in_c.Threads.Orderly.{
  is_closing, is_running, IsOrderly, move-IsOrderly, Work-IsOrderly,
}

spawn-IsOrderly :
    {s : System}
    → IsOrderly s
    → s.phase ≡ creating
    → length s.workers < num_worker_threads
    → IsOrderly (record s { workers = s.workers ++ (looking ∷ []) })
spawn-IsOrderly {s} f e room =
    let one_more : (g : Pc → ℕ)
        → total g (s.workers ++ (looking ∷ [])) ≡ total g s.workers + g looking =
      λ g. total-snoc g s.workers looking in
    record {
      tasks = f.tasks;
      queue = f.queue;
      memory = λ p. omega (arith, f.memory p, one_more (holds p));
      permits = omega (arith, f.permits, one_more is_serving);
      crew = omega (arith, room, length-snoc s.workers looking);
      full = λ h. absurd (ground (arith, ap is_running e));
      down = f.down;
      one_lock = omega (arith, f.one_lock, one_more is_testing);
      tested = λ h. f.tested (omega (arith, h, one_more is_testing));
      no_lost = λ h l. omega (arith, one_more is_awake);
      none_left = λ h. omega (arith, f.none_left h, one_more is_exited);
      none_waits = λ h. omega (arith, f.none_waits h, one_more is_waiting);
    }

ready-IsOrderly :
    {s : System}
    → IsOrderly s
    → s.phase ≡ creating
    → length s.workers ≡ num_worker_threads
    → IsOrderly (record s { phase = running })
ready-IsOrderly f e all = record {
  tasks = f.tasks;
  queue = f.queue;
  memory = f.memory;
  permits = f.permits;
  crew = f.crew;
  full = λ _. all;
  down = f.down ∙ ap is_closing e;
  one_lock = f.one_lock;
  tested = f.tested;
  no_lost = f.no_lost;
  none_left = f.none_left;
  none_waits = f.none_waits;
}

of-back :
    (live : Ptr → Bool) (task p : Ptr) (tasks : List Ptr) (n : ℕ)
    → live task ≡ false
    → of (has p tasks) + n ≡ of (live p)
    → of (has p (tasks ++ task ∷ [])) + n ≡ of (update live task true p)
of-back live task p tasks n fresh old = ground (arith, has-append p task tasks)

add-IsOrderly :
    {s : System}
    → IsOrderly s
    → (task : Ptr) (client_socket : ℤ) {n : ℤ} {q : Queue} {ws : List Pc} → s.phase ≡ running
    → IsUnlocked s.workers
    → positive client_socket ≡ true
    → task ≢ null
    → s.queue.live task ≡ false
    → thread_pool_add_task task client_socket s.queue ≡ ok n q
    → Signal s.workers ws
    → IsOrderly (record s { queue = q; workers = ws })
add-IsOrderly {s} f task client_socket {n} {q} {ws} phase u h nz fresh e signal =
    let (_, good, _, live, same) =
      Returns-ok (rw e at (thread_pool_add_task_lem f.queue task client_socket h nz fresh)) in
    let runs : s.queue.shutdown ≡ false = f.down ∙ ap is_closing phase in
    let all : length s.workers ≡ num_worker_threads = f.full (ap is_running phase) in
    let keep : (g : Pc → ℕ) → g waiting ≡ g looking → total g ws ≡ total g s.workers =
      λ g. total-Signal g signal in
    let up : 0 < total is_awake ws =
      Signal-awake signal (omega (arith, u, f.none_left runs, all)) in
    record {
      tasks = f.tasks ++ task ∷ [];
      queue = good;
      memory = λ p. rw live (
          of-back s.queue.live task p f.tasks (total (holds p) ws) fresh
            (omega (arith, f.memory p, keep (holds p) refl)));
      permits = omega (arith, f.permits, keep is_serving refl);
      crew = omega (arith, f.crew, length-Signal signal);
      full = λ k. omega (arith, all, length-Signal signal);
      down = same ∙ f.down;
      one_lock = omega (arith, f.one_lock, keep is_testing refl);
      tested = λ k. absurd (omega (arith, u, keep is_testing refl));
      no_lost = λ k l. up;
      none_left = λ k. omega (arith, f.none_left runs, keep is_exited refl);
      none_waits = λ k. absurd (ground (arith, same, runs));
    }

pub stop-IsOrderly :
    {s : System}
    → IsOrderly s
    → IsUnlocked s.workers
    → IsOrderly (record s {
      queue = record s.queue { shutdown = true };
      workers = broadcast s.workers;
      phase = closing;
    })
stop-IsOrderly {s} f u =
    let keep : (g : Pc → ℕ)
        → g waiting ≡ g looking
        → total g (broadcast s.workers) ≡ total g s.workers =
      λ g. total-broadcast g s.workers in
    record {
      tasks = f.tasks;
      queue = record {
        chain = f.queue.chain;
        tail = f.queue.tail;
        size = f.queue.size;
        live = f.queue.live;
        distinct = f.queue.distinct;
      };
      memory = λ p. omega (arith, f.memory p, keep (holds p) refl);
      permits = omega (arith, f.permits, keep is_serving refl);
      crew = omega (arith, f.crew, length-broadcast s.workers);
      full = λ k. ground arith;
      down = refl;
      one_lock = omega (arith, f.one_lock, keep is_testing refl);
      tested = λ k. absurd (omega (arith, u, keep is_testing refl));
      no_lost = λ k. ground arith;
      none_left = λ k. ground arith;
      none_waits = λ k. broadcast-wakes s.workers;
    }

no_workers-IsOrderly : IsOrderly no_workers
no_workers-IsOrderly = record {
  tasks = [];
  queue = record {
    chain = refl;
    tail = refl;
    size = refl;
    live = λ p h. ground arith;
    distinct = tt;
  };
  memory = λ p. refl;
  permits = refl;
  crew = omega arith;
  full = λ k. ground arith;
  down = refl;
  one_lock = omega arith;
  tested = λ k. absurd (omega arith);
  no_lost = λ k l. absurd (omega arith);
  none_left = λ k. refl;
  none_waits = λ k. refl;
}

pub Step-IsOrderly : {s t : System} → IsOrderly s → Step s t → IsOrderly t
Step-IsOrderly f (work step) = Work-IsOrderly f step
Step-IsOrderly {s} f (spurious pre post e) =
    move-IsOrderly pre post waiting looking s.semaphore f e (λ p. refl) refl (omega arith)
      (omega arith) refl (λ h. omega arith)
Step-IsOrderly f (spawn phase room) = spawn-IsOrderly f phase room
Step-IsOrderly f (ready phase all) = ready-IsOrderly f phase all
Step-IsOrderly f (add task client_socket phase u h nz fresh e signal) =
    add-IsOrderly f task client_socket phase u h nz fresh e signal
Step-IsOrderly f (stop phase u) = stop-IsOrderly f u

-- Whatever the order in which the workers run, wake up and are created, in which clients come and
-- in which the pool is shut down, if `malloc` gives no address in use: the links of the queue hold
-- together; each task in memory is in the queue or with one worker, never with two, and there is no
-- other; the semaphore counts 200 less the clients in service; no wake-up is lost, that is, a running
-- pool with a task in the queue has a worker that is neither waiting nor about to wait nor gone; and
-- once the pool is shut down no worker waits.
pub Reach-IsOrderly : {s : System} → Reach s → IsOrderly s
Reach-IsOrderly start = no_workers-IsOrderly
Reach-IsOrderly (later r step) = Step-IsOrderly (Reach-IsOrderly r) step
