-- ===== src/Threads.antt =====
-- The threads of src/components/thread_pool.c: `worker_thread`, `thread_pool_create` and the calls on
-- the pool, as steps that the scheduler may take in any order. What a thread does while it holds
-- `queue_mutex` is one step, but for the wait on `queue_condition`, which is two: the test finds
-- nothing and the mutex is kept, then the wait releases it. The `sem_post` and the `free` behind
-- `handle_client_request` are one step: no other thread knows the task.
pub mod Totals
pub mod Orderly
pub mod Invariant
pub mod Order
pub mod Measure
pub mod Progress
pub mod Shutdown
pub mod Creation
mod Tests
use proxy_server_in_c.Common.{
  ℕ, zero, suc, ◌+◌, ◌<◌, ◌≡◌, ◌≢◌, Bool, true, false, List, [], ◌∷◌, ◌++◌, ◌==◌, if◌then◌else◌,
  length,
}
use proxy_server_in_c.Common.Int.{ℤ, pos, positive}
use proxy_server_in_c.Common.Run.{ok}
use proxy_server_in_c.Cache.{Ptr, null}
use proxy_server_in_c.ThreadPool.{
  Queue, Turn, waits, exits, works, empty_queue, thread_pool_add_task, worker_turn, free_task,
}

abbrev pub num_worker_threads : ℕ
num_worker_threads = 4

-- `MAX_CLIENTS`, the first value of `semaphore`.
abbrev pub max_clients : ℕ
max_clients = 200

-- Where a worker stands.
pub data Pc : Type 0 where
  looking : Pc  -- before `pthread_mutex_lock`, or woken up and about to get the mutex back
  testing : Pc  -- holds the mutex, has found no task and no shutdown
  waiting : Pc  -- in `pthread_cond_wait`
  holding : Ptr → Pc  -- has taken a task, before `sem_wait`
  serving : Ptr → Pc  -- in `handle_client_request`
  exited : Pc

-- What `thread_pool_create` and its caller are at.
pub data Phase : Type 0 where
  creating : Phase
  running : Phase
  closing : Phase

-- The pool with its workers, and the value of `semaphore`.
pub record System : Type 0 where
  pub queue : Queue
  pub workers : List Pc
  pub semaphore : ℕ
  pub phase : Phase

-- The sum of a weight over the workers.
abbrev pub total : (Pc → ℕ) → List Pc → ℕ
total f [] = 0
total f (w ∷ ws) = f w + total f ws

abbrev pub is_testing : Pc → ℕ
is_testing testing = 1
is_testing _ = 0

abbrev pub is_waiting : Pc → ℕ
is_waiting waiting = 1
is_waiting _ = 0

abbrev pub is_awake : Pc → ℕ
is_awake looking = 1
is_awake (holding _) = 1
is_awake (serving _) = 1
is_awake _ = 0

abbrev pub is_serving : Pc → ℕ
is_serving (serving _) = 1
is_serving _ = 0

abbrev pub is_exited : Pc → ℕ
is_exited exited = 1
is_exited _ = 0

abbrev pub of : Bool → ℕ
of true = 1
of false = 0

-- The worker has the task `p` in its hands.
abbrev pub holds : Ptr → Pc → ℕ
holds p (holding task) = of (task == p)
holds p (serving task) = of (task == p)
holds p _ = 0

-- No worker is between its test and its wait; all other steps under the mutex are whole.
abbrev pub IsUnlocked : List Pc → Type 0
IsUnlocked ws = total is_testing ws ≡ 0

-- Where a worker stands after its look at the queue.
abbrev pub after_turn : Turn → Pc
after_turn waits = testing
after_turn exits = exited
after_turn (works task) = holding task

-- A step of one worker.
pub data Work (s : System) : System → Type 0 where
  look :
      (pre post : List Pc) (turn : Turn) {q : Queue}
      → s.workers ≡ pre ++ (looking ∷ post)
      → IsUnlocked s.workers
      → worker_turn s.queue ≡ ok turn q
      → Work s (record s { queue = q; workers = pre ++ (after_turn turn ∷ post) })
  sleep :
      (pre post : List Pc)
      → s.workers ≡ pre ++ (testing ∷ post)
      → Work s (record s { workers = pre ++ (waiting ∷ post) })
  sem_wait :
      (pre post : List Pc) (task : Ptr) (n : ℕ)
      → s.workers ≡ pre ++ (holding task ∷ post)
      → s.semaphore ≡ suc n
      → Work s (record s { workers = pre ++ (serving task ∷ post); semaphore = n })
  finish :
      (pre post : List Pc) (task : Ptr) {q : Queue}
      → s.workers ≡ pre ++ (serving task ∷ post)
      → free_task task s.queue ≡ ok tt q
      → Work s
          (record s { queue = q; workers = pre ++ (looking ∷ post); semaphore = suc s.semaphore })

-- `pthread_cond_signal` wakes one of the waiting workers, if there is one.
pub data Signal (ws : List Pc) : List Pc → Type 0 where
  nobody : total is_waiting ws ≡ 0 → Signal ws ws
  woken : (pre post : List Pc) → ws ≡ pre ++ (waiting ∷ post) → Signal ws (pre ++ (looking ∷ post))

-- `pthread_cond_broadcast` wakes them all.
abbrev pub wake : Pc → Pc
wake waiting = looking
wake w = w

abbrev pub broadcast : List Pc → List Pc
broadcast [] = []
broadcast (w ∷ ws) = wake w ∷ broadcast ws

-- A step of the program on its pool. `spurious` is the wake-up without a signal that
-- `pthread_cond_wait` allows.
pub data Step (s : System) : System → Type 0 where
  work : {t : System} → Work s t → Step s t
  spurious :
      (pre post : List Pc)
      → s.workers ≡ pre ++ (waiting ∷ post)
      → Step s (record s { workers = pre ++ (looking ∷ post) })
  spawn :
      s.phase ≡ creating
      → length s.workers < num_worker_threads
      → Step s (record s { workers = s.workers ++ (looking ∷ []) })
  ready :
      s.phase ≡ creating
      → length s.workers ≡ num_worker_threads
      → Step s (record s { phase = running })
  add :
      (task : Ptr) (client_socket : ℤ) {n : ℤ} {q : Queue} {ws : List Pc}
      → s.phase ≡ running
      → IsUnlocked s.workers
      → positive client_socket ≡ true
      → task ≢ null
      → s.queue.live task ≡ false
      → thread_pool_add_task task client_socket s.queue ≡ ok n q
      → Signal s.workers ws
      → Step s (record s { queue = q; workers = ws })
  stop :
      s.phase ≡ running
      → IsUnlocked s.workers
      → Step s (record s {
        queue = record s.queue { shutdown = true };
        workers = broadcast s.workers;
        phase = closing;
      })

-- The pool before `thread_pool_create` has started a worker.
abbrev pub no_workers : System
no_workers = record { queue = empty_queue; workers = []; semaphore = max_clients; phase = creating }

pub data Reach : System → Type 0 where
  start : Reach no_workers
  later : {s t : System} → Reach s → Step s t → Reach t

-- The sockets that `thread_pool_add_task` has accepted after one more step, if it had accepted
-- these before it; and the sockets of the tasks that workers have taken.
abbrev pub accepted_after : List ℤ → {s t : System} → Step s t → List ℤ
accepted_after sockets (add task client_socket _ _ _ _ _ _ _) = sockets ++ client_socket ∷ []
accepted_after sockets _ = sockets

abbrev pub taken_by : List ℤ → Turn → Queue → List ℤ
taken_by sockets (works task) q = sockets ++ q.client_socket task ∷ []
taken_by sockets _ q = sockets

abbrev pub taken_in_work : List ℤ → {s t : System} → Work s t → List ℤ
taken_in_work sockets (look pre post turn {q} _ _ _) = taken_by sockets turn q
taken_in_work sockets _ = sockets

abbrev pub taken_after : List ℤ → {s t : System} → Step s t → List ℤ
taken_after sockets (work step) = taken_in_work sockets step
taken_after sockets _ = sockets

-- The same for all steps since the start, from the oldest on.
abbrev pub accepted : {s : System} → Reach s → List ℤ
accepted start = []
accepted (later r step) = accepted_after (accepted r) step

abbrev pub taken : {s : System} → Reach s → List ℤ
taken start = []
taken (later r step) = taken_after (taken r) step

-- `n` steps of workers alone.
pub data Works (s : System) : ℕ → System → Type 0 where
  done : Works s zero s
  more : {n : ℕ} {t u : System} → Works s n t → Work t u → Works s (suc n) u

abbrev pub taken_in_works : List ℤ → {s t : System} {n : ℕ} → Works s n t → List ℤ
taken_in_works sockets done = sockets
taken_in_works sockets (more steps step) = taken_in_work (taken_in_works sockets steps) step

-- `n` steps of the program.
pub data Runs (s : System) : ℕ → System → Type 0 where
  here : Runs s zero s
  next : {n : ℕ} {t u : System} → Runs s n t → Step t u → Runs s (suc n) u

-- `thread_pool_create` when `pthread_create` fails: `shutdown` is set and the condition broadcast
-- without the mutex.
abbrev pub give_up : System → System
give_up s = record s {
  queue = record s.queue { shutdown = true };
  workers = broadcast s.workers;
  phase = closing;
}
