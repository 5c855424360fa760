-- ===== src/ThreadPool.antt =====
-- The task queue of src/components/thread_pool.c and include/proxy/thread_pool.h. A critical
-- section on `queue_mutex` is one step.
pub mod Fifo
pub mod Order
mod Tests
use proxy_server_in_c.Common.{
  ℕ, zero, suc, ◌+◌, Bool, true, false, not, ◌&&◌, List, [], ◌∷◌, Option, none, some, ◌==◌,
  if◌then◌else◌,
}
use proxy_server_in_c.Common.Int.{ℤ, pos, minus_one, positive, incr, decr, pos_part}
use proxy_server_in_c.Common.Run.{Run, ok, fault, out_of_fuel, Cmd, pure, ◌>>=◌, ◌>>◌}
use proxy_server_in_c.Cache.{Ptr, null, update}

-- `thread_pool_t`, less its threads and locks, with the memory of the tasks.
pub record Queue : Type 0 where
  pub live : Ptr → Bool
  pub client_socket : Ptr → ℤ
  pub next : Ptr → Ptr
  pub task_queue_head : Ptr
  pub task_queue_tail : Ptr
  pub queue_size : ℤ
  pub shutdown : Bool

-- The queue that `thread_pool_create` sets up before it starts the workers.
abbrev pub empty_queue : Queue
empty_queue = record {
  live = λ _. false;
  client_socket = λ _. pos 0;
  next = λ _. null;
  task_queue_head = null;
  task_queue_tail = null;
  queue_size = pos 0;
  shutdown = false;
}

-- `task->next = next`, a fault where `task` holds no task.
unfoldable pub set_next : Ptr → Ptr → Cmd Queue (Unit {0})
set_next task next q =
    if q.live task then ok tt (record q { next = update q.next task next }) else fault

-- A new task behind the last one.
unfoldable pub enqueue : Ptr → ℤ → Cmd Queue (Unit {0})
unfolding set_next
enqueue task client_socket = do
  (λ q. ok tt (record q {
    live = update q.live task true;
    client_socket = update q.client_socket task client_socket;
    next = update q.next task null;
  }))
  tail ← (λ q. ok q.task_queue_tail q)
  if tail == null then (λ q. ok tt (record q { task_queue_head = task })) else set_next tail task
  (λ q. ok tt (record q { task_queue_tail = task; queue_size = incr q.queue_size }))

-- `thread_pool_add_task` for a pool that is not `NULL`. `malloc` is the address that it answers, or
-- `NULL`.
unfoldable pub thread_pool_add_task : (malloc : Ptr) → ℤ → Cmd Queue ℤ
unfolding enqueue
thread_pool_add_task malloc client_socket =
    if not (positive client_socket)
    then pure minus_one
    else if malloc == null
    then pure minus_one
    else (do enqueue malloc client_socket; pure (pos 0))

-- What a worker does when it holds the mutex and looks at the queue.
pub data Turn : Type 0 where
  waits : Turn
  exits : Turn
  works : (task : Ptr) → Turn

-- `task->next`, a fault where `task` holds no task.
unfoldable pub load_next : Ptr → Cmd Queue Ptr
load_next task q = if q.live task then ok (q.next task) q else fault

-- The critical section of `worker_thread`.
unfoldable pub worker_turn : Cmd Queue Turn
unfolding load_next
worker_turn q =
    if q.task_queue_head == null && not q.shutdown
    then ok waits q
    else if q.shutdown
    then ok exits q
    else ((do
      next ← load_next q.task_queue_head
      (λ q. ok tt (record q {
        task_queue_head = next;
        task_queue_tail = if next == null then null else q.task_queue_tail;
        queue_size = decr q.queue_size;
      }))
      pure (works q.task_queue_head))
        q)

-- `free(task)`, when the client has been served.
unfoldable pub free_task : Ptr → Cmd Queue (Unit {0})
free_task task q =
    if q.live task then ok tt (record q { live = update q.live task false }) else fault

-- The loop of `thread_pool_destroy`: the sockets that it closes, in order.
unfoldable pub close_tasks : ℕ → (current : Ptr) → Cmd Queue (List ℤ)
unfolding load_next free_task
close_tasks zero current = λ _. out_of_fuel
close_tasks (suc fuel) current = if current == null then pure [] else (do
  next ← load_next current
  client_socket ← (λ q. ok (q.client_socket current) q)
  free_task current
  rest ← close_tasks fuel next
  pure (client_socket ∷ rest))

-- `thread_pool_destroy` once all workers have joined.
unfoldable pub thread_pool_destroy : Cmd Queue (List ℤ)
unfolding close_tasks
thread_pool_destroy q =
    close_tasks (pos_part q.queue_size + 1) q.task_queue_head (record q { shutdown = true })
