-- ===== src/ThreadPool/Order.antt =====
-- Runs of the accept loop and the workers on the task queue, one critical section after another.
use mathlib.Core.List.{append_assoc}
use proxy_server_in_c.Common.{
  ◌≡◌, ◌≢◌, ◌∙◌, ap, refl, true, false, List, [], ◌∷◌, ◌++◌, ◌==◌, arith, Bool-cases, inl, inr,
}
use proxy_server_in_c.Common.Int.{ℤ, positive}
use proxy_server_in_c.Common.Run.{ok, Returns, returns, Returns-ok}
use proxy_server_in_c.Cache.{Ptr, null, update}
use proxy_server_in_c.Cache.Order.{
  has, Distinct, remove, has-remove_ne, has-remove_self, Distinct-remove,
}
use proxy_server_in_c.ThreadPool.{
  Queue, empty_queue, thread_pool_add_task, waits, exits, works, worker_turn, free_task,
}
use proxy_server_in_c.ThreadPool.Fifo.{
  has-append, IsQueue, sockets, thread_pool_add_task_lem, worker_turn_lem,
}

-- A run from the new pool: the sockets that `thread_pool_add_task` has accepted, those that workers
-- have taken, both from the oldest on, and the tasks that workers hold.
pub data Steps : Queue → (accepted taken : List ℤ) → (held : List Ptr) → Type 0 where
  start : Steps empty_queue [] [] []
  add :
      {q t : Queue} {accepted taken : List ℤ} {held : List Ptr} {n : ℤ}
      → Steps q accepted taken held
      → (task : Ptr) (client_socket : ℤ) → positive client_socket ≡ true
      → task ≢ null
      → q.live task ≡ false
      → thread_pool_add_task task client_socket q ≡ ok n t
      → Steps t (accepted ++ client_socket ∷ []) taken held
  take :
      {q t : Queue} {accepted taken : List ℤ} {held : List Ptr} {task : Ptr}
      → Steps q accepted taken held
      → worker_turn q ≡ ok (works task) t
      → Steps t accepted (taken ++ t.client_socket task ∷ []) (task ∷ held)
  release :
      {q t : Queue} {accepted taken : List ℤ} {held : List Ptr} (task : Ptr)
      → Steps q accepted taken held
      → has task held ≡ true
      → free_task task q ≡ ok tt t
      → Steps t accepted taken (remove task held)
  stop :
      {q : Queue} {accepted taken : List ℤ} {held : List Ptr}
      → Steps q accepted taken held
      → Steps (record q { shutdown = true }) accepted taken held

-- The tasks in the queue, and how they stand to what was accepted, taken and held.
pub record IsFifo (q : Queue) (accepted taken : List ℤ) (held : List Ptr) : Type 0 where
  pub tasks : List Ptr
  pub queue : IsQueue q tasks
  pub order : accepted ≡ taken ++ sockets q.client_socket tasks
  pub apart : (p : Ptr) → has p held ≡ true → has p tasks ≡ false
  pub live : (p : Ptr) → has p held ≡ true → q.live p ≡ true
  pub distinct : Distinct held

pub worker_turn_down :
    (q : Queue) → q.shutdown ≡ true → Returns (λ turn t. (turn ≡ exits) × (t ≡ q)) (worker_turn q)
unfolding worker_turn
worker_turn_down q down = elim (Bool-cases (q.task_queue_head == null)) [
  | inl e ↦ rw (e, down) (returns (refl, refl))
  | inr e ↦ rw (e, down) (returns (refl, refl))
]

pub worker_turn_idle :
    (q : Queue)
    → q.task_queue_head ≡ null
    → q.shutdown ≡ false
    → Returns (λ turn t. (turn ≡ waits) × (t ≡ q)) (worker_turn q)
unfolding worker_turn
worker_turn_idle q e runs = rw (e, runs) (returns (refl, refl))

-- A worker gets a task only from a queue that holds it in front.
worker_turn-works :
    {q t : Queue} {task : Ptr} (tasks : List Ptr)
    → IsQueue q tasks
    → worker_turn q ≡ ok (works task) t
    → (rest : List Ptr) × (tasks ≡ task ∷ rest) × (q.shutdown ≡ false)
worker_turn-works {q} {t} {task} tasks s e = elim (Bool-cases q.shutdown) [
  | inl down ↦
      let left : works task ≡ exits = (Returns-ok (rw e at (worker_turn_down q down))).0 in
      absurd (ground (arith, left))
  | inr runs ↦
      elim tasks
          as (λ l. IsQueue q l → (rest : List Ptr) × (l ≡ task ∷ rest) × (q.shutdown ≡ false)) [
            | [] ↦ λ s'.
                let idle : works task ≡ waits =
                  (Returns-ok (rw e at (worker_turn_idle q s'.chain runs))).0 in
                absurd (ground (arith, idle))
            | x ∷ xs ↦ λ s'.
                let (same, _, _, _, _) = Returns-ok (rw e at (worker_turn_lem s' runs)) in
                (xs, ground (arith, same), runs)
          ]
        s
]

append-cons : (xs ys : List ℤ) (x : ℤ) → xs ++ (x ∷ ys) ≡ (xs ++ x ∷ []) ++ ys
append-cons [] ys x = refl
append-cons (a ∷ xs) ys x = ap (◌∷◌ a) (append-cons xs ys x)

take-IsFifo :
    {q t : Queue} {accepted taken : List ℤ} {held : List Ptr} {task : Ptr}
    → IsFifo q accepted taken held
    → worker_turn q ≡ ok (works task) t
    → IsFifo t accepted (taken ++ t.client_socket task ∷ []) (task ∷ held)
take-IsFifo {q} {t} {accepted} {taken} {held} {task} f e =
    let (rest, front, runs) = worker_turn-works f.tasks f.queue e in
    let s : IsQueue q (task ∷ rest) = rw (← front) f.queue in
    let (_, good, same, alive, _) = Returns-ok (rw e at (worker_turn_lem s runs)) in
    record {
      tasks = rest;
      queue = good;
      order = rw same (
          f.order
          ∙ rw front (append-cons taken (sockets q.client_socket rest) (q.client_socket task)));
      apart = λ p h. ground (arith, f.apart p, front, s.distinct);
      live = λ p h. ground (arith, f.live p, s.live p, alive);
      distinct = (ground (arith, f.apart task, front), f.distinct);
    }

add-IsFifo :
    {q t : Queue} {accepted taken : List ℤ} {held : List Ptr} {n : ℤ}
    → IsFifo q accepted taken held
    → (task : Ptr) (client_socket : ℤ) → positive client_socket ≡ true
    → task ≢ null
    → q.live task ≡ false
    → thread_pool_add_task task client_socket q ≡ ok n t
    → IsFifo t (accepted ++ client_socket ∷ []) taken held
add-IsFifo {q} {taken = taken} f task client_socket h nz fresh e =
    let (_, good, order, live, _) =
      Returns-ok (rw e at (thread_pool_add_task_lem f.queue task client_socket h nz fresh)) in
    record {
      tasks = f.tasks ++ task ∷ [];
      queue = good;
      order =
          rw (order, f.order)
            (append_assoc taken (sockets q.client_socket f.tasks) (client_socket ∷ []));
      apart = λ p m. ground (arith, f.apart p, f.live p, has-append p task f.tasks);
      live = λ p m. ground (arith, f.live p, live);
      distinct = f.distinct;
    }

pub free_task_lem :
    (q : Queue) (task : Ptr)
    → q.live task ≡ true
    → Returns (λ _ t. t ≡ record q { live = update q.live task false }) (free_task task q)
unfolding free_task
free_task_lem q task h = rw h (returns refl)

release-IsFifo :
    {q t : Queue} {accepted taken : List ℤ} {held : List Ptr} (task : Ptr)
    → IsFifo q accepted taken held
    → has task held ≡ true
    → free_task task q ≡ ok tt t
    → IsFifo t accepted taken (remove task held)
release-IsFifo {q} {held = held} task f m e =
    let after = Returns-ok (rw e at (free_task_lem q task (f.live task m))) in
    let gone = has-remove_self task held f.distinct in
    let absent = f.apart task m in
    let kept : (p : Ptr) → has p (remove task held) ≡ true → has p held ≡ true =
      λ p h. ground (arith, has-remove_ne p task held, gone) in
    rw after (record {
      tasks = f.tasks;
      queue = record {
        chain = f.queue.chain;
        tail = f.queue.tail;
        size = f.queue.size;
        live = λ p h. ground (arith, f.queue.live p, absent);
        distinct = f.queue.distinct;
      };
      order = f.order;
      apart = λ p h. f.apart p (kept p h);
      live = λ p h. ground (arith, f.live p (kept p h), gone);
      distinct = Distinct-remove task held f.distinct;
    })

-- The pool is a first-in first-out queue, whatever the order in which the accept loop adds tasks,
-- the workers take and free them, and the shutdown comes, if `malloc` gives no address in use: the
-- sockets accepted so far are those taken so far followed by those in the queue, in the order in
-- which they came, so that none is lost, taken twice or overtaken. No task that a worker holds is
-- in the queue or freed.
pub Steps-IsFifo :
    {q : Queue} {accepted taken : List ℤ} {held : List Ptr}
    → Steps q accepted taken held
    → IsFifo q accepted taken held
Steps-IsFifo start = record {
  tasks = [];
  queue = record {
    chain = refl;
    tail = refl;
    size = refl;
    live = λ p h. ground arith;
    distinct = tt;
  };
  order = refl;
  apart = λ p h. refl;
  live = λ p h. ground arith;
  distinct = tt;
}
Steps-IsFifo (add s task client_socket h nz fresh e) =
    add-IsFifo (Steps-IsFifo s) task client_socket h nz fresh e
Steps-IsFifo (take s e) = take-IsFifo (Steps-IsFifo s) e
Steps-IsFifo (release task s m e) = release-IsFifo task (Steps-IsFifo s) m e
Steps-IsFifo (stop s) =
    let f = Steps-IsFifo s in
    record {
      tasks = f.tasks;
      queue = record {
        chain = f.queue.chain;
        tail = f.queue.tail;
        size = f.queue.size;
        live = f.queue.live;
        distinct = f.queue.distinct;
      };
      order = f.order;
      apart = f.apart;
      live = f.live;
      distinct = f.distinct;
    }
