-- ===== src/ThreadPool/Fifo.antt =====
-- The linked queue of tasks as a list, operation by operation.
use proxy_server_in_c.Common.{
  ℕ, zero, suc, ◌+◌, ◌<◌, ◌≡◌, ◌≢◌, ◌∙◌, sym, ap, refl, true, false, not, ◌&&◌, ◌||◌, List, [], ◌∷◌,
  ◌++◌, ◌==◌, if◌then◌else◌, length, arith, length-append,
}
use proxy_server_in_c.Common.Int.{ℤ, pos, positive, incr, decr, pos_part}
use proxy_server_in_c.Common.Run.{Returns, returns, Returns-then}
use proxy_server_in_c.Cache.{Ptr, null, update}
use proxy_server_in_c.Cache.Order.{has, Distinct, last}
use proxy_server_in_c.Cache.Discard.{last_mem}
use proxy_server_in_c.ThreadPool.{
  Queue, set_next, enqueue, thread_pool_add_task, works, load_next, worker_turn, free_task,
  close_tasks, thread_pool_destroy,
}

-- The links lead from `p` through the addresses of the list, and end.
abbrev pub Chain : (Ptr → Ptr) → Ptr → List Ptr → Type 0
Chain next p [] = p ≡ null
Chain next p (x ∷ xs) = (p ≡ x) × (x ≢ null) × Chain next (next x) xs

abbrev pub sockets : (Ptr → ℤ) → List Ptr → List ℤ
sockets socket [] = []
sockets socket (x ∷ xs) = socket x ∷ sockets socket xs

-- The queue holds these tasks, the oldest first.
pub record IsQueue (q : Queue) (tasks : List Ptr) : Type 0 where
  pub chain : Chain q.next q.task_queue_head tasks
  pub tail : q.task_queue_tail ≡ last 0 tasks
  pub size : q.queue_size ≡ pos (length tasks)
  pub live : (p : Ptr) → has p tasks ≡ true → q.live p ≡ true
  pub distinct : Distinct tasks

Chain-update :
    (next : Ptr → Ptr) (p t v : Ptr) (xs : List Ptr)
    → has t xs ≡ false
    → Chain next p xs
    → Chain (update next t v) p xs
Chain-update next p t v [] h c = c
Chain-update next p t v (x ∷ xs) h (e, nz, c) =
    let other : update next t v x ≡ next x = ground arith in
    (e, nz, rw other (Chain-update next (next x) t v xs (ground arith) c))

Chain-append :
    (next : Ptr → Ptr) (p t x : Ptr) (xs : List Ptr)
    → has t (x ∷ xs) ≡ false
    → Distinct (x ∷ xs)
    → t ≢ null
    → next t ≡ null
    → Chain next p (x ∷ xs)
    → Chain (update next (last x xs) t) p (x ∷ xs ++ t ∷ [])
Chain-append next p t x [] h d nz end (e, nx, c) =
    let here : update next x t x ≡ t = ground arith in
    let last_one : update next x t t ≡ null = ground arith in (e, nx, (here, nz, last_one))
Chain-append next p t x (y ∷ ys) h d nz end (e, nx, c) =
    let other : update next (last y ys) t x ≡ next x = ground (arith, last_mem y ys) in
    (e, nx, rw other (Chain-append next (next x) t y ys (ground arith) d.1 nz end c))

pub has-append : (p t : Ptr) (xs : List Ptr) → has p (xs ++ t ∷ []) ≡ (has p xs || (t == p))
has-append p t [] = ground arith
has-append p t (x ∷ xs) = ground (arith, has-append p t xs)

Distinct-append :
    (t : Ptr) (xs : List Ptr) → has t xs ≡ false → Distinct xs → Distinct (xs ++ t ∷ [])
Distinct-append t [] h d = (refl, tt)
Distinct-append t (x ∷ xs) h d =
    (ground (arith, has-append x t xs), Distinct-append t xs (ground arith) d.1)

last-append : (d t : Ptr) (xs : List Ptr) → last d (xs ++ t ∷ []) ≡ t
last-append d t [] = refl
last-append d t (x ∷ xs) = last-append x t xs

sockets-append :
    (socket : Ptr → ℤ) (t : Ptr) (s : ℤ) (xs : List Ptr)
    → has t xs ≡ false
    → sockets (update socket t s) (xs ++ t ∷ []) ≡ sockets socket xs ++ s ∷ []
sockets-append socket t s [] h = ground arith
sockets-append socket t s (x ∷ xs) h =
    let other : update socket t s x ≡ socket x = ground arith in
    rw (other, sockets-append socket t s xs (ground arith)) refl

Chain-ne_null : (next : Ptr → Ptr) (p : Ptr) (xs : List Ptr) → Chain next p xs → has 0 xs ≡ false
Chain-ne_null next p [] c = refl
Chain-ne_null next p (x ∷ xs) (e, nz, c) = ground (arith, Chain-ne_null next (next x) xs c)

-- The queue behind a new task is the old queue with the task at its end.
enqueue-IsQueue :
    {q : Queue} (tasks : List Ptr)
    → IsQueue q tasks
    → (task : Ptr) (client_socket : ℤ) → task ≢ null
    → q.live task ≡ false
    → Returns
        (λ _ t.
          IsQueue t (tasks ++ task ∷ [])
          × (sockets t.client_socket (tasks ++ task ∷ [])
              ≡ sockets q.client_socket tasks ++ client_socket ∷ [])
          × (t.live ≡ update q.live task true)
          × (t.shutdown ≡ q.shutdown))
        (enqueue task client_socket q)
unfolding enqueue
enqueue-IsQueue {q} [] s task client_socket nz fresh =
    let empty : (q.task_queue_tail == null) ≡ true = ground (arith, s.tail) in
    let end : update q.next task null task ≡ null = ground arith in
    rw empty (
      returns (
        record {
          chain = (refl, nz, end);
          tail = refl;
          size = ap incr s.size;
          live = λ p h. ground arith;
          distinct = (refl, tt);
        },
        sockets-append q.client_socket task client_socket [] refl,
        refl,
        refl,
      ))
enqueue-IsQueue {q} (x ∷ xs) s task client_socket nz fresh =
    let absent : has task (x ∷ xs) ≡ false = ground (arith, s.live task) in
    let there : has (last x xs) (x ∷ xs) ≡ true = last_mem x xs in
    let last_ne : last x xs ≢ null =
      λ e. ground (arith, Chain-ne_null q.next q.task_queue_head (x ∷ xs) s.chain) in
    let linked : (last x xs == null) ≡ false = ground arith in
    let alive : update q.live task true (last x xs) ≡ true = ground (arith, s.live (last x xs)) in
    let end : update q.next task null task ≡ null = ground arith in
    rw (s.tail, linked, set_next, alive)
      (returns (
        record {
          chain =
              Chain-append (update q.next task null) q.task_queue_head task x xs absent s.distinct
                nz end (Chain-update q.next q.task_queue_head task null (x ∷ xs) absent s.chain);
          tail = sym (last-append 0 task (x ∷ xs));
          size = ap incr s.size ∙ ap pos (omega (arith, length-append (x ∷ xs) (task ∷ [])));
          live = λ p h. ground (arith, has-append p task (x ∷ xs), s.live p);
          distinct = Distinct-append task (x ∷ xs) absent s.distinct;
        },
        sockets-append q.client_socket task client_socket (x ∷ xs) absent,
        refl,
        refl,
      ))

-- `thread_pool_add_task` of a socket, given memory for the task: it returns 0, and the queue holds
-- the socket behind all that it held before, in the same order; no memory but the task's comes into
-- use.
pub thread_pool_add_task_lem :
    {q : Queue} {tasks : List Ptr}
    → IsQueue q tasks
    → (task : Ptr) (client_socket : ℤ) → positive client_socket ≡ true
    → task ≢ null
    → q.live task ≡ false
    → Returns
        (λ n t.
          (n ≡ pos 0)
          × IsQueue t (tasks ++ task ∷ [])
          × (sockets t.client_socket (tasks ++ task ∷ [])
              ≡ sockets q.client_socket tasks ++ client_socket ∷ [])
          × (t.live ≡ update q.live task true)
          × (t.shutdown ≡ q.shutdown))
        (thread_pool_add_task task client_socket q)
unfolding thread_pool_add_task
thread_pool_add_task_lem {tasks = tasks} s task client_socket h nz fresh =
    let there : (task == null) ≡ false = ground arith in
    rw (h, there)
      (Returns-then (enqueue-IsQueue tasks s task client_socket nz fresh)
        (λ _ t (good, kept, live, down). returns (refl, good, kept, live, down)))

tail_after :
    (next : Ptr → Ptr) (head p : Ptr) (tasks : List Ptr)
    → Chain next head tasks
    → {tail : Ptr} → tail ≡ last p tasks
    → (if head == null then null else tail) ≡ last 0 tasks
tail_after next head p [] c e = ground arith
tail_after next head p (x ∷ xs) (h, nz, c) e = ground arith

-- A worker that finds a task in a running pool takes the oldest one and leaves the others in their
-- order; the memory of the tasks stays as it is.
pub worker_turn_lem :
    {q : Queue} {task : Ptr} {tasks : List Ptr}
    → IsQueue q (task ∷ tasks)
    → q.shutdown ≡ false
    → Returns
        (λ turn t.
          (turn ≡ works task)
          × IsQueue t tasks
          × (t.client_socket ≡ q.client_socket)
          × (t.live ≡ q.live)
          × (t.shutdown ≡ q.shutdown))
        (worker_turn q)
unfolding worker_turn
worker_turn_lem {q} {task} {tasks} s running =
    let (head, nz, chain) = s.chain in
    let some_task : (task == null) ≡ false = ground arith in
    let alive : q.live task ≡ true = s.live task (ground arith) in
    rw (head, some_task, running, load_next, alive)
      (returns (
        refl,
        record {
          chain = chain;
          tail = tail_after q.next (q.next task) task tasks chain s.tail;
          size = ap decr s.size;
          live = λ p h. s.live p (ground arith);
          distinct = s.distinct.1;
        },
        refl,
        refl,
        refl,
      ))

close_tasks_lem :
    (fuel : ℕ) (tasks : List Ptr) (current : Ptr) (q : Queue)
    → Chain q.next current tasks
    → ((p : Ptr) → has p tasks ≡ true → q.live p ≡ true)
    → Distinct tasks
    → length tasks < fuel
    → Returns
        (λ closed t.
          (closed ≡ sockets q.client_socket tasks)
          × ((p : Ptr) → t.live p ≡ (q.live p && not (has p tasks))))
        (close_tasks fuel current q)
unfolding close_tasks
close_tasks_lem zero tasks current q c live d enough = absurd (omega arith)
close_tasks_lem (suc fuel) [] current q c live d enough =
    let end : (current == null) ≡ true = ground arith in
    rw (close_tasks, end) (returns (refl, λ p. ground arith))
close_tasks_lem (suc fuel) (x ∷ xs) current q (e, nz, c) live d enough =
    let more : (x == null) ≡ false = ground arith in
    let alive : q.live x ≡ true = live x (ground arith) in
    rw (close_tasks, e, more, load_next, alive, free_task, alive)
      (Returns-then
        (close_tasks_lem fuel xs (q.next x) (record q { live = update q.live x false }) c
          (λ p h. ground (arith, live p, d.0)) d.1 (omega arith))
        (λ rest t (same, freed).
          returns (ap (◌∷◌ (q.client_socket x)) same, λ p. ground (arith, freed p))))

-- `thread_pool_destroy`, once the workers have joined: it ends, closes the socket of every task
-- that is still in the queue, each once and from the oldest on, and frees exactly these tasks.
pub thread_pool_destroy_lem :
    {q : Queue} {tasks : List Ptr}
    → IsQueue q tasks
    → Returns
        (λ closed t.
          (closed ≡ sockets q.client_socket tasks)
          × ((p : Ptr) → t.live p ≡ (q.live p && not (has p tasks))))
        (thread_pool_destroy q)
unfolding thread_pool_destroy
thread_pool_destroy_lem {q} {tasks} s =
    close_tasks_lem (pos_part q.queue_size + 1) tasks q.task_queue_head
      (record q { shutdown = true }) s.chain s.live s.distinct (omega (arith, ap pos_part s.size))
