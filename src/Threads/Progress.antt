-- ===== src/Threads/Progress.antt =====
-- How long the workers can go on, and where they come to rest.
use proxy_server_in_c.Common.{
  ℕ, zero, suc, ◌+◌, ◌*◌, ◌<◌, ◌≤◌, ◌≡◌, ◌⊎◌, refl, true, false, List, [], ◌∷◌, ◌++◌, arith, length,
  Bool-cases, inl, inr, ap, ◌∙◌,
}
use proxy_server_in_c.Common.Int.{pos_part}
use proxy_server_in_c.Common.Run.{Returns-value}
use proxy_server_in_c.Cache.{Ptr}
use proxy_server_in_c.Cache.Order.{has}
use proxy_server_in_c.ThreadPool.Order.{free_task_lem}
use proxy_server_in_c.Common.{append_nil, sym, ◌∙◌}
use proxy_server_in_c.Common.Int.{ℤ}
use proxy_server_in_c.ThreadPool.Fifo.{sockets}
use proxy_server_in_c.Threads.Order.{Reach-IsFifo}
use proxy_server_in_c.Threads.{
  work, later, Pc, looking, testing, waiting, holding, serving, exited, System, total, is_testing,
  is_waiting, is_awake, holds, is_exited, Work, look, sleep, sem_wait, finish, Works, done, more,
  Reach, accepted, taken, taken_in_works,
}
use proxy_server_in_c.Threads.Totals.{everyone, worker_turn-Outcome}
use proxy_server_in_c.Threads.Orderly.{IsOrderly, served-live}
use proxy_server_in_c.Threads.Invariant.{Reach-IsOrderly}
use proxy_server_in_c.Threads.Measure.{size-length, Works-bound, serving-le, Works-IsOrderly}

-- A worker that a sum counts.
abbrev Counted : (Pc → ℕ) → List Pc → Type 0
Counted g ws = (pre : List Pc) × (w : Pc) × (post : List Pc) × (ws ≡ pre ++ (w ∷ post)) × (0 < g w)

total-Counted : (g : Pc → ℕ) (ws : List Pc) → 0 < total g ws → Counted g ws
total-Counted g [] h = absurd (omega arith)
total-Counted g (w ∷ ws) h =
    elim (g w) as (λ n. g w ≡ n → Counted g (w ∷ ws)) [
      | zero ↦ λ none.
          let (pre, v, post, e, there) = total-Counted g ws (omega (arith, none)) in
          (w ∷ pre, v, post, ap (◌∷◌ w) e, there)
      | suc n ↦ λ some. ([], w, ws, refl, omega (arith, some))
    ]
      refl

-- A worker that is awake has a step to take: it finds the mutex free, it gets the semaphore, or the
-- task that it has served is there to be freed.
awake-step :
    {s : System}
    → IsOrderly s
    → total is_testing s.workers ≡ 0
    → (pre post : List Pc) (w : Pc) → s.workers ≡ pre ++ (w ∷ post)
    → 0 < is_awake w
    → (t : System) × Work s t
awake-step {s} f u pre post looking e h =
    let (turn, q, looked, _) = Returns-value (worker_turn-Outcome f.tasks f.queue) in
    (_, look pre post turn e u looked)
awake-step {s} f u pre post (holding task) e h =
    elim s.semaphore as (λ n. s.semaphore ≡ n → (t : System) × Work s t) [
      | zero ↦ λ none. absurd (omega (arith, none, f.permits, serving-le s.workers, f.crew))
      | suc n ↦ λ above. (_, sem_wait pre post task n e above)
    ]
      refl
awake-step {s} f u pre post (serving task) e h =
    let (_, q, freed, _) =
      Returns-value (free_task_lem s.queue task (served-live pre post task f e)) in
    (_, finish pre post task e freed)
awake-step f u pre post testing e h = absurd (omega arith)
awake-step f u pre post waiting e h = absurd (omega arith)
awake-step f u pre post exited e h = absurd (omega arith)

testing-step :
    {s : System} (pre post : List Pc) (w : Pc)
    → s.workers ≡ pre ++ (w ∷ post)
    → 0 < is_testing w
    → (t : System) × Work s t
testing-step pre post testing e h = (_, sleep pre post e)
testing-step pre post looking e h = absurd (omega arith)
testing-step pre post (holding task) e h = absurd (omega arith)
testing-step pre post (serving task) e h = absurd (omega arith)
testing-step pre post waiting e h = absurd (omega arith)
testing-step pre post exited e h = absurd (omega arith)

holds-le : (p : Ptr) (ws : List Pc) → total (holds p) ws ≤ total is_awake ws
holds-le p [] = omega arith
holds-le p (looking ∷ ws) = omega (arith, holds-le p ws)
holds-le p (testing ∷ ws) = omega (arith, holds-le p ws)
holds-le p (waiting ∷ ws) = omega (arith, holds-le p ws)
holds-le p (holding t ∷ ws) = ground (arith, holds-le p ws)
holds-le p (serving t ∷ ws) = ground (arith, holds-le p ws)
holds-le p (exited ∷ ws) = omega (arith, holds-le p ws)

-- When no worker is awake, the tasks in memory are those in the queue.
pub asleep-live :
    {s : System} (f : IsOrderly s)
    → total is_awake s.workers ≡ 0
    → (p : Ptr) → s.queue.live p ≡ has p f.tasks
asleep-live {s} f asleep p = ground (arith, f.memory p, holds-le p s.workers)

length-none : (p : Ptr) (tasks : List Ptr) → length tasks ≡ 0 → has p tasks ≡ false
length-none p [] e = refl
length-none p (x ∷ xs) e = absurd (omega (arith, e))

-- All workers wait on an empty queue, and no task is in memory, or, in a pool that is shut down, all are gone.
pub data IsQuiet (s : System) : Type 0 where
  idle :
      s.queue.shutdown ≡ false
      → pos_part s.queue.queue_size ≡ 0
      → total is_waiting s.workers ≡ length s.workers
      → ((p : Ptr) → s.queue.live p ≡ false)
      → IsQuiet s
  ended : s.queue.shutdown ≡ true → total is_exited s.workers ≡ length s.workers → IsQuiet s

no_step-IsQuiet :
    {s : System}
    → IsOrderly s
    → total is_testing s.workers ≡ 0
    → total is_awake s.workers ≡ 0
    → IsQuiet s
no_step-IsQuiet {s} f u asleep = elim (Bool-cases s.queue.shutdown) [
  | inl down ↦ ended down (omega (arith, u, asleep, everyone s.workers, f.none_waits down))
  | inr runs ↦
      let none : length f.tasks ≡ 0 = ground (arith, f.no_lost runs, asleep) in
      idle runs (size-length f.queue ∙ none)
        (omega (arith, u, asleep, everyone s.workers, f.none_left runs))
        (λ p. asleep-live f asleep p ∙ length-none p f.tasks none)
]

progress : {s : System} → IsOrderly s → IsQuiet s ⊎ ((t : System) × Work s t)
progress {s} f =
    elim (total is_testing s.workers)
        as (λ n. total is_testing s.workers ≡ n → IsQuiet s ⊎ ((t : System) × Work s t)) [
          | zero ↦ λ u.
              elim (total is_awake s.workers)
                  as (λ n. total is_awake s.workers ≡ n → IsQuiet s ⊎ ((t : System) × Work s t)) [
                    | zero ↦ λ asleep. inl (no_step-IsQuiet f u asleep)
                    | suc n ↦ λ up.
                        let (pre, w, post, e, awake) =
                          total-Counted is_awake s.workers (omega (arith, up)) in
                        inr (awake-step f u pre post w e awake)
                  ]
                refl
          | suc n ↦ λ busy.
              let (pre, w, post, e, tests) =
                total-Counted is_testing s.workers (omega (arith, busy)) in
              inr (testing-step pre post w e tests)
        ]
      refl

pub settle :
    {s t : System} {n : ℕ}
    → IsOrderly s
    → Works s n t
    → (n ≤ 16 + 3 * pos_part s.queue.queue_size) × (IsQuiet t ⊎ ((u : System) × Work t u))
settle f steps = (Works-bound f steps, progress (Works-IsOrderly f steps))

no_sockets : (socket : Ptr → ℤ) (tasks : List Ptr) → length tasks ≡ 0 → sockets socket tasks ≡ []
no_sockets socket [] e = refl
no_sockets socket (x ∷ xs) e = absurd (omega (arith, e))

-- A history with these steps behind it.
abbrev followed : {s t : System} {n : ℕ} → Reach s → Works s n t → Reach t
followed r done = r
followed r (more steps step) = later (followed r steps) (work step)

-- All workers wait, the queue is empty, no task is in memory and all clients that were accepted have
-- been taken, in their order; or all workers of a pool that is shut down are gone.
pub data AtRest (s : System) (came gone : List ℤ) : Type 0 where
  all_served :
      s.queue.shutdown ≡ false
      → pos_part s.queue.queue_size ≡ 0
      → total is_waiting s.workers ≡ length s.workers
      → ((p : Ptr) → s.queue.live p ≡ false)
      → gone ≡ came
      → AtRest s came gone
  all_gone :
      s.queue.shutdown ≡ true → total is_exited s.workers ≡ length s.workers → AtRest s came gone

IsQuiet-AtRest : {s : System} → (r : Reach s) → IsQuiet s → AtRest s (accepted r) (taken r)
IsQuiet-AtRest r (ended down all) = all_gone down all
IsQuiet-AtRest {s} r (idle runs empty all freed) =
    let (run, f) = Reach-IsFifo r in
    let none =
      no_sockets s.queue.client_socket f.tasks (omega (arith, size-length f.queue, empty)) in
    all_served runs empty all freed (sym (f.order ∙ rw none (append_nil (taken r))))

-- Steps of workers accept no client, and take those that they take.
Works-accepted :
    {s t : System} {n : ℕ} (r : Reach s) (steps : Works s n t)
    → accepted (followed r steps) ≡ accepted r
Works-accepted r done = refl
Works-accepted r (more steps step) = Works-accepted r steps

Works-taken :
    {s t : System} {n : ℕ} (r : Reach s) (steps : Works s n t)
    → taken (followed r steps) ≡ taken_in_works (taken r) steps
Works-taken r done = refl
Works-taken r (more steps step) = rw (Works-taken r steps) refl

-- From every state that a history of the threads leads to, the workers alone come to rest: a run of
-- their steps, in whatever order, has at most 16 steps and 3 for each task in the queue, and as long
-- as it is not at an end some worker can go on. At the end all workers wait, the queue is empty,
-- every task has been freed, and the clients that workers have taken, in the history and in this
-- run, are those that the history has accepted, in the order in which they came; or the pool is
-- shut down and all workers are gone.
pub workers_settle :
    {s : System} (r : Reach s) {t : System} {n : ℕ} (steps : Works s n t)
    → (n ≤ 16 + 3 * pos_part s.queue.queue_size)
      × (AtRest t (accepted r) (taken_in_works (taken r) steps) ⊎ ((u : System) × Work t u))
workers_settle r steps =
    let (bound, rest) = settle (Reach-IsOrderly r) steps in
    (
      bound,
      elim rest [
        | inl quiet ↦ inl (
            rw (← Works-accepted r steps, ← Works-taken r steps)
              (IsQuiet-AtRest (followed r steps) quiet))
        | inr step ↦ inr step
      ],
    )
