-- ===== src/Threads/Shutdown.antt =====
-- `thread_pool_destroy` and the workers.
use proxy_server_in_c.Common.{
  ℕ, ◌+◌, ◌*◌, ◌≤◌, ◌≡◌, ◌⊎◌, refl, sym, true, false, arith, length, inl, inr, ap, ◌∙◌,
}
use proxy_server_in_c.Common.Int.{pos_part}
use proxy_server_in_c.Common.Run.{Returns, Returns-weaken}
use proxy_server_in_c.Cache.{Ptr}
use proxy_server_in_c.ThreadPool.{thread_pool_destroy}
use proxy_server_in_c.ThreadPool.Fifo.{thread_pool_destroy_lem}
use proxy_server_in_c.Threads.{
  waiting, Phase, closing, System, total, is_waiting, is_awake, is_exited, Work, Works, done, more,
  Reach, look, sleep, sem_wait, finish, Runs, here, next, Step, work, spurious, spawn, ready, add,
  stop,
}
use proxy_server_in_c.Threads.Totals.{total-least, everyone}
use proxy_server_in_c.Threads.Orderly.{IsOrderly, is_closing}
use proxy_server_in_c.Threads.Invariant.{Reach-IsOrderly, Step-IsOrderly}
use proxy_server_in_c.Threads.Progress.{idle, ended, settle, asleep-live}

not_closing : {p q : Phase} → p ≡ closing → p ≡ q → is_closing q ≡ true
not_closing e f = ap is_closing (sym f ∙ e)

Work-phase : {s t : System} → Work s t → t.phase ≡ s.phase
Work-phase (look pre post turn e u looked) = refl
Work-phase (sleep pre post e) = refl
Work-phase (sem_wait pre post task n e above) = refl
Work-phase (finish pre post task e freed) = refl

-- Once the pool is shut down, only the workers move: no client comes, none waits to be woken.
closing-Work : {s t : System} → IsOrderly s → s.phase ≡ closing → Step s t → Work s t
closing-Work f e (work step) = step
closing-Work {s} f e (spurious pre post w) =
    let none : total is_waiting s.workers ≡ 0 = f.none_waits (f.down ∙ ap is_closing e) in
    absurd (omega (arith, none, total-least is_waiting pre post waiting w))
closing-Work f e (spawn phase room) = absurd (ground (arith, not_closing e phase))
closing-Work f e (ready phase all) = absurd (ground (arith, not_closing e phase))
closing-Work f e (add task client_socket phase u h nz fresh added signal) =
    absurd (ground (arith, not_closing e phase))
closing-Work f e (stop phase u) = absurd (ground (arith, not_closing e phase))

pub Works-phase : {s t : System} {n : ℕ} → Works s n t → t.phase ≡ s.phase
Works-phase done = refl
Works-phase (more steps step) = Work-phase step ∙ Works-phase steps

Runs-IsOrderly : {s t : System} {n : ℕ} → IsOrderly s → Runs s n t → IsOrderly t
Runs-IsOrderly f here = f
Runs-IsOrderly f (next steps step) = Step-IsOrderly (Runs-IsOrderly f steps) step

Runs-Works : {s t : System} {n : ℕ} → IsOrderly s → s.phase ≡ closing → Runs s n t → Works s n t
Runs-Works f e here = done
Runs-Works f e (next steps step) =
    let before = Runs-Works f e steps in
    more before (closing-Work (Runs-IsOrderly f steps) (Works-phase before ∙ e) step)

destroy-frees :
    {s : System}
    → IsOrderly s
    → total is_awake s.workers ≡ 0
    → Returns (λ _ q. (p : Ptr) → q.live p ≡ false) (thread_pool_destroy s.queue)
destroy-frees {s} f asleep =
    Returns-weaken (thread_pool_destroy_lem f.queue)
      (λ closed q (_, freed) p. ground (arith, freed p, asleep-live f asleep p))

-- A shutdown of the pool ends: from the moment `shutdown` is set and the condition broadcast, under
-- the mutex, no run of the program has more than 16 steps and 3 for each task in the queue, whatever
-- the scheduler does, and as long as some worker is not gone one of them can go on. When all are
-- gone, so that the joins of `thread_pool_destroy` return, the rest of it returns too, and no task
-- is left in memory.
pub shutdown_ends :
    {s : System}
    → Reach s
    → s.phase ≡ closing
    → {t : System} {n : ℕ} → Runs s n t
    → (n ≤ 16 + 3 * pos_part s.queue.queue_size)
      × (((u : System) × Work t u)
          ⊎ ((total is_exited t.workers ≡ length t.workers)
              × Returns (λ _ q. (p : Ptr) → q.live p ≡ false) (thread_pool_destroy t.queue)))
shutdown_ends {s} r e {t} steps =
    let f = Reach-IsOrderly r in
    let works = Runs-Works f e steps in
    let g = Runs-IsOrderly f steps in
    let (bound, rest) = settle f works in
    (
      bound,
      elim rest [
        | inl quiet ↦ elim quiet [
          | idle runs _ _ _ ↦ absurd (ground (arith, runs, g.down, Works-phase works, e))
          | ended down all ↦ inr (all, destroy-frees g (omega (arith, all, everyone t.workers)))
        ]
        | inr step ↦ inl step
      ],
    )
