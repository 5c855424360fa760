-- ===== src/Threads/Creation.antt =====
-- `thread_pool_create` when `pthread_create` fails.
use proxy_server_in_c.Common.{ℕ, ◌+◌, ◌<◌, ◌≤◌, List, arith, length, refl}
use proxy_server_in_c.ThreadPool.{waits, exits, works}
use proxy_server_in_c.Common.{◌≡◌, ◌⊎◌, suc, zero, ap, refl, inl, inr, ◌∙◌, ◌*◌}
use proxy_server_in_c.Common.Int.{pos_part}
use proxy_server_in_c.Threads.Orderly.{IsOrderly, is_closing}
use proxy_server_in_c.Threads.Invariant.{Reach-IsOrderly, stop-IsOrderly}
use proxy_server_in_c.Threads.Progress.{IsQuiet, idle, ended, settle}
use proxy_server_in_c.Threads.Measure.{Works-IsOrderly}
use proxy_server_in_c.Threads.Shutdown.{Works-phase}
use proxy_server_in_c.Threads.{
  Reach, closing, Pc, looking, testing, waiting, holding, serving, exited, System, total,
  is_testing, is_waiting, is_exited, Work, Works, done, more, look, sleep, sem_wait, finish,
  give_up,
}
use proxy_server_in_c.Threads.Totals.{total-move, total-broadcast, everyone}

-- The workers that have tested and have not been woken since.
stuck : List Pc → ℕ
stuck ws = total is_testing ws + total is_waiting ws

Work-stuck : {s t : System} → Work s t → stuck s.workers ≤ stuck t.workers
unfolding stuck
Work-stuck (look pre post waits e u looked) = omega (
  arith,
  total-move is_testing pre post looking testing e,
  total-move is_waiting pre post looking testing e,
)
Work-stuck (look pre post exits e u looked) = omega (
  arith,
  total-move is_testing pre post looking exited e,
  total-move is_waiting pre post looking exited e,
)
Work-stuck (look pre post (works task) e u looked) = omega (
  arith,
  total-move is_testing pre post looking (holding task) e,
  total-move is_waiting pre post looking (holding task) e,
)
Work-stuck (sleep pre post e) = omega (
  arith,
  total-move is_testing pre post testing waiting e,
  total-move is_waiting pre post testing waiting e,
)
Work-stuck (sem_wait pre post task n e above) = omega (
  arith,
  total-move is_testing pre post (holding task) (serving task) e,
  total-move is_waiting pre post (holding task) (serving task) e,
)
Work-stuck (finish pre post task e freed) = omega (
  arith,
  total-move is_testing pre post (serving task) looking e,
  total-move is_waiting pre post (serving task) looking e,
)

Works-stuck : {s t : System} {n : ℕ} → Works s n t → stuck s.workers ≤ stuck t.workers
Works-stuck done = omega arith
Works-stuck (more steps step) = omega (arith, Works-stuck steps, Work-stuck step)

zero_or_positive : (n : ℕ) → (n ≡ 0) ⊎ (0 < n)
zero_or_positive zero = inl refl
zero_or_positive (suc n) = inr (omega arith)

-- A pool that is shut down comes to rest when all workers are gone.
all_gone :
    {s t : System} {n : ℕ}
    → IsOrderly s
    → s.phase ≡ closing
    → Works s n t
    → IsQuiet t ⊎ ((u : System) × Work t u)
    → (total is_exited t.workers ≡ length t.workers) ⊎ ((u : System) × Work t u)
all_gone f e steps (inr step) = inr step
all_gone f e steps (inl (ended down all)) = inl all
all_gone f e steps (inl (idle runs empty rest freed)) =
    let down = (Works-IsOrderly f steps).down ∙ ap is_closing (Works-phase steps ∙ e) in
    absurd (ground (arith, runs, down))

-- When `pthread_create` fails, `thread_pool_create` sets `shutdown` and broadcasts without the
-- mutex. If no worker is then between its test of the queue and its wait, the workers end: a run of
-- their steps has at most 16 steps and 3 for each task, and as long as some worker is not gone one
-- can go on, so that the joins return. If one is, some worker is not gone after any number of steps
-- of the workers, so that the joins do not all return, but for a wake-up without a signal.
pub give_up_lem :
    {s : System}
    → Reach s
    → {t : System} {n : ℕ} → Works (give_up s) n t
    → (total is_testing s.workers ≡ 0)
        × (n ≤ 16 + 3 * pos_part s.queue.queue_size)
        × ((total is_exited t.workers ≡ length t.workers) ⊎ ((u : System) × Work t u))
      ⊎ (0 < total is_testing s.workers) × (total is_exited t.workers < length t.workers)
unfolding stuck
give_up_lem {s} r {t} steps = elim (zero_or_positive (total is_testing s.workers)) [
  | inl unlocked ↦
      let f = stop-IsOrderly (Reach-IsOrderly r) unlocked in
      let (bound, rest) = settle f steps in inl (unlocked, bound, all_gone f refl steps rest)
  | inr locked ↦ inr (
    locked,
    omega (
      arith,
      locked,
      Works-stuck steps,
      total-broadcast is_testing s.workers refl,
      everyone t.workers,
    ),
  )
]
