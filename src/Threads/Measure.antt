-- ===== src/Threads/Measure.antt =====
-- A measure that the steps of the workers bring down.
use proxy_server_in_c.Common.{ℕ, ◌+◌, ◌*◌, ◌<◌, ◌≤◌, ◌≡◌, List, [], ◌∷◌, ◌++◌, arith, length, ap}
use proxy_server_in_c.Common.Int.{pos_part}
use proxy_server_in_c.Common.Run.{Returns-ok}
use proxy_server_in_c.Cache.{Ptr}
use proxy_server_in_c.ThreadPool.{Queue, Turn}
use proxy_server_in_c.ThreadPool.Fifo.{IsQueue}
use proxy_server_in_c.ThreadPool.Order.{free_task_lem}
use proxy_server_in_c.Threads.{
  Pc, looking, testing, waiting, holding, serving, exited, System, total, is_serving, after_turn,
  Work, look, sleep, sem_wait, finish, Works, done, more,
}
use proxy_server_in_c.Threads.Totals.{total-move, Outcome, nothing, over, got, worker_turn-Outcome}
use proxy_server_in_c.Threads.Orderly.{IsOrderly, Work-IsOrderly, served-live}

-- How many steps a worker takes until it waits or is gone, if there is no other task; a task in the
-- queue is three more.
abbrev weight : Pc → ℕ
weight looking = 2
weight testing = 1
weight waiting = 0
weight (holding _) = 4
weight (serving _) = 3
weight exited = 0

abbrev pub size : System → ℕ
size s = pos_part s.queue.queue_size

measure : System → ℕ
measure s = total weight s.workers + 3 * size s

pub size-length :
    {q : Queue} {tasks : List Ptr} → IsQueue q tasks → pos_part q.queue_size ≡ length tasks
size-length good = ap pos_part good.size

weight-le : (ws : List Pc) → total weight ws ≤ 4 * length ws
weight-le [] = omega arith
weight-le (looking ∷ ws) = omega (arith, weight-le ws)
weight-le (testing ∷ ws) = omega (arith, weight-le ws)
weight-le (waiting ∷ ws) = omega (arith, weight-le ws)
weight-le (holding t ∷ ws) = omega (arith, weight-le ws)
weight-le (serving t ∷ ws) = omega (arith, weight-le ws)
weight-le (exited ∷ ws) = omega (arith, weight-le ws)

pub serving-le : (ws : List Pc) → total is_serving ws ≤ length ws
serving-le [] = omega arith
serving-le (looking ∷ ws) = omega (arith, serving-le ws)
serving-le (testing ∷ ws) = omega (arith, serving-le ws)
serving-le (waiting ∷ ws) = omega (arith, serving-le ws)
serving-le (holding t ∷ ws) = omega (arith, serving-le ws)
serving-le (serving t ∷ ws) = omega (arith, serving-le ws)
serving-le (exited ∷ ws) = omega (arith, serving-le ws)

look-measure :
    {s : System} (pre post : List Pc) {turn : Turn} {q : Queue}
    → (f : IsOrderly s) → s.workers ≡ pre ++ (looking ∷ post)
    → Outcome s.queue f.tasks turn q
    → measure (record s { queue = q; workers = pre ++ (after_turn turn ∷ post) }) < measure s
unfolding measure
look-measure pre post f e (nothing none runs) =
    omega (arith, total-move weight pre post looking testing e)
look-measure pre post f e (over down) = omega (arith, total-move weight pre post looking exited e)
look-measure pre post f e (got task rest front runs good live same) = omega (
  arith,
  total-move weight pre post looking (holding task) e,
  size-length good,
  size-length f.queue,
  ap length front,
)

Work-measure : {s t : System} → IsOrderly s → Work s t → measure t < measure s
unfolding measure
Work-measure f (look pre post turn e u looked) =
    look-measure pre post f e (Returns-ok (rw looked at (worker_turn-Outcome f.tasks f.queue)))
Work-measure f (sleep pre post e) = omega (arith, total-move weight pre post testing waiting e)
Work-measure f (sem_wait pre post task n e above) =
    omega (arith, total-move weight pre post (holding task) (serving task) e)
Work-measure {s} f (finish pre post task e freed) =
    let after =
      Returns-ok (rw freed at (free_task_lem s.queue task (served-live pre post task f e))) in
    omega (
      arith,
      total-move weight pre post (serving task) looking e,
      ap (λ q. pos_part (Queue.queue_size q)) after,
    )

pub Works-IsOrderly : {s t : System} {n : ℕ} → IsOrderly s → Works s n t → IsOrderly t
Works-IsOrderly f done = f
Works-IsOrderly f (more steps step) = Work-IsOrderly (Works-IsOrderly f steps) step

Works-measure : {s t : System} {n : ℕ} → IsOrderly s → Works s n t → n + measure t ≤ measure s
Works-measure f done = omega arith
Works-measure f (more steps step) =
    omega (arith, Works-measure f steps, Work-measure (Works-IsOrderly f steps) step)

pub Works-bound : {s t : System} {n : ℕ} → IsOrderly s → Works s n t → n ≤ 16 + 3 * size s
unfolding measure
Works-bound {s} f steps = omega (arith, Works-measure f steps, weight-le s.workers, f.crew)
