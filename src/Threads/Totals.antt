-- ===== src/Threads/Totals.antt =====
-- Sums over the workers, and what one worker's look at the queue gives.
use proxy_server_in_c.Common.{
  ℕ, suc, ◌+◌, ◌<◌, ◌≤◌, ◌≡◌, refl, true, false, List, [], ◌∷◌, ◌++◌, arith, length, Bool-cases,
  inl, inr, ap,
}
use proxy_server_in_c.Common.Run.{Returns, Returns-weaken}
use proxy_server_in_c.Cache.{Ptr}
use proxy_server_in_c.ThreadPool.{Queue, Turn, waits, exits, works, worker_turn}
use proxy_server_in_c.ThreadPool.Fifo.{IsQueue, worker_turn_lem}
use proxy_server_in_c.ThreadPool.Order.{worker_turn_down, worker_turn_idle}
use proxy_server_in_c.Threads.{
  Pc, looking, testing, waiting, holding, serving, exited, total, is_testing, is_waiting, is_awake,
  is_exited, broadcast, Signal, nobody, woken,
}

total-split :
    (f : Pc → ℕ) (pre post : List Pc) (w : Pc)
    → total f (pre ++ (w ∷ post)) ≡ total f pre + total f post + f w
total-split f [] post w = omega arith
total-split f (x ∷ pre) post w = omega (arith, total-split f pre post w)

-- One worker moves from `w` to `w'`.
pub total-move :
    (f : Pc → ℕ) {ws : List Pc} (pre post : List Pc) (w w' : Pc)
    → ws ≡ pre ++ (w ∷ post)
    → total f (pre ++ (w' ∷ post)) + f w ≡ total f ws + f w'
total-move f pre post w w' e =
    omega (arith, total-split f pre post w, total-split f pre post w', ap (total f) e)

-- A sum is at least what one of the workers adds.
pub total-least :
    (f : Pc → ℕ) {ws : List Pc} (pre post : List Pc) (w : Pc)
    → ws ≡ pre ++ (w ∷ post)
    → f w ≤ total f ws
total-least f pre post w e = omega (arith, total-split f pre post w, ap (total f) e)

length-split :
    (pre post : List Pc) (w : Pc) → length (pre ++ (w ∷ post)) ≡ length pre + length post + 1
length-split [] post w = omega arith
length-split (x ∷ pre) post w = omega (arith, length-split pre post w)

pub length-move :
    {ws : List Pc} (pre post : List Pc) (w w' : Pc)
    → ws ≡ pre ++ (w ∷ post)
    → length (pre ++ (w' ∷ post)) ≡ length ws
length-move pre post w w' e =
    omega (arith, length-split pre post w, length-split pre post w', ap length e)

pub total-snoc : (f : Pc → ℕ) (ws : List Pc) (w : Pc) → total f (ws ++ (w ∷ [])) ≡ total f ws + f w
total-snoc f ws w = omega (arith, total-split f ws [] w)

pub length-snoc : (ws : List Pc) (w : Pc) → length (ws ++ (w ∷ [])) ≡ length ws + 1
length-snoc ws w = omega (arith, length-split ws [] w)

-- Waking every worker changes no sum that does not tell a waiting worker from a looking one.
pub total-broadcast :
    (f : Pc → ℕ) (ws : List Pc) → f waiting ≡ f looking → total f (broadcast ws) ≡ total f ws
total-broadcast f [] e = refl
total-broadcast f (looking ∷ ws) e = omega (arith, total-broadcast f ws e)
total-broadcast f (testing ∷ ws) e = omega (arith, total-broadcast f ws e)
total-broadcast f (waiting ∷ ws) e = omega (arith, total-broadcast f ws e)
total-broadcast f (holding t ∷ ws) e = omega (arith, total-broadcast f ws e)
total-broadcast f (serving t ∷ ws) e = omega (arith, total-broadcast f ws e)
total-broadcast f (exited ∷ ws) e = omega (arith, total-broadcast f ws e)

pub broadcast-wakes : (ws : List Pc) → total is_waiting (broadcast ws) ≡ 0
broadcast-wakes [] = refl
broadcast-wakes (looking ∷ ws) = omega (arith, broadcast-wakes ws)
broadcast-wakes (testing ∷ ws) = omega (arith, broadcast-wakes ws)
broadcast-wakes (waiting ∷ ws) = omega (arith, broadcast-wakes ws)
broadcast-wakes (holding t ∷ ws) = omega (arith, broadcast-wakes ws)
broadcast-wakes (serving t ∷ ws) = omega (arith, broadcast-wakes ws)
broadcast-wakes (exited ∷ ws) = omega (arith, broadcast-wakes ws)

pub length-broadcast : (ws : List Pc) → length (broadcast ws) ≡ length ws
length-broadcast [] = refl
length-broadcast (w ∷ ws) = ap suc (length-broadcast ws)

-- Every worker is awake, between its test and its wait, waiting or gone.
pub everyone :
    (ws : List Pc)
    → total is_awake ws + total is_testing ws + total is_waiting ws + total is_exited ws ≡ length ws
everyone [] = refl
everyone (looking ∷ ws) = omega (arith, everyone ws)
everyone (testing ∷ ws) = omega (arith, everyone ws)
everyone (waiting ∷ ws) = omega (arith, everyone ws)
everyone (holding t ∷ ws) = omega (arith, everyone ws)
everyone (serving t ∷ ws) = omega (arith, everyone ws)
everyone (exited ∷ ws) = omega (arith, everyone ws)

-- What a worker finds when it looks at a queue of these tasks.
pub data Outcome (q : Queue) (tasks : List Ptr) : Turn → Queue → Type 0 where
  nothing : tasks ≡ [] → q.shutdown ≡ false → Outcome q tasks waits q
  over : q.shutdown ≡ true → Outcome q tasks exits q
  got :
      {t : Queue} (task : Ptr) (rest : List Ptr)
      → tasks ≡ task ∷ rest
      → q.shutdown ≡ false
      → IsQueue t rest
      → t.live ≡ q.live
      → t.shutdown ≡ q.shutdown
      → Outcome q tasks (works task) t

pub worker_turn-Outcome :
    {q : Queue} (tasks : List Ptr) → IsQueue q tasks → Returns (Outcome q tasks) (worker_turn q)
worker_turn-Outcome {q} tasks s = elim (Bool-cases q.shutdown) [
  | inl down ↦
      Returns-weaken (worker_turn_down q down) (λ turn t (e, same). rw (e, same) (over down))
  | inr runs ↦
      elim tasks as (λ l. IsQueue q l → Returns (Outcome q l) (worker_turn q)) [
        | [] ↦ λ s'.
            Returns-weaken (worker_turn_idle q s'.chain runs)
              (λ turn t (e, same). rw (e, same) (nothing refl runs))
        | x ∷ xs ↦ λ s'.
            Returns-weaken (worker_turn_lem s' runs)
              (λ turn t (e, good, _, live, down). rw e (got x xs refl runs good live down))
      ]
        s
]

-- A signal changes no sum that does not tell a waiting worker from a looking one.
pub total-Signal :
    (f : Pc → ℕ) {ws us : List Pc} → Signal ws us → f waiting ≡ f looking → total f us ≡ total f ws
total-Signal f (nobody _) same = refl
total-Signal f (woken pre post e) same = omega (arith, total-move f pre post waiting looking e)

pub length-Signal : {ws us : List Pc} → Signal ws us → length us ≡ length ws
length-Signal (nobody _) = refl
length-Signal (woken pre post e) = length-move pre post waiting looking e

-- After a signal one of the workers is awake, unless all were between test and wait, or gone.
pub Signal-awake :
    {ws us : List Pc}
    → Signal ws us
    → total is_testing ws + total is_exited ws < length ws
    → 0 < total is_awake us
Signal-awake {ws} (nobody none) some_one = omega (arith, everyone ws)
Signal-awake (woken pre post e) some_one = omega (arith, total-least is_awake pre post looking refl)
