-- ===== src/Threads/Tests.antt =====
-- Runs of the threads.
use proxy_server_in_c.Common.{
  ◌+◌, ◌*◌, ◌<◌, ◌≤◌, ◌≡◌, ◌⊎◌, refl, true, false, [], ◌∷◌, arith, length,
}
use proxy_server_in_c.Common.Int.{pos_part, pos}
use proxy_server_in_c.Common.Run.{Returns}
use proxy_server_in_c.Cache.{Ptr, null, update}
use proxy_server_in_c.ThreadPool.{
  Queue, empty_queue, load_next, waits, exits, works, thread_pool_add_task, enqueue, worker_turn,
  thread_pool_destroy,
}
use proxy_server_in_c.Threads.{
  give_up, is_testing, looking, testing, waiting, System, total, is_exited, Work, done, more, look,
  sleep, Reach, start, later, Runs, here, next, work, spawn, ready, add, stop, woken, no_workers,
  running, closing, holding, exited,
}
use proxy_server_in_c.Threads.Orderly.{IsOrderly}
use proxy_server_in_c.Threads.Invariant.{Reach-IsOrderly}
use proxy_server_in_c.ThreadPool.Order.{IsFifo}
use proxy_server_in_c.Threads.Order.{IsRun, Reach-IsFifo}
use proxy_server_in_c.Threads.Progress.{AtRest, workers_settle}
use proxy_server_in_c.Threads.Shutdown.{shutdown_ends}
use proxy_server_in_c.Threads.Creation.{give_up_lem}

-- One worker, that has found nothing to do.
abbrev one_testing : System
one_testing = record no_workers { workers = testing ∷ [] }

one_testing-Reach : Reach one_testing
unfolding worker_turn
one_testing-Reach =
    later (later start (spawn refl (omega arith))) (work (look [] [] waits refl refl refl))

give_up_lem_example :
    (total is_testing one_testing.workers ≡ 0)
      × (0 ≤ 16 + 3 * pos_part one_testing.queue.queue_size)
      × ((total is_exited (give_up one_testing).workers ≡ length (give_up one_testing).workers)
          ⊎ ((u : System) × Work (give_up one_testing) u))
    ⊎ (0 < total is_testing one_testing.workers)
      × (total is_exited (give_up one_testing).workers < length (give_up one_testing).workers)
give_up_lem_example = give_up_lem one_testing-Reach done

-- Four workers, of which the first waits.
abbrev first_waits : System
first_waits = record no_workers {
  workers = waiting ∷ looking ∷ looking ∷ looking ∷ [];
  phase = running;
}

unfoldable first_waits_history : Reach first_waits
unfolding worker_turn
first_waits_history =
    let four =
      later
        (later (later (later start (spawn refl (omega arith))) (spawn refl (omega arith)))
          (spawn refl (omega arith)))
        (spawn refl (omega arith)) in
    later
      (later (later four (ready refl refl))
        (work (look [] (looking ∷ looking ∷ looking ∷ []) waits refl refl refl)))
      (work (sleep [] (looking ∷ looking ∷ looking ∷ []) refl))

-- The queue with the client 5 in it.
abbrev one_task : Queue
one_task = record empty_queue {
  live = update (λ _. false) 7 true;
  client_socket = update (λ _. pos 0) 7 (pos 5);
  next = update (λ _. null) 7 null;
  task_queue_head = 7;
  task_queue_tail = 7;
  queue_size = pos 1;
}

abbrev one_client : System
one_client = record first_waits {
  queue = one_task;
  workers = looking ∷ looking ∷ looking ∷ looking ∷ [];
}

unfoldable one_client_history : Reach one_client
unfolding thread_pool_add_task enqueue
one_client_history = later first_waits_history (
    add 7 (pos 5) {n = pos 0} {q = one_task} refl refl refl (ground arith) refl refl
      (woken [] (looking ∷ looking ∷ looking ∷ []) refl))

-- The client has been taken from the queue.
abbrev no_task : Queue
no_task = record one_task { task_queue_head = 0; task_queue_tail = 0; queue_size = pos 0 }

abbrev one_held : System
one_held = record one_client {
  queue = no_task;
  workers = holding 7 ∷ looking ∷ looking ∷ looking ∷ [];
}

unfoldable one_client_work : Work one_client one_held
unfolding worker_turn load_next
one_client_work = look [] (looking ∷ looking ∷ looking ∷ []) (works 7) {q = no_task} refl refl refl

Reach-IsOrderly_example : IsOrderly one_held
Reach-IsOrderly_example = Reach-IsOrderly (later one_client_history (work one_client_work))

workers_settle_example :
    (1 ≤ 16 + 3 * 1)
    × (AtRest one_held (pos 5 ∷ []) (pos 5 ∷ []) ⊎ ((u : System) × Work one_held u))
unfolding first_waits_history one_client_history one_client_work
workers_settle_example = workers_settle one_client_history (more done one_client_work)

-- The pool is shut down before a worker gets the client.
abbrev stopped : System
stopped = record one_client { queue = record one_task { shutdown = true }; phase = closing }

abbrev first_gone : System
first_gone = record stopped { workers = exited ∷ looking ∷ looking ∷ looking ∷ [] }

first_gone-Runs : Runs stopped 1 first_gone
unfolding worker_turn
first_gone-Runs = next here (work (look [] (looking ∷ looking ∷ looking ∷ []) exits refl refl refl))

shutdown_ends_example :
    (1 ≤ 16 + 3 * 1)
    × (((u : System) × Work first_gone u)
        ⊎ ((total is_exited first_gone.workers ≡ length first_gone.workers)
            × Returns (λ _ q. (p : Ptr) → q.live p ≡ false) (thread_pool_destroy first_gone.queue)))
shutdown_ends_example =
    shutdown_ends (later one_client_history (stop refl refl)) refl first_gone-Runs

Reach-IsFifo_example :
    (h : IsRun one_held (pos 5 ∷ []) (pos 5 ∷ [])) × IsFifo one_held.queue
      (pos 5 ∷ [])
      (pos 5 ∷ [])
      h.held
unfolding first_waits_history one_client_history one_client_work
Reach-IsFifo_example = Reach-IsFifo (later one_client_history (work one_client_work))
