-- ===== src/ThreadPool/Tests.antt =====
-- Runs of thread_pool.c, and the theorems at them.
use proxy_server_in_c.Common.{true, false, ◌≡◌, refl, [], ◌∷◌, arith}
use proxy_server_in_c.Common.Int.{pos}
use proxy_server_in_c.Common.Run.{ok}
use proxy_server_in_c.Cache.{null, update}
use proxy_server_in_c.ThreadPool.{Queue, empty_queue, thread_pool_add_task, works, worker_turn}
use proxy_server_in_c.ThreadPool.Order.{start, add, take, IsFifo, Steps-IsFifo}

abbrev one_task : Queue
one_task = record empty_queue {
  live = update (λ _. false) 3 true;
  client_socket = update (λ _. pos 0) 3 (pos 8);
  next = update (λ _. null) 3 null;
  task_queue_head = 3;
  task_queue_tail = 3;
  queue_size = pos 1;
}

abbrev no_task : Queue
no_task = record one_task { task_queue_head = null; task_queue_tail = null; queue_size = pos 0 }

added : thread_pool_add_task 3 (pos 8) empty_queue ≡ ok (pos 0) one_task
unfolding thread_pool_add_task
added = refl

taken_out : worker_turn one_task ≡ ok (works 3) no_task
unfolding worker_turn
taken_out = refl

Steps-IsFifo_example : IsFifo no_task (pos 8 ∷ []) (pos 8 ∷ []) (3 ∷ [])
Steps-IsFifo_example =
    Steps-IsFifo (take (add start 3 (pos 8) refl (omega arith) refl added) taken_out)
