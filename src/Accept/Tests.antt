-- ===== src/Accept/Tests.antt =====
-- Runs of the accept loop, and the theorems at them.
use proxy_server_in_c.Common.{◌≡◌, refl, ◌⊎◌, true, [], ◌∷◌, arith}
use proxy_server_in_c.Common.Int.{pos}
use proxy_server_in_c.Common.Run.{Returns}
use proxy_server_in_c.Cache.{update}
use proxy_server_in_c.ThreadPool.{empty_queue}
use proxy_server_in_c.ThreadPool.Fifo.{IsQueue, sockets}
use proxy_server_in_c.Accept.{accept_client}
use proxy_server_in_c.Accept.Client.{accept_client_lem}

empty_queue-IsQueue : IsQueue empty_queue []
empty_queue-IsQueue = record {
  chain = refl;
  tail = refl;
  size = refl;
  live = λ p h. ground arith;
  distinct = tt;
}

accept_client_example :
    Returns
      (λ closed t.
        (closed ≡ [])
          × IsQueue t (3 ∷ [])
          × (sockets t.client_socket (3 ∷ []) ≡ pos 4 ∷ [])
          × (t.live ≡ update empty_queue.live 3 true)
        ⊎ (closed ≡ pos 4 ∷ []) × (t ≡ empty_queue))
      (accept_client 3 (pos 4) empty_queue)
accept_client_example = accept_client_lem empty_queue-IsQueue 3 (pos 4) refl (λ ne. refl)
