-- ===== src/Startup/Main.antt =====
-- `main`: the whole life of the process.
use proxy_server_in_c.Common.{◌+◌, ◌≡◌, ◌⊎◌, true, false, List, [], Option, none, some, Bytes}
use proxy_server_in_c.Common.Int.{ℤ, pos, negative}
use proxy_server_in_c.Cache.{Ptr}
use proxy_server_in_c.ConnectionPool.Invariant.{occurs}
use proxy_server_in_c.ThreadPool.Fifo.{sockets}
use proxy_server_in_c.Accept.{chosen_port}
use proxy_server_in_c.Startup.{Platform, Process, Answers, empty_pool}
use proxy_server_in_c.Startup.Serve.{Bind}
use proxy_server_in_c.Startup.Init.{all_start, IsUp}
use proxy_server_in_c.Startup.Shutdown.{IsDown}
use proxy_server_in_c.Startup.Accepts.{listens, given_up}

-- What `proxy_server_start` leaves behind.
record IsServed (b : Bind) (accepts closed : List ℤ) (t : Process) : Type 0 where
  waiting : List Ptr
  state : IsUp t waiting [] (λ _. [])
  pool : t.connection_pool ≡ empty_pool
  refused : listens b ≡ false → (closed ≡ given_up b) × (waiting ≡ []) × (t.server_socket ≡ none)
  listening : listens b ≡ true → t.server_socket ≡ some b.socket
  kept :
      listens b ≡ true
      → (fd : ℤ) → negative fd ≡ false
      → occurs fd closed + occurs fd (sockets t.thread_pool.client_socket waiting)
        ≡ occurs fd accepts

-- How `main` ends, and how often it has closed the descriptor `fd`.
pub data Ended (platform : Platform) (argument : Option Bytes) (a : Answers) (b : Bind)
    (accepts : List ℤ) (fd : ℤ) : ℤ × List ℤ → Process → Type 0 where
  refused :
      {t : Process}
      → (chosen_port argument ≡ none) ⊎ (all_start platform a ≡ false)
      → Ended platform argument a b accepts fd (pos 1, []) t
  no_socket :
      {t : Process} (port : ℤ)
      → chosen_port argument ≡ some port
      → all_start platform a ≡ true
      → listens b ≡ false
      → IsDown t
      → t.server_socket ≡ none
      → Ended platform argument a b accepts fd (pos 0, given_up b) t
  served :
      {t : Process} {closed : List ℤ} (port : ℤ)
      → chosen_port argument ≡ some port
      → all_start platform a ≡ true
      → listens b ≡ true
      → IsDown t
      → t.server_socket ≡ some b.socket
      → occurs fd closed ≡ occurs fd accepts
      → Ended platform argument a b accepts fd (pos 0, closed) t
