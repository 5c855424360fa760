-- ===== src/Startup/Serve.antt =====
-- `create_server_socket` and `proxy_server_start` of src/components/proxy_server.c, and `main` and
-- `signal_handler` of src/proxy_server.c.
use proxy_server_in_c.Common.{
  Bool, not, List, [], ◌∷◌, ◌++◌, Option, none, some, if◌then◌else◌, Bytes,
}
use proxy_server_in_c.Common.Int.{ℤ, pos, minus_one, negative, int_eq}
use proxy_server_in_c.Common.Run.{ok, Cmd, pure, ◌>>◌, ◌>>=◌}
use proxy_server_in_c.Cache.{Ptr}
use proxy_server_in_c.ThreadPool.{Queue}
use proxy_server_in_c.Accept.{accept_client, chosen_port}
use proxy_server_in_c.Startup.{Platform, Process, Answers, on_thread_pool}
use proxy_server_in_c.Startup.Create.{proxy_server_init}
use proxy_server_in_c.Startup.Destroy.{proxy_server_shutdown}

-- What the system answers to the calls of `create_server_socket`.
pub record Bind : Type 0 where
  pub socket : ℤ
  pub setsockopt : Bool
  pub bind : Bool
  pub listen : Bool

-- `create_server_socket`: the descriptor or -1, and the descriptors it closed.
unfoldable pub create_server_socket : Bind → ℤ × List ℤ
create_server_socket b =
    if negative b.socket
    then (minus_one, [])
    else if not b.setsockopt
    then (minus_one, b.socket ∷ [])
    else if not b.bind
    then (minus_one, b.socket ∷ [])
    else if not b.listen
    then (minus_one, b.socket ∷ [])
    else (b.socket, [])

-- The rounds of the loop of `proxy_server_start` for these answers of `accept`: the descriptors
-- that are closed. `allocate` is the address that
-- `malloc` answers when the queue is in this state.
unfoldable pub accept_rounds : (allocate : Queue → Ptr) → List ℤ → Cmd Queue (List ℤ)
unfolding accept_client
accept_rounds allocate [] = pure []
accept_rounds allocate (accepted ∷ more) = do
  closed ← (λ q. accept_client (allocate q) accepted q)
  rest ← accept_rounds allocate more
  pure (closed ++ rest)

-- `proxy_server_start`, until a signal comes; then `server_socket` is still open.
unfoldable pub proxy_server_start : Bind → (allocate : Queue → Ptr) → List ℤ → Cmd Process (List ℤ)
unfolding create_server_socket accept_rounds
proxy_server_start b allocate accepts =
    let server = create_server_socket b in
    if negative server.0 then pure server.1 else (do
      (λ p. ok tt (record p { server_socket = some server.0 }))
      on_thread_pool (accept_rounds allocate accepts))

-- The rest of `main`, for what `proxy_server_init` returned: the exit status and the descriptors
-- that are closed. It ends with `proxy_server_shutdown` and status 0 in `main` itself, when there is
-- no server socket, and in `signal_handler`, when a signal ends the loop.
unfoldable pub after_init :
    Platform
    → Bind
    → (allocate : Queue → Ptr) → List ℤ
    → (status : Option ℤ) → Cmd Process (ℤ × List ℤ)
unfolding proxy_server_start proxy_server_shutdown
after_init platform b allocate accepts none = pure (pos 1, [])
after_init platform b allocate accepts (some n) =
    if not (int_eq n (pos 0)) then pure (pos 1, []) else (do
      started ← proxy_server_start b allocate accepts
      ended ← proxy_server_shutdown platform
      pure (pos 0, started ++ ended))

-- `main`, with its argument if there is exactly one.
unfoldable pub main :
    Platform
    → Option Bytes
    → Answers
    → Bind
    → (allocate : Queue → Ptr) → List ℤ
    → Cmd Process (ℤ × List ℤ)
unfolding chosen_port proxy_server_init after_init
main platform argument a b allocate accepts = elim (chosen_port argument) [
  | none ↦ pure (pos 1, [])
  | some port ↦ (do
    status ← proxy_server_init platform a
    after_init platform b allocate accepts status)
]
