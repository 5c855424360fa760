-- ===== src/Accept.antt =====
-- The accept loop of `proxy_server_start` and the argument of `main`: src/components/proxy_server.c
-- and src/proxy_server.c.
pub mod Client
mod Tests
use proxy_server_in_c.Common.{
  ℕ, Bool, true, false, not, ◌||◌, List, [], ◌∷◌, Option, none, some, if◌then◌else◌, Bytes,
}
use proxy_server_in_c.Common.Int.{ℤ, pos, positive, negative, int_eq, int_leb}
use proxy_server_in_c.Common.Run.{ok, Cmd, pure, ◌>>=◌}
use proxy_server_in_c.Common.CString.{atoi}
use proxy_server_in_c.Cache.{Ptr}
use proxy_server_in_c.ThreadPool.{Queue, thread_pool_add_task}

abbrev pub default_port : ℤ
default_port = pos 8080

-- One round of the loop, for the answer of `accept`: the descriptors that it closes.
unfoldable pub accept_client : (malloc : Ptr) → (accepted : ℤ) → Cmd Queue (List ℤ)
accept_client malloc accepted = if negative accepted then pure [] else (do
  added ← thread_pool_add_task malloc accepted
  if int_eq added (pos 0) then pure [] else pure (accepted ∷ []))

-- The port that `main` starts with, from its one argument if there is exactly one; `none` is the
-- exit with a message.
unfoldable pub chosen_port : (argument : Option Bytes) → Option ℤ
chosen_port none = some default_port
chosen_port (some text) =
    let port = atoi text in
    if not (positive port) || not (int_leb port (pos 65535)) then none else some port
