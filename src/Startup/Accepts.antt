-- ===== src/Startup/Accepts.antt =====
-- The server socket, and what becomes of the clients that the loop of `proxy_server_start` accepts.
use proxy_server_in_c.Common.{
  ◌+◌, ◌≡◌, ◌≢◌, Bool, true, false, not, ◌&&◌, List, [], ◌∷◌, ◌++◌, arith, if◌then◌else◌, inl, inr,
  Bool-cases,
}
use proxy_server_in_c.Common.Int.{ℤ, minus_one, negative, int_eq, int_eq_iff}
use proxy_server_in_c.Common.Run.{Returns, returns, Returns-then, Returns-weaken}
use proxy_server_in_c.Cache.{Ptr, null}
use proxy_server_in_c.Cache.Order.{has}
use proxy_server_in_c.ConnectionPool.Invariant.{occurs, occurs-append}
use proxy_server_in_c.ThreadPool.{Queue}
use proxy_server_in_c.ThreadPool.Fifo.{IsQueue, sockets, has-append}
use proxy_server_in_c.Accept.{accept_client}
use proxy_server_in_c.Accept.Client.{accept_client_lem}
use proxy_server_in_c.Startup.Serve.{Bind, create_server_socket, accept_rounds}

-- The answers with which a server socket is made.
abbrev pub listens : Bind → Bool
listens b = not (negative b.socket) && b.setsockopt && b.bind && b.listen

-- Without them, the socket is closed, if there is one.
abbrev pub given_up : Bind → List ℤ
given_up b = if negative b.socket then [] else b.socket ∷ []

pub create_server_socket_lem :
    (b : Bind)
    → create_server_socket b ≡ (if listens b then (b.socket, []) else (minus_one, given_up b))
unfolding create_server_socket
create_server_socket_lem b = ground arith

-- The queue holds these tasks and there are no others in memory.
pub record IsHeld (q : Queue) (tasks : List Ptr) : Type 0 where
  pub queue : IsQueue q tasks
  pub live : (x : Ptr) → q.live x ≡ has x tasks

-- `malloc` answers `NULL` or an address that is not in use.
abbrev pub IsFresh : (Queue → Ptr) → Type 0
IsFresh allocate = (q : Queue) → allocate q ≢ null → q.live (allocate q) ≡ false

-- Each accepted client is in the queue or has been closed.
pub record IsKept (q : Queue) (tasks : List Ptr) (accepts closed : List ℤ) (t : Queue)
    : Type 0 where
  pub after : List Ptr
  pub held : IsHeld t after
  pub kept :
      (fd : ℤ)
      → negative fd ≡ false
      → occurs fd closed + occurs fd (sockets t.client_socket after)
        ≡ occurs fd (sockets q.client_socket tasks) + occurs fd accepts

negative-ne : (a fd : ℤ) → negative a ≡ true → negative fd ≡ false → int_eq a fd ≡ false
negative-ne a fd n nn = ground (arith, (int_eq_iff a fd).0)

accept_round_lem :
    (allocate : Queue → Ptr)
    → IsFresh allocate
    → (a : ℤ) {q : Queue} {tasks : List Ptr} → IsHeld q tasks
    → Returns (IsKept q tasks (a ∷ [])) (accept_client (allocate q) a q)
unfolding accept_client
accept_round_lem allocate fresh a {q} {tasks} h = elim (Bool-cases (negative a)) [
  | inl n ↦
      rw (accept_client, n)
        (returns (record {
          after = tasks;
          held = h;
          kept = λ fd nn. ground (arith, negative-ne a fd n nn);
        }))
  | inr n ↦ Returns-weaken (accept_client_lem h.queue (allocate q) a n (fresh q)) (λ closed t r.
      elim r [
        | inl (none_closed, good, order, live) ↦ record {
          after = tasks ++ allocate q ∷ [];
          held = record {
            queue = good;
            live = λ x. ground (arith, live, h.live x, has-append x (allocate q) tasks);
          };
          kept = λ fd nn.
              rw (none_closed, order)
                (omega (arith, occurs-append fd (sockets q.client_socket tasks) (a ∷ [])));
        }
        | inr (it, same) ↦ record {
          after = tasks;
          held = rw same h;
          kept = λ fd nn. rw (it, same) (omega arith);
        }
      ])
]

pub accept_rounds_lem :
    (allocate : Queue → Ptr)
    → IsFresh allocate
    → (accepts : List ℤ) {q : Queue} {tasks : List Ptr} → IsHeld q tasks
    → Returns (IsKept q tasks accepts) (accept_rounds allocate accepts q)
unfolding accept_rounds
accept_rounds_lem allocate fresh [] {q} {tasks} h =
    returns (record { after = tasks; held = h; kept = λ fd nn. omega arith })
accept_rounds_lem allocate fresh (a ∷ accepts) {q} {tasks} h =
    Returns-then (accept_round_lem allocate fresh a h) (λ closed t k.
      Returns-then (accept_rounds_lem allocate fresh accepts k.held) (λ rest u l. returns (record {
        after = l.after;
        held = l.held;
        kept = λ fd nn. omega (arith, occurs-append fd closed rest, k.kept fd nn, l.kept fd nn);
      })))
