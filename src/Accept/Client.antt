-- ===== src/Accept/Client.antt =====
-- What becomes of an accepted client, and which ports the server starts on.
use proxy_server_in_c.Common.{
  ◌≡◌, ◌≢◌, ◌⊎◌, ◌↔◌, refl, true, false, List, [], ◌∷◌, ◌++◌, none, some, ◌==◌, Bytes, arith,
  Bool-cases, inl, inr,
}
use proxy_server_in_c.Common.Int.{ℤ, pos, minus_one, positive, negative, int_leb}
use proxy_server_in_c.Common.Run.{ok, Returns, returns, Returns-then}
use proxy_server_in_c.Common.CString.{atoi}
use proxy_server_in_c.Cache.{Ptr, null, update}
use proxy_server_in_c.ThreadPool.{Queue, thread_pool_add_task}
use proxy_server_in_c.ThreadPool.Fifo.{IsQueue, sockets, thread_pool_add_task_lem}
use proxy_server_in_c.Accept.{accept_client, chosen_port}

-- Without memory for the task, or with descriptor 0, the call is refused and the queue is as it was.
thread_pool_add_task-refused :
    (q : Queue) (task : Ptr) (client_socket : ℤ)
    → (positive client_socket ≡ false) ⊎ (task ≡ null)
    → thread_pool_add_task task client_socket q ≡ ok minus_one q
unfolding thread_pool_add_task
thread_pool_add_task-refused q task client_socket (inl e) = rw e refl
thread_pool_add_task-refused q task client_socket (inr e) =
    let z : (task == null) ≡ true = ground arith in
    elim (Bool-cases (positive client_socket)) [ inl p ↦ rw (p, z) refl | inr p ↦ rw p refl ]

-- No accepted client is lost: if `malloc` answers `NULL` or an address not in use, a round of the
-- accept loop returns, and the client's socket is either the last one in the queue, behind the
-- others in their order, and no memory but the task's has come into use, or it is closed and the
-- queue is as it was.
pub accept_client_lem :
    {q : Queue} {tasks : List Ptr}
    → IsQueue q tasks
    → (task : Ptr) (accepted : ℤ) → negative accepted ≡ false
    → (task ≢ null → q.live task ≡ false)
    → Returns
        (λ closed t.
          (closed ≡ [])
            × IsQueue t (tasks ++ task ∷ [])
            × (sockets t.client_socket (tasks ++ task ∷ [])
                ≡ sockets q.client_socket tasks ++ accepted ∷ [])
            × (t.live ≡ update q.live task true)
          ⊎ (closed ≡ accepted ∷ []) × (t ≡ q))
        (accept_client task accepted q)
unfolding accept_client
accept_client_lem {q} s task accepted h fresh = elim (Bool-cases (positive accepted)) [
  | inr p ↦
      rw (h, thread_pool_add_task-refused q task accepted (inl p)) (returns (inr (refl, refl)))
  | inl p ↦ elim (Bool-cases (task == null)) [
    | inl z ↦
        rw (h, thread_pool_add_task-refused q task accepted (inr (ground arith)))
          (returns (inr (refl, refl)))
    | inr z ↦
        let nz : task ≢ null = λ e. ground arith in
        rw h (
          Returns-then (thread_pool_add_task_lem s task accepted p nz (fresh nz))
            (λ n t (e, good, order, live, _). rw e (returns (inl (refl, good, order, live)))))
  ]
]

some_ne_none : {port : ℤ} → none ≢ some port
some_ne_none e = ground arith

-- The server starts on every port that TCP has and on no other number: an argument is taken exactly
-- when it reads as a number from 1 to 65535, and is then the port.
pub chosen_port_iff :
    (text : Bytes) (port : ℤ)
    → (chosen_port (some text) ≡ some port)
      ↔ ((atoi text ≡ port) × (positive port ≡ true) × (int_leb port (pos 65535) ≡ true))
unfolding chosen_port
chosen_port_iff text port = (
  λ e. elim (Bool-cases (positive (atoi text))) [
    | inr a ↦ absurd (some_ne_none (rw a at e))
    | inl a ↦ elim (Bool-cases (int_leb (atoi text) (pos 65535))) [
      | inr b ↦ absurd (some_ne_none (rw (a, b) at e))
      | inl b ↦
          let same : some (atoi text) ≡ some port = rw (a, b) at e in
          let q : atoi text ≡ port = ground (arith, same) in (q, rw q at a, rw q at b)
    ]
  ],
  λ (a, b, c). rw (a, b, c) refl,
)
