-- ===== src/Server/Alone.antt =====
-- A worker that is alone: its moves one after the other, and `forward_request_to_server`.
use proxy_server_in_c.Common.{
  ℕ, zero, suc, Bool, true, false, not, ◌≡◌, refl, ◌∙◌, Option, none, some, ◌==◌, leb, ltb,
  if◌then◌else◌, inl, inr, Bytes, length, Bool-cases, Option-cases,
}
use proxy_server_in_c.Common.Int.{ℤ, pos, minus_one, negative, positive}
use proxy_server_in_c.Common.Run.{Run, ok, fault, out_of_fuel, Cmd, pure, and_then, ◌>>=◌, ◌>>◌}
use mathlib.Core.List.{◌∷◌}
use proxy_server_in_c.Cache.{Ptr, null, cache_get}
use proxy_server_in_c.HttpParser.{ParsedRequest, extract_host_port}
use proxy_server_in_c.Server.{
  World, Net, closed, to_server, emit, on_cache, max_request_size, printed, actual_path, cache_key,
  request_text, receive, connect, give_back, pass_on, send_cached, fetch, forward_request_to_server,
}
use proxy_server_in_c.Server.Shared.{
  Phase, looking_up, sending, asking, storing, returning, done, exchange, move, held,
}

-- The number that the worker's function returns.
abbrev pub result : Phase → Cmd World ℤ
result (looking_up method path host port) = λ _. fault
result (sending node found age) = λ _. fault
result (asking method path host port) = λ _. fault
result (storing path reply server host port) = λ _. fault
result (returning reply server host port) = λ _. fault
result (done n) = pure n

-- `k` moves, and the result.
unfoldable pub moves : ℕ → Net → Phase → Cmd World ℤ
unfolding move
moves zero net p = result p
moves (suc k) net p = do q ← move net p; moves k net q

and_then_ext :
    {A B : Type 0} (r : Run World A) (f g : A → Cmd World B)
    → ((a : A) (w : World) → f a w ≡ g a w)
    → and_then r f ≡ and_then r g
and_then_ext (ok a w) f g h = h a w
and_then_ext fault f g h = refl
and_then_ext out_of_fuel f g h = refl

-- A move that ends in a phase, and what comes behind it.
and_then-pure :
    {A : Type 0} (r : Run World A) (q : A → World → Phase) (k : Phase → Cmd World ℤ)
    → and_then (and_then r (λ a w. ok (q a w) w)) k ≡ and_then r (λ a w. k (q a w) w)
and_then-pure (ok a w) q k = refl
and_then-pure fault q k = refl
and_then-pure out_of_fuel q k = refl

and_then_assoc :
    {A B C : Type 0} (r : Run World A) (f : A → Cmd World B) (g : B → Cmd World C)
    → and_then (and_then r f) g ≡ and_then r (λ a w. and_then (f a w) g)
and_then_assoc (ok a w) f g = refl
and_then_assoc fault f g = refl
and_then_assoc out_of_fuel f g = refl

module _ (net : Net) where
  moves_done : (k : ℕ) (n : ℤ) (w : World) → moves k net (done n) w ≡ ok n w
  unfolding moves move
  moves_done zero n w = refl
  moves_done (suc k) n w = moves_done k n w

  moves_return :
      (k : ℕ) (reply : Bytes) (server : ℤ) (host : Bytes) (port : ℤ) (w : World)
      → moves (suc k) net (returning reply server host port) w
        ≡ (do
          give_back net server host port
          pure (if ltb 0 (length reply) then pos 0 else minus_one))
            w
  unfolding moves move
  moves_return k reply server host port w =
      let n = if ltb 0 (length reply) then pos 0 else minus_one in
      and_then-pure (give_back net server host port w) (λ _ _. done n) (moves k net)
      ∙ and_then_ext (give_back net server host port w) (λ _. moves k net (done n)) (λ _. pure n)
          (λ _ v. moves_done k n v)

  moves_store :
      (k : ℕ) (path reply : Bytes) (server : ℤ) (host : Bytes) (port : ℤ) (w : World)
      → moves (suc (suc k)) net (storing path reply server host port) w
        ≡ (do
          pass_on net path reply
          give_back net server host port
          pure (if ltb 0 (length reply) then pos 0 else minus_one))
            w
  unfolding moves move
  moves_store k path reply server host port w =
      let next = returning reply server host port in
      and_then-pure (pass_on net path reply w) (λ _ _. next) (moves (suc k) net)
      ∙ and_then_ext (pass_on net path reply w) (λ _. moves (suc k) net next)
          (λ _. do
            give_back net server host port
            pure (if ltb 0 (length reply) then pos 0 else minus_one))
          (λ _ v. moves_return k reply server host port v)

  -- What is done with the answer of the server, and with what was sent, in phases and at once.
  module _ (path host : Bytes) (port server : ℤ) where
    abbrev reply_phase : Option Bytes → Cmd World Phase
    reply_phase none = do emit (closed server); pure (done minus_one)
    reply_phase (some bytes) = pure (storing path bytes server host port)

    abbrev reply_result : Option Bytes → Cmd World ℤ
    reply_result none = do emit (closed server); pure minus_one
    reply_result (some bytes) = do
      pass_on net path bytes
      give_back net server host port
      pure (if ltb 0 (length bytes) then pos 0 else minus_one)

    abbrev sent_phase : (sends : Bool) → Bytes → Cmd World Phase
    sent_phase sends text =
        if not sends
        then (do emit (closed server); pure (done minus_one))
        else (do emit (to_server server text); reply ← receive net; reply_phase reply)

    abbrev sent_result : (sends : Bool) → Bytes → Cmd World ℤ
    sent_result sends text =
        if not sends
        then (do emit (closed server); pure minus_one)
        else (do emit (to_server server text); reply ← receive net; reply_result reply)

    moves_reply :
        (k : ℕ) (reply : Option Bytes) (w : World)
        → and_then (reply_phase reply w) (moves (suc (suc k)) net) ≡ reply_result reply w
    moves_reply k none w = moves_done (suc (suc k)) minus_one _
    moves_reply k (some bytes) w = moves_store k path bytes server host port w

    moves_sent :
        (k : ℕ) (sends : Bool) (text : Bytes) (w : World)
        → and_then (sent_phase sends text w) (moves (suc (suc k)) net) ≡ sent_result sends text w
    moves_sent k false text w = moves_done (suc (suc k)) minus_one _
    moves_sent k true text w =
        let v : World = record w { trace = to_server server text ∷ w.trace } in
        and_then_assoc (receive net v) reply_phase (moves (suc (suc k)) net)
        ∙ and_then_ext (receive net v)
            (λ reply u. and_then (reply_phase reply u) (moves (suc (suc k)) net)) reply_result
            (λ reply u. moves_reply k reply u)

    -- `fetch` behind `connect`.
    abbrev rest : Option Bytes → Cmd World ℤ
    rest method = if negative server then pure minus_one else elim method [
      | none ↦ (λ _. fault)
      | some m ↦ (do
        text ← printed max_request_size (request_text m (actual_path path) host)
        sent_result net.sends text)
    ]

    moves-exchange :
        (k : ℕ) (method : Option Bytes) (w : World)
        → and_then (exchange net method path host port server w) (moves (suc (suc k)) net)
          ≡ rest method w
    unfolding exchange
    moves-exchange k method w = elim (Bool-cases (negative server)) [
      | inl e ↦ rw e (moves_done (suc (suc k)) minus_one w)
      | inr e ↦ elim (Option-cases method) [
        | inl f ↦ rw (e, f) refl
        | inr (m, f) ↦
            let text = printed max_request_size (request_text m (actual_path path) host) w in
            rw (e, f)
              (and_then_assoc text (sent_phase net.sends) (moves (suc (suc k)) net)
                ∙ and_then_ext text
                    (λ t v. and_then (sent_phase net.sends t v) (moves (suc (suc k)) net))
                    (sent_result net.sends) (λ t v. moves_sent k net.sends t v))
      ]
    ]

  moves_ask :
      (k : ℕ) (method : Option Bytes) (path host : Bytes) (port : ℤ) (w : World)
      → moves (suc (suc (suc k))) net (asking method path host port) w
        ≡ fetch net method path host port w
  unfolding moves move fetch
  moves_ask k method path host port w =
      let c = connect net host port w in
      and_then_assoc c (λ server. exchange net method path host port server)
        (moves (suc (suc k)) net)
      ∙ and_then_ext c
          (λ server v.
            and_then (exchange net method path host port server v) (moves (suc (suc k)) net))
          (λ server. rest path host port server method)
          (λ server v. moves-exchange path host port server k method v)

  moves_send :
      (k : ℕ) (node : Ptr) (found : Bytes) (age : ℕ) (w : World)
      → moves (suc k) net (sending node found age) w ≡ (do send_cached node; pure (pos 0)) w
  unfolding moves move
  moves_send k node found age w =
      and_then-pure (send_cached node w) (λ _ _. done (pos 0)) (moves k net)
      ∙ and_then_ext (send_cached node w) (λ _. moves k net (done (pos 0))) (λ _. pure (pos 0))
          (λ _ v. moves_done k (pos 0) v)

  -- A worker that is alone: its four moves, from the look-up on, and any further ones are together
  -- `forward_request_to_server`, with the same result, the same cache and pool and the same trace, and
  -- a fault where that faults. This is for a client socket that is positive and a request with a
  -- path and a Host header whose host name is shorter than 256 bytes; without a Host header the
  -- function makes no use of the cache or the pool.
  pub moves-forward_request_to_server :
      (k : ℕ) (request : ParsedRequest) (client_socket : ℤ) {header path : Bytes} (w : World)
      → positive client_socket ≡ true
      → request.host ≡ some header
      → leb 256 (length (extract_host_port header).0) ≡ false
      → request.path ≡ some path
      → moves
          (suc (suc (suc (suc k))))
          net
          (looking_up request.method path (extract_host_port header).0 (extract_host_port header).1)
          w
        ≡ forward_request_to_server net request client_socket w
  unfolding moves move forward_request_to_server
  moves-forward_request_to_server k request client_socket {header} {path} w c h short p =
      let host = (extract_host_port header).0 in
      let port = (extract_host_port header).1 in
      let method = request.method in
      let found = on_cache (cache_get (cache_key path) net.looked_up) w in
      let next : Ptr → World → Phase = λ node v.
        if node == null then asking method path host port else sending node (held v.cache node) 0 in
      rw (c, h, short, p)
        (and_then-pure found next (moves (suc (suc (suc k))) net)
          ∙ and_then_ext found (λ node v. moves (suc (suc (suc k))) net (next node v) v)
              (λ node.
                if node == null
                then fetch net method path host port
                else (do send_cached node; pure (pos 0)))
              (λ node v. elim (Bool-cases (node == null)) [
                | inl e ↦ rw e (moves_ask k method path host port v)
                | inr e ↦ rw e (moves_send (suc (suc k)) node (held v.cache node) 0 v)
              ]))
