-- ===== src/Server/Receive.antt =====
-- The receive loop of `forward_request_to_server`.
use proxy_server_in_c.Common.{
  ℕ, zero, suc, ◌+◌, ◌-◌, ◌≤◌, ◌<◌, ◌≡◌, ◌≢◌, refl, true, false, not, ◌||◌, ◌&&◌, ◌∙◌, ap, sym,
  ◌++◌, ◌⊎◌, inl, inr, Option, none, some, ltb, if◌then◌else◌, Bytes, [], ◌∷◌, length, take, arith,
  Bool-cases, Option-cases, length-append, length-take-le,
}
use proxy_server_in_c.Common.CString.{strstr, c_str}
use proxy_server_in_c.Server.{max_response_size, is_complete, extended, receive_loop}

-- `P` holds of every number below `k`.
abbrev pub AllBelow : (ℕ → Type 0) → ℕ → Type 0
AllBelow P zero = Unit {0}
AllBelow P (suc k) = P k × AllBelow P k

-- All bytes that the first `k` calls of `recv` gave, one piece after the other.
unfoldable pub sent_by : (ℕ → Option (ℕ × Bytes)) → ℕ → Bytes
sent_by recv zero = []
sent_by recv (suc k) = elim (recv k) [
  | none ↦ sent_by recv k
  | some chunk ↦ sent_by recv k ++ chunk.0 ∷ chunk.1
]

-- As many of them, from the first on, as the buffer has room for.
unfoldable pub received_by : (ℕ → Option (ℕ × Bytes)) → ℕ → Bytes
received_by recv k = take (max_response_size - 1) (sent_by recv k)

-- The loop goes on: what is there has no end of the headers, and `recv` gives more.
abbrev pub Waiting : (ℕ → Option (ℕ × Bytes)) → ℕ → Type 0
Waiting recv j = (is_complete (received_by recv j) ≡ false) × (recv j ≢ none)

abbrev pub reply_of : Bytes → Option Bytes
reply_of received = if ltb 0 (length received) then some received else none

-- The loop stops after `k` calls that gave something, and for one of three reasons.
pub record Stops (recv : ℕ → Option (ℕ × Bytes)) (k : ℕ) : Type 0 where
  pub waiting : AllBelow (Waiting recv) k
  pub bounded : length (received_by recv k) < max_response_size
  pub reason :
      (recv k ≡ none)
      ⊎ (is_complete (received_by recv k) ≡ true)
      ⊎ (length (received_by recv k) ≡ max_response_size - 1)

-- What has filled a buffer of `n` bytes in two pieces are the first `n` bytes of both.
take-split :
    (n : ℕ) (l more : Bytes) → take n l ++ take (n - length (take n l)) more ≡ take n (l ++ more)
take-split zero l more = refl
take-split (suc n) [] more = let all : suc n - 0 ≡ suc n = omega arith in rw all refl
take-split (suc n) (c ∷ l) more =
    let left : suc n - suc (length (take n l)) ≡ n - length (take n l) = omega arith in
    rw left (ap (◌∷◌ c) (take-split n l more))

filled :
    (l more : Bytes)
    → take (max_response_size - 1) (l ++ more)
      ≡ take (max_response_size - 1) l
        ++ take (max_response_size - length (take (max_response_size - 1) l) - 1) more
filled l more =
    let left : (n : ℕ) → max_response_size - n - 1 ≡ max_response_size - 1 - n = λ n. omega arith in
    rw (left (length (take (max_response_size - 1) l)))
      (sym (take-split (max_response_size - 1) l more))

received_by-suc :
    (recv : ℕ → Option (ℕ × Bytes)) (k : ℕ) {chunk : ℕ × Bytes}
    → recv k ≡ some chunk
    → received_by recv (suc k) ≡ extended (received_by recv k) chunk
unfolding received_by sent_by extended
received_by-suc recv k {chunk} e = rw (sent_by, e) (filled (sent_by recv k) (chunk.0 ∷ chunk.1))

length-take_cons : (n c : ℕ) (more : Bytes) → 0 < n → 0 < length (take n (c ∷ more))
length-take_cons zero c more h = absurd (omega arith)
length-take_cons (suc n) c more h = omega arith

length-extended :
    (received : Bytes) (chunk : ℕ × Bytes)
    → length received < max_response_size - 1
    → (length received < length (extended received chunk))
      × (length (extended received chunk) < max_response_size)
unfolding extended
length-extended received (c, more) h = (
  omega (
    arith,
    length-append received (take (max_response_size - length received - 1) (c ∷ more)),
    length-take_cons (max_response_size - length received - 1) c more (omega arith),
  ),
  omega (
    arith,
    length-append received (take (max_response_size - length received - 1) (c ∷ more)),
    length-take-le (max_response_size - length received - 1) (c ∷ more),
  ),
)

is_complete-length : (received : Bytes) → is_complete received ≡ true → 0 < length received
unfolding is_complete
is_complete-length [] h = absurd (ground arith)
is_complete-length (c ∷ s) h = omega arith

-- A piece with which no end of the headers has come makes the loop go on.
receive_loop-waiting :
    (fuel : ℕ) (recv : ℕ → Option (ℕ × Bytes)) (i : ℕ) {chunk : ℕ × Bytes}
    → ltb (length (received_by recv i)) (max_response_size - 1) ≡ true
    → recv i ≡ some chunk
    → is_complete (extended (received_by recv i) chunk) ≡ false
    → receive_loop (suc fuel) recv i (received_by recv i) false
      ≡ receive_loop fuel recv (suc i) (received_by recv (suc i)) false
unfolding receive_loop
receive_loop-waiting fuel recv i {chunk} e n d =
    let now = extended (received_by recv i) chunk in
    let found : (false || not false && is_complete now) ≡ false = ground (arith, d) in
    let on : (not false && is_complete now && ltb (length now) 2048
          || (false || not false && is_complete now) && ltb 1024 (length now))
        ≡ false =
      ground (arith, d) in
    rw (receive_loop, received_by-suc recv i n, e, n, on, found) refl

receive_loop-Stops :
    (fuel : ℕ) (recv : ℕ → Option (ℕ × Bytes)) (i : ℕ)
    → AllBelow (Waiting recv) i
    → length (received_by recv i) < max_response_size
    → max_response_size ≤ length (received_by recv i) + fuel
    → (is_complete (received_by recv i) ≡ false)
    → (k : ℕ) × (receive_loop fuel recv i (received_by recv i) false
        ≡ some (reply_of (received_by recv k)))
      × Stops recv k
unfolding receive_loop
receive_loop-Stops zero recv i w b enough c = absurd (omega arith)
receive_loop-Stops (suc fuel) recv i w b enough c =
    elim (Bool-cases (ltb (length (received_by recv i)) (max_response_size - 1))) [
      | inr e ↦
          let some_bytes : ltb 0 (length (received_by recv i)) ≡ true = ground arith in
          (
            i,
            rw (receive_loop, e, some_bytes) refl,
            record { waiting = w; bounded = b; reason = inr (inr (ground arith)) },
          )
      | inl e ↦ elim (Option-cases (recv i)) [
        | inl n ↦
            (i, rw (receive_loop, e, n) refl, record { waiting = w; bounded = b; reason = inl n })
        | inr (chunk, n) ↦
            let s = received_by-suc recv i n in
            let longer = length-extended (received_by recv i) chunk (ground arith) in
            let w' : AllBelow (Waiting recv) (suc i) = ((c, λ q. ground arith), w) in
            elim (Bool-cases (is_complete (extended (received_by recv i) chunk))) [
              | inl d ↦
                  let now = extended (received_by recv i) chunk in
                  let stop : (ltb (length now) 2048 || ltb 1024 (length now)) ≡ true =
                    ground arith in
                  let full : ltb 0 (length now) ≡ true = ground arith in
                  (
                    suc i,
                    rw (receive_loop, e, n, d, stop, s, full) refl,
                    record { waiting = w'; bounded = rw s longer.1; reason = inr (inl (rw s d)) },
                  )
              | inr d ↦
                  let (k, q, stops) =
                    receive_loop-Stops fuel recv (suc i) w' (rw s longer.1)
                      (rw s (omega (arith, longer))) (rw s d) in
                  (k, receive_loop-waiting fuel recv i e n d ∙ q, stops)
            ]
      ]
    ]

pub receive_loop_lem :
    (recv : ℕ → Option (ℕ × Bytes))
    → (k : ℕ) × (receive_loop max_response_size recv 0 [] false
        ≡ some (reply_of (received_by recv k)))
      × Stops recv k
unfolding received_by sent_by is_complete strstr c_str
receive_loop_lem recv =
    receive_loop-Stops max_response_size recv 0 tt (omega arith) (omega arith) refl
