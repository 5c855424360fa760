-- ===== src/Server/Interleaved.antt =====
-- The workers in `forward_request_to_server` at once: what they keep together.
use proxy_server_in_c.Common.{ℕ, inl, inr, refl, ◌==◌, Bool-cases}
use proxy_server_in_c.Common.Run.{Returns, returns, Returns-ok, Returns-value}
use proxy_server_in_c.Cache.{Cache}
use proxy_server_in_c.Cache.Aging.{WellFormed}
use proxy_server_in_c.Cache.Safety.{Reachable-WellFormed}
use proxy_server_in_c.Cache.Safety
use proxy_server_in_c.ConnectionPool.{Pool}
use proxy_server_in_c.ConnectionPool.Invariant.{IsValid}
use proxy_server_in_c.ConnectionPool.Reachable.{
  Reachable-IsValid, connection_pool_return-IsValid, connection_pool_get-IsValid,
}
use proxy_server_in_c.ConnectionPool.Reachable
use proxy_server_in_c.Server.{World, Net}
use proxy_server_in_c.Server.Shared.{
  Phase, move, Workers, moved, IsInTime, Sends, Together, start, begin, go,
}
use proxy_server_in_c.Server.Moves.{InPhase, InPhase-older, Goes, move-Goes}

record IsShared (cache : Cache) (pool : Pool) (phase : ℕ → Phase) : Type 0 where
  wf : WellFormed cache
  valid : IsValid pool
  each : (i : ℕ) → InPhase cache wf.lru (phase i)

-- The others stand as they did, but for the age of the nodes that they hold.
module _ (s : Workers) (shared : IsShared s.world.cache s.world.pool s.phase) (i : ℕ) where
  go-IsShared :
      (p : Phase) (v : World)
      → Goes s.world shared.wf (s.phase i) p v
      → IsShared v.cache v.pool (moved s i p v).phase
  unfolding Goes
  go-IsShared p v (valid, inl (quiet, same, here), _) = rw same (record {
    wf = shared.wf;
    valid = valid;
    each = λ j. elim (Bool-cases (j == i)) [
      | inl e ↦ rw e here
      | inr e ↦ rw (e, quiet) (shared.each j)
    ];
  })
  go-IsShared p v (valid, inr (touching, new, aged, here), _) = record {
    wf = new;
    valid = valid;
    each = λ j. elim (Bool-cases (j == i)) [
      | inl e ↦ rw e here
      | inr e ↦ rw (e, touching) (InPhase-older aged (s.phase j) (shared.each j))
    ];
  }

Together-IsShared : {s : Workers} → Together s → IsShared s.world.cache s.world.pool s.phase
Together-IsShared (start a b c d e made connected) = record {
  wf = Reachable-WellFormed (Safety.create a b c made);
  valid = Reachable-IsValid (Reachable.create d e connected);
  each = λ i. tt;
}
Together-IsShared (begin {s} t i idle method path host port short_method short_host) =
    let shared = Together-IsShared t in
    record {
      wf = shared.wf;
      valid = shared.valid;
      each = λ j. elim (Bool-cases (j == i)) [
        | inl e ↦ rw e ((method, refl, short_method), short_host)
        | inr e ↦ rw e (shared.each j)
      ];
    }
Together-IsShared (go {s} t i net time e) =
    let shared = Together-IsShared t in
    go-IsShared s shared i _ _ (
      Returns-ok
        (rw e at (move-Goes net s.world shared.wf shared.valid (s.phase i) (shared.each i) time)))

-- However the calls of the workers on the cache and the pool follow each other, the worker that
-- goes on next runs into no fault and no endless loop, and what it leaves is in order again: the
-- cache well formed and the pool valid. A worker that was given a cached node sends the client exactly
-- the bytes that the node held then. It is enough that `malloc` gives no address in use and that a
-- worker that was given a cached node sends it before the others have made 1024 calls of `cache_get`
-- and `cache_add`.
pub Together_go :
    {s : Workers}
    → Together s
    → (i : ℕ) (net : Net) → IsInTime net (s.phase i) s.world
    → Returns
        (λ p w.
          Together (moved s i p w)
          × WellFormed w.cache
          × IsValid w.pool
          × Sends (s.phase i) s.world w)
        (move net (s.phase i) s.world)
unfolding Goes
Together_go {s} t i net time =
    let shared = Together-IsShared t in
    let (p, w, e, goes) =
      Returns-value
        (move-Goes net s.world shared.wf shared.valid (s.phase i) (shared.each i) time) in
    let after = go-IsShared s shared i p w goes in
    rw e (returns (go t i net time e, after.wf, after.valid, goes.2))
