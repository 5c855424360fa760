-- ===== src/Cache/Spec.antt =====
-- A cache as its callers see it: one list of entries, the most recently used one first, without
-- addresses, hash chains or links.
use proxy_server_in_c.Common.{
  ℕ, ◌-◌, Bool, not, ◌||◌, List, [], ◌∷◌, ltb, leb, ◌==◌, if◌then◌else◌, length, take, Option, none,
  some, Bytes, bytes_eq,
}
use proxy_server_in_c.Common.Int.{ℤ, pos, minus_one, positive, pos_part}
use proxy_server_in_c.Common.Run.{Cmd, pure, ◌>>=◌, ◌>>◌}
use proxy_server_in_c.Cache.{
  Cache, Ptr, null, cache_size, cache_expiry_time, Alloc, cache_add, cache_get,
}
use proxy_server_in_c.Cache.Expire.{cache_remove_expired}

-- What a node holds.
pub record Entry : Type 0 where
  pub url : Bytes
  pub payload : Bytes
  pub data_size : ℕ
  pub stamp : ℕ

-- The most recently used entry with this URL, if it is less than 300 seconds old.
unfoldable pub lookup : Bytes → (now : ℕ) → List Entry → Option Entry
lookup url now [] = none
lookup url now (e ∷ l) =
    let rest = lookup url now l in
    if bytes_eq e.url url
    then (if ltb (now - e.stamp) cache_expiry_time then some e else none)
    else rest

-- The list without the first entry that has this URL.
unfoldable pub without : Bytes → List Entry → List Entry
without url [] = []
without url (e ∷ l) = let rest = without url l in if bytes_eq e.url url then l else e ∷ rest

-- A hit is used: it goes to the front.
abbrev pub promote : Bytes → Option Entry → List Entry → List Entry
promote url none l = l
promote url (some e) l = e ∷ without url l

unfoldable pub drop_last : List Entry → List Entry
drop_last [] = []
drop_last (e ∷ []) = []
drop_last (e ∷ e' ∷ l) = e ∷ drop_last (e' ∷ l)

-- Room for one more entry: the last one goes from a full list.
abbrev pub vacate : List Entry → List Entry
vacate l = if leb cache_size (length l) then drop_last l else l

unfoldable pub drop_old : (now : ℕ) → List Entry → List Entry
drop_old now [] = []
drop_old now (e ∷ l) =
    let rest = drop_old now l in if leb cache_expiry_time (now - e.stamp) then rest else e ∷ rest

-- A request to the cache, with what the environment contributes to it.
pub data Request : Type 0 where
  get : (url : Bytes) (now : ℕ) → Request
  add : (alloc : Alloc) (url bytes : Bytes) (size : ℤ) (now : ℕ) → Request
  expire : (now : ℕ) → Request

-- What the caller can see of the answer.
pub data Answer : Type 0 where
  found : Option Entry → Answer
  added : ℤ → Answer
  swept : Answer

abbrev pub lacks_memory : Alloc → Bool
lacks_memory alloc = alloc.node == null || not alloc.url || not alloc.payload

-- The answer and the list after a request.
unfoldable pub spec_step : Request → List Entry → Answer × List Entry
spec_step (get url now) l = let hit = lookup url now l in (found hit, promote url hit l)
spec_step (add alloc url bytes size now) l =
    if not (positive size)
    then (added minus_one, l)
    else if lacks_memory alloc
    then (added minus_one, vacate l)
    else (
      added (pos 0),
      record {
        url = url;
        payload = take (pos_part size) bytes;
        data_size = pos_part size;
        stamp = now;
      }
          ∷ vacate l,
    )
spec_step (expire now) l = (swept, drop_old now l)

unfoldable pub spec_run : List Request → List Entry → List Answer
spec_run [] l = []
spec_run (q ∷ qs) l = let (a, l') = spec_step q l in a ∷ spec_run qs l'

-- The same requests to the cache in memory.
abbrev pub contents : Cache → Ptr → Entry
contents s p = record {
  url = s.url p;
  payload = s.payload p;
  data_size = s.data_size p;
  stamp = s.timestamp p;
}

abbrev pub answer_at : Cache → Ptr → Option Entry
answer_at s p = if p == null then none else some (contents s p)

-- The caller of `cache_get` reads the node that it is given.
unfoldable pub cache_step : Request → Cmd Cache Answer
cache_step (get url now) = do p ← cache_get url now; (λ s. pure (found (answer_at s p)) s)
cache_step (add alloc url bytes size now) = do
  n ← cache_add alloc url bytes size now
  pure (added n)
cache_step (expire now) = do cache_remove_expired now; pure swept

unfoldable pub cache_run : List Request → Cmd Cache (List Answer)
cache_run [] = pure []
cache_run (q ∷ qs) = do a ← cache_step q; rest ← cache_run qs; pure (a ∷ rest)
