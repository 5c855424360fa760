-- ===== src/HttpParser/Holds.antt =====
-- A parsed request in memory, and the strings stored in its fields one after the other.
use proxy_server_in_c.Common.{
  ◌≡◌, ◌≢◌, refl, ◌∙◌, true, false, List, [], ◌∷◌, ◌++◌, Option, none, some, ◌==◌, if◌then◌else◌,
  arith, inl, inr, Bool-cases, Bytes, ap,
}
use proxy_server_in_c.Common.Run.{Returns, returns, Returns-weaken}
use proxy_server_in_c.Cache.{Ptr, null}
use proxy_server_in_c.Cache.Order.{has}
use proxy_server_in_c.HttpParser.{ParsedRequest, or_keep}
use proxy_server_in_c.HttpParser.Memory.{Heap, Site, Malloc, Fields, store, store_found}
use proxy_server_in_c.HttpParser.Owned.{IsOwned, IsFresh, mem-owned}
use proxy_server_in_c.HttpParser.Blocks.{Added, store_lem}

abbrev pub text_of : Heap → Ptr → Option Bytes
text_of s p = if p == null then none else some (s.text p)

-- What the struct says, when its strings are read.
abbrev pub view : Heap → Fields → ParsedRequest
view s r = record {
  method = text_of s r.method;
  protocol = text_of s r.protocol;
  host = text_of s r.host;
  port = text_of s r.port;
  path = text_of s r.path;
  version = text_of s r.version;
  buf = text_of s r.buf;
  buflen = r.buflen;
}

-- The blocks of a request, after a block `tmp` that is in use for a while, and before the others.
abbrev pub owned : (pr : Ptr) → (others : List Ptr) → (tmp : Ptr) → Fields → List Ptr
owned pr others tmp r =
    tmp ∷ r.buf ∷ r.method ∷ r.protocol ∷ r.host ∷ r.port ∷ r.path ∷ r.version ∷ pr ∷ others

-- The struct at `pr` owns its blocks and says `q`.
pub record Holds (pr : Ptr) (others : List Ptr) (tmp : Ptr) (r : Fields) (q : ParsedRequest)
    (s : Heap) : Type 0 where
  pub blocks : IsOwned s (owned pr others tmp r)
  pub struct : s.fields pr ≡ r
  pub says : view s r ≡ q
  pub not_null : pr ≢ null

-- One field of the struct, and its place among the blocks.
pub record Slot : Type 0 where
  pub get : Fields → Ptr
  pub set : Ptr → Fields → Fields
  pub got : ParsedRequest → Option Bytes
  pub put : Option Bytes → ParsedRequest → ParsedRequest
  pub before : Fields → List Ptr
  pub after : Ptr → List Ptr → Fields → List Ptr
  pub get_place :
      (pr : Ptr) (others : List Ptr) (tmp : Ptr) (r : Fields)
      → owned pr others tmp r ≡ (tmp ∷ before r) ++ get r ∷ after pr others r
  pub set_place :
      (pr : Ptr) (others : List Ptr) (tmp p : Ptr) (r : Fields)
      → owned pr others tmp (set p r) ≡ (tmp ∷ before r) ++ p ∷ after pr others r
  pub set-get : (r : Fields) → set (get r) r ≡ r
  pub put-got : (q : ParsedRequest) → put (got q) q ≡ q
  pub view-set : (s : Heap) (p : Ptr) (r : Fields) → view s (set p r) ≡ put (text_of s p) (view s r)

abbrev pub method_slot : Slot
method_slot = record {
  get = λ r. r.method;
  set = λ p r. record r { method = p };
  got = λ q. q.method;
  put = λ o q. record q { method = o };
  before = λ r. r.buf ∷ [];
  after = λ pr others r. r.protocol ∷ r.host ∷ r.port ∷ r.path ∷ r.version ∷ pr ∷ others;
  get_place = λ pr others tmp r. refl;
  set_place = λ pr others tmp p r. refl;
  set-get = λ r. refl;
  put-got = λ q. refl;
  view-set = λ s p r. refl;
}

abbrev pub path_slot : Slot
path_slot = record {
  get = λ r. r.path;
  set = λ p r. record r { path = p };
  got = λ q. q.path;
  put = λ o q. record q { path = o };
  before = λ r. r.buf ∷ r.method ∷ r.protocol ∷ r.host ∷ r.port ∷ [];
  after = λ pr others r. r.version ∷ pr ∷ others;
  get_place = λ pr others tmp r. refl;
  set_place = λ pr others tmp p r. refl;
  set-get = λ r. refl;
  put-got = λ q. refl;
  view-set = λ s p r. refl;
}

abbrev pub version_slot : Slot
version_slot = record {
  get = λ r. r.version;
  set = λ p r. record r { version = p };
  got = λ q. q.version;
  put = λ o q. record q { version = o };
  before = λ r. r.buf ∷ r.method ∷ r.protocol ∷ r.host ∷ r.port ∷ r.path ∷ [];
  after = λ pr others r. pr ∷ others;
  get_place = λ pr others tmp r. refl;
  set_place = λ pr others tmp p r. refl;
  set-get = λ r. refl;
  put-got = λ q. refl;
  view-set = λ s p r. refl;
}

abbrev pub host_slot : Slot
host_slot = record {
  get = λ r. r.host;
  set = λ p r. record r { host = p };
  got = λ q. q.host;
  put = λ o q. record q { host = o };
  before = λ r. r.buf ∷ r.method ∷ r.protocol ∷ [];
  after = λ pr others r. r.port ∷ r.path ∷ r.version ∷ pr ∷ others;
  get_place = λ pr others tmp r. refl;
  set_place = λ pr others tmp p r. refl;
  set-get = λ r. refl;
  put-got = λ q. refl;
  view-set = λ s p r. refl;
}

abbrev pub port_slot : Slot
port_slot = record {
  get = λ r. r.port;
  set = λ p r. record r { port = p };
  got = λ q. q.port;
  put = λ o q. record q { port = o };
  before = λ r. r.buf ∷ r.method ∷ r.protocol ∷ r.host ∷ [];
  after = λ pr others r. r.path ∷ r.version ∷ pr ∷ others;
  get_place = λ pr others tmp r. refl;
  set_place = λ pr others tmp p r. refl;
  set-get = λ r. refl;
  put-got = λ q. refl;
  view-set = λ s p r. refl;
}

text_of-Added :
    {s t : Heap} {p : Ptr} {bytes : Bytes} (x : Ptr) (pre post : List Ptr)
    → IsOwned s (pre ++ x ∷ post)
    → Added s t p bytes
    → text_of t x ≡ text_of s x
text_of-Added {s} {t} {p} {bytes} x pre post o a = elim (Bool-cases (x == null)) [
  | inl z ↦ rw z refl
  | inr z ↦
      let there = mem-owned pre post x o (λ q. ground arith) in
      let ne : (x == p) ≡ false = ground (arith, a.new) in rw (z, a.text, ne) refl
]

-- A new block leaves what the struct says.
pub view-Added :
    {s t : Heap} {pr p tmp : Ptr} {others : List Ptr} {bytes : Bytes} (r : Fields)
    → IsOwned s (owned pr others tmp r)
    → Added s t p bytes
    → view t r ≡ view s r
view-Added {tmp = tmp} r o a =
    rw
      (
        text_of-Added r.buf (tmp ∷ []) _ o a,
        text_of-Added r.method (tmp ∷ r.buf ∷ []) _ o a,
        text_of-Added r.protocol (tmp ∷ r.buf ∷ r.method ∷ []) _ o a,
        text_of-Added r.host (tmp ∷ r.buf ∷ r.method ∷ r.protocol ∷ []) _ o a,
        text_of-Added r.port (tmp ∷ r.buf ∷ r.method ∷ r.protocol ∷ r.host ∷ []) _ o a,
        text_of-Added r.path (tmp ∷ r.buf ∷ r.method ∷ r.protocol ∷ r.host ∷ r.port ∷ []) _ o a,
        text_of-Added r.version
            (tmp ∷ r.buf ∷ r.method ∷ r.protocol ∷ r.host ∷ r.port ∷ r.path ∷ []) _ o a,
      )
      refl

text_of_self : {s t : Heap} {p : Ptr} {bytes : Bytes} → Added s t p bytes → text_of t p ≡ some bytes
text_of_self {p = p} a =
    let nz : (p == null) ≡ false = ground (arith, a.not_null) in
    let here : (p == p) ≡ true = ground arith in rw (nz, a.text, here) refl

pub struct_mem :
    {pr tmp : Ptr} {others : List Ptr} {r : Fields} {q : ParsedRequest} {s : Heap}
    → Holds pr others tmp r q s
    → has pr s.live ≡ true
struct_mem {pr} {tmp} {others} {r} h =
    mem-owned (tmp ∷ r.buf ∷ r.method ∷ r.protocol ∷ r.host ∷ r.port ∷ r.path ∷ r.version ∷ [])
      others pr h.blocks h.not_null

module _ (malloc : Malloc) (fresh : IsFresh malloc) {pr tmp : Ptr} {others : List Ptr} {r : Fields}
    {q : ParsedRequest} {s : Heap} (h : Holds pr others tmp r q s) (k : Slot) (site : Site)
    (nz : malloc site s.live ≢ null) (empty : k.get r ≡ null) where
  pub store-Holds :
      (text : Bytes)
      → Returns
          (λ _ t. (p : Ptr) × Holds pr others tmp (k.set p r) (k.put (some text) q) t)
          (store malloc site pr k.set text s)
  store-Holds text =
      let place : owned pr others tmp r ≡ (tmp ∷ k.before r) ++ null ∷ k.after pr others r =
        k.get_place pr others tmp r
        ∙ ap (λ p. (tmp ∷ k.before r) ++ p ∷ k.after pr others r) empty in
      Returns-weaken
        (store_lem malloc fresh site s (tmp ∷ k.before r) (k.after pr others r) text pr k.set nz
          (rw place at h.blocks) (struct_mem h))
        (λ _ t (p, o, a, f). (
          p,
          record {
            blocks = rw (k.set_place pr others tmp p r) o;
            struct = f ∙ ap (k.set p) h.struct;
            says =
                k.view-set t p r
                ∙ rw (text_of_self a, view-Added r h.blocks a) (ap (k.put (some text)) h.says);
            not_null = h.not_null;
          },
        ))

  pub store_found-Holds :
      (found : Option Bytes)
      → Returns
          (λ _ t. (p : Ptr) × Holds pr others tmp (k.set p r) (k.put (or_keep found (k.got q)) q) t)
          (store_found malloc site pr k.set found s)
  unfolding store_found
  store_found-Holds none = returns (k.get r, rw (k.set-get r, k.put-got q) h)
  store_found-Holds (some text) = store-Holds text
