-- ===== src/HttpParser/Blocks.antt =====
-- One block of the parser's heap: allocated and filled, stored in a field, freed.
use proxy_server_in_c.Common.{
  ℕ, ◌+◌, ◌≡◌, ◌≢◌, refl, true, false, List, ◌∷◌, ◌++◌, ◌==◌, leb, arith, inl, inr, Bool-cases,
  Bytes, length,
}
use proxy_server_in_c.Common.Run.{ok, Returns, returns, Cmd, ◌>>=◌, ◌>>◌}
use proxy_server_in_c.Cache.{Ptr, null, update}
use proxy_server_in_c.Cache.Order.{has}
use proxy_server_in_c.HttpParser.Memory.{
  Heap, Site, Malloc, Fields, allocate, copy_to, load_text, free, free_field, set_fields, store,
}
use proxy_server_in_c.HttpParser.Owned.{IsOwned, IsFresh, IsOwned-add, IsOwned-drop, mem-owned}

-- A new block `p` with this string.
pub record Added (s t : Heap) (p : Ptr) (bytes : Bytes) : Type 0 where
  pub not_null : p ≢ null
  pub new : has p s.live ≡ false
  pub text : t.text ≡ update s.text p bytes

module _ (malloc : Malloc) (fresh : IsFresh malloc) (site : Site) (s : Heap) where
  pub allocate_lem :
      (size : ℕ)
      → malloc site s.live ≢ null
      → allocate malloc site size s
        ≡ ok (malloc site s.live) (record s {
          live = malloc site s.live ∷ s.live;
          size = update s.size (malloc site s.live) size;
        })
  unfolding allocate
  allocate_lem size nz =
      let nz' : (malloc site s.live == null) ≡ false = ground arith in rw nz' refl

  -- A block for a string, and the string in it.
  pub allocate-copy :
      {A : Type 0} {P : A → Heap → Type 0} (pre post : List Ptr) (text : Bytes)
      (k : Ptr → Bytes → Cmd Heap A)
      → malloc site s.live ≢ null
      → IsOwned s (pre ++ null ∷ post)
      → ((p : Ptr) (t : Heap)
          → IsOwned t (pre ++ p ∷ post)
          → Added s t p text
          → t.fields ≡ s.fields
          → Returns P (k p text t))
      → Returns P (
          (do
            p ← allocate malloc site (length text + 1)
            copy_to p text
            bytes ← load_text p
            k p bytes)
            s)
  unfolding copy_to load_text
  allocate-copy pre post text k nz o rest =
      let p = malloc site s.live in
      let here : (p == p) ≡ true = ground arith in
      let fits : leb (length text + 1) (length text + 1) ≡ true = ground arith in
      rw (allocate_lem (length text + 1) nz, here, fits, here)
        (rest p _ (IsOwned-add pre post p o (fresh site s.live) nz refl)
          (record { not_null = nz; new = fresh site s.live; text = refl }) refl)

  pub store_lem :
      (pre post : List Ptr) (text : Bytes) (pr : Ptr) (set : Ptr → Fields → Fields)
      → malloc site s.live ≢ null
      → IsOwned s (pre ++ null ∷ post)
      → has pr s.live ≡ true
      → Returns
          (λ _ t.
            (p : Ptr) × IsOwned t (pre ++ p ∷ post)
            × Added s t p text
            × (t.fields pr ≡ set p (s.fields pr)))
          (store malloc site pr set text s)
  unfolding store set_fields copy_to
  store_lem pre post text pr set nz o there =
      let p = malloc site s.live in
      let here : (p == p) ≡ true = ground arith in
      let here' : (pr == pr) ≡ true = ground arith in
      let struct : has pr (p ∷ s.live) ≡ true = ground arith in
      let fits : leb (length text + 1) (length text + 1) ≡ true = ground arith in
      rw (allocate_lem (length text + 1) nz, struct, here, fits)
        (returns (
          p,
          IsOwned-add pre post p o (fresh site s.live) nz refl,
          record { not_null = nz; new = fresh site s.live; text = refl },
          rw here' refl,
        ))

module _ {s : Heap} (pre post : List Ptr) (p : Ptr) (o : IsOwned s (pre ++ p ∷ post)) where
  pub free_lem :
      p ≢ null
      → Returns
          (λ _ t. IsOwned t (pre ++ null ∷ post) × (t.text ≡ s.text) × (t.fields ≡ s.fields))
          (free p s)
  unfolding free
  free_lem nz =
      rw (mem-owned pre post p o nz) (returns (IsOwned-drop pre post p o nz refl, refl, refl))

  pub free_field_lem :
      Returns
        (λ _ t. IsOwned t (pre ++ null ∷ post) × (t.text ≡ s.text) × (t.fields ≡ s.fields))
        (free_field p s)
  unfolding free_field
  free_field_lem = elim (Bool-cases (p == null)) [
    | inl z ↦ let q : p ≡ null = ground arith in rw z (returns (rw q at o, refl, refl))
    | inr z ↦ rw z (free_lem (λ q. ground arith))
  ]
