-- ===== src/HttpParser/Owned.antt =====
-- Who owns the blocks in use: each block of the heap behind the parser is named once.
use proxy_server_in_c.Common.{
  ◌≡◌, ◌≢◌, sym, ◌∙◌, true, false, ◌||◌, List, [], ◌∷◌, ◌++◌, ◌==◌, if◌then◌else◌, arith, inl, inr,
  Bool-cases,
}
use proxy_server_in_c.Cache.{Ptr, null}
use proxy_server_in_c.Cache.Order.{
  has, Distinct, remove, has-remove_ne, has-remove_self, Distinct-remove,
}
use proxy_server_in_c.HttpParser.Memory.{Heap, Site, Malloc}

-- The addresses that are not null.
abbrev pub named : List Ptr → List Ptr
named [] = []
named (p ∷ l) = if p == null then named l else p ∷ named l

-- The blocks in use are those that `owned` names, and it names none twice.
pub record IsOwned (s : Heap) (owned : List Ptr) : Type 0 where
  pub distinct : Distinct s.live
  pub no_null : has null s.live ≡ false
  pub apart : Distinct (named owned)
  pub same : (x : Ptr) → has x s.live ≡ has x (named owned)

-- `malloc` and `calloc` give no address in use.
abbrev pub IsFresh : Malloc → Type 0
IsFresh malloc = (site : Site) (l : List Ptr) → has (malloc site l) l ≡ false

has-named_fill :
    (x p : Ptr) (pre post : List Ptr)
    → p ≢ null
    → has x (named (pre ++ p ∷ post)) ≡ ((p == x) || has x (named (pre ++ null ∷ post)))
has-named_fill x p [] post nz = ground arith
has-named_fill x p (a ∷ pre) post nz = ground (arith, has-named_fill x p pre post nz)

Distinct-fill :
    (p : Ptr) (pre post : List Ptr)
    → Distinct (named (pre ++ null ∷ post))
    → has p (named (pre ++ null ∷ post)) ≡ false
    → p ≢ null
    → Distinct (named (pre ++ p ∷ post))
Distinct-fill p [] post d new nz = let nz' : (p == null) ≡ false = ground arith in rw nz' (new, d)
Distinct-fill p (a ∷ pre) post d new nz = elim (Bool-cases (a == null)) [
  | inl z ↦ rw z (Distinct-fill p pre post (rw z at d) (rw z at new) nz)
  | inr z ↦
      let d' : Distinct (a ∷ named (pre ++ null ∷ post)) = rw z at d in
      let new' : has p (a ∷ named (pre ++ null ∷ post)) ≡ false = rw z at new in
      rw z (
        ground (arith, has-named_fill a p pre post nz, d'.0),
        Distinct-fill p pre post d'.1 (ground arith) nz,
      )
]

Distinct-clear :
    (p : Ptr) (pre post : List Ptr)
    → Distinct (named (pre ++ p ∷ post))
    → p ≢ null
    → Distinct (named (pre ++ null ∷ post)) × (has p (named (pre ++ null ∷ post)) ≡ false)
Distinct-clear p [] post d nz =
    let nz' : (p == null) ≡ false = ground arith in
    let d' : Distinct (p ∷ named post) = rw nz' at d in (d'.1, d'.0)
Distinct-clear p (a ∷ pre) post d nz = elim (Bool-cases (a == null)) [
  | inl z ↦ rw z (Distinct-clear p pre post (rw z at d) nz)
  | inr z ↦
      let d' : Distinct (a ∷ named (pre ++ p ∷ post)) = rw z at d in
      let (e, f) = Distinct-clear p pre post d'.1 nz in
      let g : has a (named (pre ++ null ∷ post)) ≡ false =
        ground (arith, has-named_fill a p pre post nz, d'.0) in
      let h : (a == p) ≡ false = ground (arith, has-named_fill a p pre post nz, d'.0) in
      rw z ((g, e), ground arith)
]

module _ {s : Heap} (pre post : List Ptr) where
  -- A new block takes a place that named none.
  pub IsOwned-add :
      (p : Ptr) {t : Heap}
      → IsOwned s (pre ++ null ∷ post)
      → has p s.live ≡ false
      → p ≢ null
      → t.live ≡ p ∷ s.live
      → IsOwned t (pre ++ p ∷ post)
  IsOwned-add p o new nz e = record {
    distinct = rw e (new, o.distinct);
    no_null = rw e (ground (arith, o.no_null));
    apart = Distinct-fill p pre post o.apart (sym (o.same p) ∙ new) nz;
    same = λ x. rw e (ground (arith, has-named_fill x p pre post nz, o.same x));
  }

  pub IsOwned-drop :
      (p : Ptr) {t : Heap}
      → IsOwned s (pre ++ p ∷ post)
      → p ≢ null
      → t.live ≡ remove p s.live
      → IsOwned t (pre ++ null ∷ post)
  IsOwned-drop p o nz e =
      let (d, gone) = Distinct-clear p pre post o.apart nz in
      record {
        distinct = rw e (Distinct-remove p s.live o.distinct);
        no_null = rw e (has-remove_ne null p s.live (λ z. nz (sym z)) ∙ o.no_null);
        apart = d;
        same = λ x. rw e (elim (Bool-cases (p == x)) [
          | inl q ↦
              let q' : p ≡ x = ground arith in
              rw (← q') (has-remove_self p s.live o.distinct ∙ sym gone)
          | inr q ↦
              let ne : x ≢ p = λ z. ground arith in
              has-remove_ne x p s.live ne
              ∙ o.same x
              ∙ ground (arith, has-named_fill x p pre post nz)
        ]);
      }

  pub mem-owned : (p : Ptr) → IsOwned s (pre ++ p ∷ post) → p ≢ null → has p s.live ≡ true
  mem-owned p o nz = ground (arith, o.same p, has-named_fill p p pre post nz)
