-- ===== src/Cache/Recency.antt =====
-- The list of entries that a list of addresses stands for, and the order of the nodes with one URL.
use proxy_server_in_c.Common.{
  ◌∙◌, sym, ℕ, ◌≡◌, ◌≢◌, refl, Bool, true, false, List, [], ◌∷◌, ◌==◌, arith, length, inl, inr,
  Bool-cases, Bytes, bytes_eq, bytes_eq_iff,
}
use proxy_server_in_c.Cache.{Cache, Ptr, null}
use proxy_server_in_c.Cache.Order.{has, Distinct, last, remove}
use proxy_server_in_c.Cache.Get.{first_with, found}
use proxy_server_in_c.Cache.Keep.{keep, keep-remove, last-has}
use proxy_server_in_c.Cache.Sweep.{is_young}
use proxy_server_in_c.Cache.Spec.{Entry, lookup, without, drop_last, drop_old, contents, answer_at}

-- The entries at these addresses.
unfoldable pub entries : (Ptr → Entry) → List Ptr → List Entry
entries f [] = []
entries f (p ∷ l) = f p ∷ entries f l

abbrev pub has_url : (Ptr → Bytes) → Bytes → Ptr → Bool
has_url key url p = bytes_eq (key p) url

pub entries_ext :
    (f g : Ptr → Entry) (l : List Ptr)
    → ((x : Ptr) → has x l ≡ true → f x ≡ g x)
    → entries f l ≡ entries g l
unfolding entries
entries_ext f g [] h = refl
entries_ext f g (a ∷ l) h =
    rw (h a (ground arith), entries_ext f g l (λ x m. h x (ground arith))) refl

pub length-entries : (f : Ptr → Entry) (l : List Ptr) → length (entries f l) ≡ length l
unfolding entries
length-entries f [] = refl
length-entries f (a ∷ l) = ground (arith, length-entries f l)

pub keep_ext :
    (f g : Ptr → Bool) (l : List Ptr)
    → ((x : Ptr) → has x l ≡ true → f x ≡ g x)
    → keep f l ≡ keep g l
unfolding keep
keep_ext f g [] h = refl
keep_ext f g (a ∷ l) h = rw (h a (ground arith), keep_ext f g l (λ x m. h x (ground arith))) refl

pub keep_comm : (f g : Ptr → Bool) (l : List Ptr) → keep f (keep g l) ≡ keep g (keep f l)
unfolding keep
keep_comm f g [] = refl
keep_comm f g (a ∷ l) = ground (arith, keep_comm f g l)

keep_absent :
    (f : Ptr → Bool) (p : Ptr) (l : List Ptr) → f p ≡ false → remove p (keep f l) ≡ keep f l
unfolding keep remove
keep_absent f p [] h = refl
keep_absent f p (a ∷ l) h = ground (arith, keep_absent f p l)

pub keep-remove_comm :
    (f : Ptr → Bool) (p : Ptr) (l : List Ptr) → keep f (remove p l) ≡ remove p (keep f l)
unfolding keep remove
keep-remove_comm f p [] = refl
keep-remove_comm f p (a ∷ l) = ground (arith, keep-remove_comm f p l, keep_absent f p l)

-- The nodes with a URL, from the first one on.
keep-first :
    (key : Ptr → Bytes) (url : Bytes) (p : Ptr) (l : List Ptr)
    → first_with key url l ≡ p
    → p ≢ null
    → (has_url key url p ≡ true)
      × (keep (has_url key url) l ≡ p ∷ keep (has_url key url) (remove p l))
unfolding keep remove
keep-first key url p [] h nz = absurd (nz (sym h))
keep-first key url p (a ∷ l) h nz = elim (Bool-cases (bytes_eq (key a) url)) [
  | inl e ↦ let q : a ≡ p = ground arith in (rw (← q) e, ground arith)
  | inr e ↦
      let (it, ih) = keep-first key url p l (ground arith) nz in
      let ne : (a == p) ≡ false = ground arith in (it, rw (ne, keep, e) ih)
]

-- The first node with a URL goes to the front: no two nodes with one URL change their order.
-- For every other URL they stand as they did, too.
pub keep-front :
    (key : Ptr → Bytes) (url other : Bytes) (p : Ptr) (l : List Ptr)
    → first_with key url l ≡ p
    → p ≢ null
    → keep (has_url key other) (p ∷ remove p l) ≡ keep (has_url key other) l
unfolding keep
keep-front key url other p l h nz = elim (Bool-cases (has_url key other p)) [
  | inl e ↦
      let (it, first) = keep-first key url p l h nz in
      let q : url ≡ other =
        sym ((bytes_eq_iff (key p) url).0 it) ∙ (bytes_eq_iff (key p) other).0 e in
      rw e (rw q at (sym first))
  | inr e ↦ rw e (keep-remove (has_url key other) p l e)
]

pub first_with-keep :
    (key : Ptr → Bytes) (url : Bytes) (l : List Ptr)
    → first_with key url (keep (has_url key url) l) ≡ first_with key url l
unfolding keep
first_with-keep key url [] = refl
first_with-keep key url (a ∷ l) = ground (arith, first_with-keep key url l)

module _ (s : Cache) where
  pub lookup-entries :
      (url : Bytes) (now : ℕ) (l : List Ptr)
      → has null l ≡ false
      → lookup url now (entries (contents s) l) ≡ answer_at s (found s url now l)
  unfolding lookup entries
  lookup-entries url now [] h = refl
  lookup-entries url now (a ∷ l) h = ground (arith, lookup-entries url now l)

  pub without-entries :
      (url : Bytes) (p : Ptr) (l : List Ptr)
      → first_with s.url url l ≡ p
      → p ≢ null
      → without url (entries (contents s) l) ≡ entries (contents s) (remove p l)
  unfolding without entries remove
  without-entries url p [] h nz = absurd (nz (sym h))
  without-entries url p (a ∷ l) h nz = elim (Bool-cases (bytes_eq (s.url a) url)) [
    | inl e ↦ ground arith
    | inr e ↦
        let ih = without-entries url p l (ground arith) nz in
        let (it, _) = keep-first s.url url p l (ground arith) nz in
        let ne : (a == p) ≡ false = ground arith in rw (e, ne, ih) refl
  ]

  pub drop_last-entries :
      (l : List Ptr)
      → Distinct l
      → drop_last (entries (contents s) l) ≡ entries (contents s) (remove (last 0 l) l)
  unfolding drop_last entries remove
  drop_last-entries [] d = refl
  drop_last-entries (a ∷ []) d = ground arith
  drop_last-entries (a ∷ b ∷ l) d =
      let ne : (a == last b l) ≡ false = ground (arith, d.0, last-has b l) in
      rw (drop_last-entries (b ∷ l) d.1, ne) refl

  pub drop_old-entries :
      (now : ℕ) (l : List Ptr)
      → drop_old now (entries (contents s) l) ≡ entries (contents s) (keep (is_young s now) l)
  unfolding drop_old entries keep
  drop_old-entries now [] = refl
  drop_old-entries now (a ∷ l) = ground (arith, drop_old-entries now l)
