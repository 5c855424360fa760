-- ===== src/Cache/Order.antt =====
-- Neighbours in a list of distinct addresses: what the links of a list hold before and after one
-- node is taken out of it.
use proxy_server_in_c.Common.{
  ℕ, ◌+◌, ◌≡◌, ◌≢◌, refl, Bool, true, false, ◌||◌, List, [], ◌∷◌, ◌==◌, if◌then◌else◌, arith,
  length, ◌⊎◌, inl, inr, Bool-cases, sym,
}

abbrev pub has : ℕ → List ℕ → Bool
has x [] = false
has x (a ∷ l) = (a == x) || has x l

abbrev pub Distinct : List ℕ → Type 0
Distinct [] = Unit {0}
Distinct (a ∷ l) = (has a l ≡ false) × Distinct l

-- The first address, the last one, and the neighbours of `x`; 0 is the null pointer.
abbrev pub first : List ℕ → ℕ
first [] = 0
first (a ∷ l) = a

abbrev pub last : ℕ → List ℕ → ℕ
last d [] = d
last d (a ∷ l) = last a l

abbrev pub after : List ℕ → ℕ → ℕ
after [] x = 0
after (a ∷ l) x = if a == x then first l else after l x

abbrev pub before : ℕ → List ℕ → ℕ → ℕ
before d [] x = 0
before d (a ∷ l) x = if a == x then d else before a l x

unfoldable pub remove : ℕ → List ℕ → List ℕ
remove x [] = []
remove x (a ∷ l) = if a == x then l else a ∷ remove x l

pub has-remove_ne : (x p : ℕ) (l : List ℕ) → x ≢ p → has x (remove p l) ≡ has x l
unfolding remove
has-remove_ne x p [] ne = refl
has-remove_ne x p (a ∷ l) ne = ground (arith, has-remove_ne x p l ne)

pub has-remove_self : (p : ℕ) (l : List ℕ) → Distinct l → has p (remove p l) ≡ false
unfolding remove
has-remove_self p [] d = refl
has-remove_self p (a ∷ l) d = ground (arith, has-remove_self p l d.1)

pub remove_absent : (p : ℕ) (l : List ℕ) → has p l ≡ false → remove p l ≡ l
unfolding remove
remove_absent p [] h = refl
remove_absent p (a ∷ l) h = ground (arith, remove_absent p l)

pub length-remove : (p : ℕ) (l : List ℕ) → has p l ≡ true → length (remove p l) + 1 ≡ length l
unfolding remove
length-remove p [] h = ground arith
length-remove p (a ∷ l) h = ground (arith, length-remove p l)

has-remove_le : (x p : ℕ) (l : List ℕ) → has x l ≡ false → has x (remove p l) ≡ false
unfolding remove
has-remove_le x p [] h = refl
has-remove_le x p (a ∷ l) h = ground (arith, has-remove_le x p l)

pub Distinct-remove : (p : ℕ) (l : List ℕ) → Distinct l → Distinct (remove p l)
unfolding remove
Distinct-remove p [] d = tt
Distinct-remove p (a ∷ l) d = elim (Bool-cases (a == p)) [
  | inl e ↦ rw e d.1
  | inr e ↦ rw e (has-remove_le a p l d.0, Distinct-remove p l d.1)
]

-- The neighbours of an address are in the list, or null.
pub after_mem : (l : List ℕ) (x : ℕ) → (after l x ≡ 0) ⊎ (has (after l x) l ≡ true)
after_mem [] x = inl refl
after_mem (a ∷ []) x = ground arith
after_mem (a ∷ b ∷ l) x = ground (arith, after_mem (b ∷ l) x)

pub before_mem :
    (d : ℕ) (l : List ℕ) (x : ℕ)
    → (before d l x ≡ 0) ⊎ ((before d l x ≡ d) ⊎ (has (before d l x) l ≡ true))
before_mem d [] x = inl refl
before_mem d (a ∷ l) x = ground (arith, before_mem a l x)

-- An address that is not the first has an address of the list before it.
before_rest : (d : ℕ) (l : List ℕ) (x : ℕ) → has x l ≡ true → has (before d l x) (d ∷ l) ≡ true
before_rest d [] x h = ground arith
before_rest d (a ∷ l) x h = ground (arith, before_rest a l x)

pub before_inner : (l : List ℕ) (x : ℕ) → has x l ≡ true → first l ≢ x → has (before 0 l x) l ≡ true
before_inner [] x h ne = ground arith
before_inner (a ∷ l) x h ne = ground (arith, before_rest a l x)

-- No address stands before itself.
before_self : (d : ℕ) (l : List ℕ) (x : ℕ) → d ≢ x → x ≢ 0 → Distinct l → before d l x ≢ x
before_self d [] x ne nz h = ground arith
before_self d (a ∷ l) x ne nz h = ground (arith, before_self a l x)

pub before_other : (l : List ℕ) (x : ℕ) → x ≢ 0 → Distinct l → before 0 l x ≢ x
before_other l x nz h = before_self 0 l x (λ e. nz (sym e)) nz h

-- What is left after a removal was there before, and is another address.
pub mem-remove :
    (x p : ℕ) (l : List ℕ) → Distinct l → has x (remove p l) ≡ true → (x ≢ p) × (has x l ≡ true)
mem-remove x p l d h = (other, ground (arith, has-remove_ne x p l other))
  where
    other : x ≢ p
    other e = ground (arith, has-remove_self p l d)
