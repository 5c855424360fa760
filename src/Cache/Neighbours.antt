-- ===== src/Cache/Neighbours.antt =====
-- The neighbours in `remove p l`, from those in `l`: the equations behind every unlinking.
use proxy_server_in_c.Common.{
  ℕ, ◌≡◌, ◌≢◌, refl, true, false, List, [], ◌∷◌, ◌==◌, if◌then◌else◌, arith, inl, inr, Bool-cases,
}
use proxy_server_in_c.Cache.Order.{
  has, Distinct, first, last, after, before, remove, after_mem, before_mem,
}

-- Away from the first address, the address before does not depend on the start.
pub before_start : (d e : ℕ) (l : List ℕ) (x : ℕ) → first l ≢ x → before d l x ≡ before e l x
before_start d e [] x ne = refl
before_start d e (a ∷ l) x ne = ground arith

pub before-first : (d : ℕ) (l : List ℕ) (x : ℕ) → first l ≡ x → x ≢ 0 → before d l x ≡ d
before-first d [] x e nz = ground arith
before-first d (a ∷ l) x e nz = ground arith

pub last_start : (d e : ℕ) (l : List ℕ) (x : ℕ) → has x l ≡ true → last d l ≡ last e l
last_start d e [] x h = ground arith
last_start d e (a ∷ l) x h = refl

-- Only the first address has the start before it.
before_ne : (d : ℕ) (l : List ℕ) (x : ℕ) → d ≢ 0 → has d l ≡ false → first l ≢ x → before d l x ≢ d
before_ne d [] x nz out ne = ground arith
before_ne d (a ∷ l) x nz out ne = ground (arith, before_mem a l x)

after_ne : (d : ℕ) (l : List ℕ) (x : ℕ) → d ≢ 0 → has d l ≡ false → after l x ≢ d
after_ne d l x nz out = ground (arith, after_mem l x)

pub first-remove : (p : ℕ) (l : List ℕ) → first l ≢ p → first (remove p l) ≡ first l
unfolding remove
first-remove p [] ne = refl
first-remove p (a ∷ l) ne = ground arith

pub first-remove_self : (p : ℕ) (l : List ℕ) → first l ≡ p → p ≢ 0 → first (remove p l) ≡ after l p
unfolding remove
first-remove_self p [] e nz = ground arith
first-remove_self p (a ∷ l) e nz = ground arith

pub after-remove :
    (d p x : ℕ) (l : List ℕ)
    → Distinct l
    → has 0 l ≡ false
    → x ≢ p
    → x ≢ d
    → has x l ≡ true
    → has p l ≡ true
    → after (remove p l) x ≡ (if before d l p == x then after l p else after l x)
unfolding remove
after-remove d p x [] dl nz ne nd hx hp = ground arith
after-remove d p x (a ∷ l) dl nz ne nd hx hp = elim (Bool-cases (a == p)) [
  | inl e ↦ ground arith
  | inr e ↦ elim (Bool-cases (a == x)) [
    | inl f ↦ elim (Bool-cases (first l == p)) [
      | inl g ↦ ground (arith, first-remove_self p l)
      | inr g ↦ ground (arith, first-remove p l, before_ne a l p)
    ]
    | inr f ↦ ground (arith, after-remove a p x l dl.1)
  ]
]

pub before-remove :
    (d p x : ℕ) (l : List ℕ)
    → Distinct l
    → has 0 l ≡ false
    → x ≢ p
    → has x l ≡ true
    → has p l ≡ true
    → before d (remove p l) x ≡ (if after l p == x then before d l p else before d l x)
unfolding remove
before-remove d p x [] dl nz ne hx hp = ground arith
before-remove d p x (a ∷ l) dl nz ne hx hp = elim (Bool-cases (a == p)) [
  | inl e ↦ ground (arith, before_start d a l x)
  | inr e ↦ elim (Bool-cases (a == x)) [
    | inl f ↦ ground (arith, after_ne a l p)
    | inr f ↦ ground (arith, before-remove a p x l dl.1)
  ]
]

pub last-remove :
    (d p : ℕ) (l : List ℕ)
    → has 0 l ≡ false
    → has p l ≡ true
    → last d (remove p l) ≡ (if after l p == 0 then before d l p else last d l)
unfolding remove
last-remove d p [] nz hp = ground arith
last-remove d p (a ∷ []) nz hp = ground arith
last-remove d p (a ∷ b ∷ l) nz hp = elim (Bool-cases (a == p)) [
  | inl e ↦ ground arith
  | inr e ↦ ground (arith, last-remove a p (b ∷ l))
]
