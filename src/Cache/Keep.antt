-- ===== src/Cache/Keep.antt =====
-- Lists of addresses that are filtered, and lists that are split at one of their addresses.
use proxy_server_in_c.Common.{
  ℕ, ◌≡◌, refl, Bool, true, false, ◌||◌, List, [], ◌∷◌, ◌++◌, ◌==◌, if◌then◌else◌, arith, length,
  ◌≤◌, inl, inr, Bool-cases,
}
use proxy_server_in_c.Cache.Order.{has, Distinct, first, last, after, before, remove}

-- The addresses that satisfy a test, in their order.
unfoldable pub keep : (ℕ → Bool) → List ℕ → List ℕ
keep f [] = []
keep f (a ∷ l) = let rest = keep f l in if f a then a ∷ rest else rest

pub keep-remove : (f : ℕ → Bool) (p : ℕ) (l : List ℕ) → f p ≡ false → keep f (remove p l) ≡ keep f l
unfolding keep remove
keep-remove f p [] e = refl
keep-remove f p (a ∷ l) e = elim (Bool-cases (a == p)) [
  | inl h ↦ let q : a ≡ p = ground arith in rw (h, q, e) refl
  | inr h ↦ rw (h, keep, keep-remove f p l e) refl
]

pub keep_all : (f : ℕ → Bool) (l : List ℕ) → ((x : ℕ) → has x l ≡ true → f x ≡ true) → keep f l ≡ l
unfolding keep
keep_all f [] h = refl
keep_all f (a ∷ l) h = rw (h a (ground arith), keep_all f l (λ x m. h x (ground arith))) refl

pub has-append : (x : ℕ) (xs ys : List ℕ) → has x (xs ++ ys) ≡ (has x xs || has x ys)
has-append x [] ys = refl
has-append x (a ∷ xs) ys = ground (arith, has-append x xs ys)

pub split_absent : (p : ℕ) (pre rest : List ℕ) → Distinct (pre ++ p ∷ rest) → has p pre ≡ false
split_absent p [] rest d = refl
split_absent p (a ∷ pre) rest d =
    ground (arith, d.0, has-append a pre (p ∷ rest), split_absent p pre rest d.1)

pub before-split :
    (d p : ℕ) (pre rest : List ℕ) → has p pre ≡ false → before d (pre ++ p ∷ rest) p ≡ last d pre
before-split d p [] rest h = ground arith
before-split d p (a ∷ pre) rest h = ground (arith, before-split a p pre rest)

pub remove-split :
    (p : ℕ) (pre rest : List ℕ) → has p pre ≡ false → remove p (pre ++ p ∷ rest) ≡ pre ++ rest
unfolding remove
remove-split p [] rest h = ground arith
remove-split p (a ∷ pre) rest h = ground (arith, remove-split p pre rest)

pub last-has : (a : ℕ) (l : List ℕ) → has (last a l) (a ∷ l) ≡ true
last-has a [] = ground arith
last-has a (b ∷ l) = ground (arith, last-has b l)

pub after-split :
    (a : ℕ) (pre rest : List ℕ)
    → Distinct (a ∷ pre ++ rest)
    → after (a ∷ pre ++ rest) (last a pre) ≡ first rest
after-split a [] rest d = ground arith
after-split a (b ∷ pre) rest d =
    let ne : (a == last b pre) ≡ false =
      ground (arith, d.0, last-has b pre, has-append a (b ∷ pre) rest) in
    rw ne (after-split b pre rest d.1)

pub last-append : (d p : ℕ) (l : List ℕ) → last d (l ++ p ∷ []) ≡ p
last-append d p [] = refl
last-append d p (a ∷ l) = last-append a p l

pub after_mid :
    (p : ℕ) (pre rest : List ℕ) → has p pre ≡ false → after (pre ++ p ∷ rest) p ≡ first rest
after_mid p [] rest h = ground arith
after_mid p (a ∷ pre) rest h = ground (arith, after_mid p pre rest)

pub length-keep-le : (f : ℕ → Bool) (l : List ℕ) → length (keep f l) ≤ length l
unfolding keep
length-keep-le f [] = omega arith
length-keep-le f (a ∷ l) = ground (arith, length-keep-le f l)
