-- ===== src/Cache/Depth.antt =====
-- How many entries stand before one in the list, and what moves it.
use proxy_server_in_c.Common.{
  ℕ, suc, ◌+◌, ◌≤◌, ◌<◌, ◌≡◌, ◌≢◌, true, List, [], ◌∷◌, ◌==◌, if◌then◌else◌, arith, length,
}
use proxy_server_in_c.Cache.Order.{has, Distinct, last, remove, has-remove_ne}
use proxy_server_in_c.Cache.Discard.{last_mem}

-- The number of addresses before `p`.
abbrev pub position : ℕ → List ℕ → ℕ
position p [] = 0
position p (a ∷ l) = if a == p then 0 else suc (position p l)

position-remove-le : (p x : ℕ) (l : List ℕ) → p ≢ x → position p (remove x l) ≤ position p l
unfolding remove
position-remove-le p x [] ne = omega arith
position-remove-le p x (a ∷ l) ne = ground (arith, position-remove-le p x l ne)

-- An entry sinks by at most one place when another is put, or brought, to the front.
pub position-front :
    (p x : ℕ) (l : List ℕ)
    → has p l ≡ true
    → (has p (x ∷ remove x l) ≡ true) × (position p (x ∷ remove x l) ≤ position p l + 1)
position-front p x l h = ground (arith, has-remove_ne p x l, position-remove-le p x l)

pub position-last : (a : ℕ) (l : List ℕ) → Distinct (a ∷ l) → position (last a l) (a ∷ l) ≡ length l
position-last a [] d = ground arith
position-last a (b ∷ l) d = ground (arith, position-last b l d.1, d.0, last_mem b l)

-- The last entry may go without harm to one before it.
pub position-evict :
    (p : ℕ) (l : List ℕ)
    → Distinct l
    → has p l ≡ true
    → position p l + 1 < length l
    → (has p (remove (last 0 l) l) ≡ true) × (position p (remove (last 0 l) l) ≤ position p l)
position-evict p [] d h deep = absurd (omega arith)
position-evict p (a ∷ l) d h deep =
    let ne : p ≢ last a l = λ e. ground (arith, position-last a l d) in
    ground
      (arith, has-remove_ne p (last a l) (a ∷ l) ne, position-remove-le p (last a l) (a ∷ l) ne)
