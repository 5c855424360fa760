-- ===== src/Common/CString.antt =====
-- The functions of <string.h>, <strings.h> and <stdlib.h> that the program calls, on byte lists.
-- A C string is a list that holds no 0; `c_str` cuts a block of memory at its first 0.
use mathlib.Core.Option
use proxy_server_in_c.Common.Lists.{Bytes}
use proxy_server_in_c.Common.Tests.{leb, ltb, ◌==◌, if◌then◌else◌}
use proxy_server_in_c.Common.Int.{ℤ, pos, negsuc}
use Prim.Native.Nat.{ℕ, ◌+◌, ◌-◌, ◌*◌, ◌%◌, ◌^◌}
use mathlib.Core.Path.{◌≡◌, refl}
use mathlib.Core.Logic.{◌≢◌, ◌↔◌}
use mathlib.Core.Bool.{Bool, true, false, ◌&&◌, ◌||◌}
use mathlib.Core.Option.{Option, none, some}
use mathlib.Core.List.{[], ◌∷◌, ◌++◌}
use native.Mathlib.Omega.{arith}

unfoldable pub c_str : Bytes → Bytes
c_str [] = []
c_str (c ∷ s) = if c == 0 then [] else c ∷ c_str s

-- `strncmp(s, t, strlen(t)) == 0`
unfoldable pub starts_with : Bytes → Bytes → Bool
starts_with [] s = true
starts_with (c ∷ t) [] = false
starts_with (c ∷ t) (d ∷ s) = (c == d) && starts_with t s

-- `strchr(s, c)`: what stands before the first `c`, and the string from it on.
unfoldable pub strchr : ℕ → Bytes → Option (Bytes × Bytes)
strchr c [] = none
strchr c (d ∷ s) =
    if d == c then some ([], d ∷ s) else Option.map (λ p. (d ∷ p.0, p.1)) (strchr c s)

-- `strstr(s, t)` for a `t` that is not empty: what stands before the first `t`, and the string
-- from it on.
unfoldable pub strstr : Bytes → Bytes → Option (Bytes × Bytes)
unfolding starts_with
strstr t [] = none
strstr t (d ∷ s) =
    if starts_with t (d ∷ s)
    then some ([], d ∷ s)
    else Option.map (λ p. (d ∷ p.0, p.1)) (strstr t s)

-- `while (*s == ' ') s++`
unfoldable pub skip_spaces : Bytes → Bytes
skip_spaces [] = []
skip_spaces (c ∷ s) = if c == b' ' then skip_spaces s else c ∷ s

-- The bytes up to the next space, and those behind it.
unfoldable pub split_space : Bytes → Bytes × Bytes
split_space [] = ([], [])
split_space (c ∷ s) =
    let (word, rest) = split_space s in if c == b' ' then ([], s) else (c ∷ word, rest)

-- `strtok(s, " ")`: the next token, and where the next call goes on.
unfoldable pub strtok : Bytes → Option Bytes × Bytes
unfolding skip_spaces split_space
strtok s = elim (skip_spaces s) [
  | [] ↦ (none, [])
  | c ∷ t ↦ let (word, rest) = split_space (c ∷ t) in (some word, rest)
]

-- `tolower` in the C locale.
abbrev pub to_lower : ℕ → ℕ
to_lower c = if leb b'A' c && leb c b'Z' then c + 32 else c

-- `strcasecmp(s, t) == 0`
unfoldable pub case_eq : Bytes → Bytes → Bool
case_eq [] [] = true
case_eq [] (_ ∷ _) = false
case_eq (_ ∷ _) [] = false
case_eq (a ∷ s) (b ∷ t) = (to_lower a == to_lower b) && case_eq s t

abbrev pub is_digit : ℕ → Bool
is_digit c = leb b'0' c && leb c b'9'

-- `isspace` in the C locale.
abbrev pub is_space : ℕ → Bool
is_space c = (c == b' ') || (leb 9 c && leb c 13)

unfoldable pub skip_white : Bytes → Bytes
skip_white [] = []
skip_white (c ∷ s) = if is_space c then skip_white s else c ∷ s

unfoldable pub digits_value : ℕ → Bytes → ℕ
digits_value n [] = n
digits_value n (c ∷ s) =
    let rest = digits_value (n * 10 + (c - b'0')) s in if is_digit c then rest else n

-- A `long` of 64 bits as an `int`: its low 32 bits, in two's complement.
abbrev pub to_int : (low : ℕ) → ℤ
to_int low = if ltb low (2 ^ 31) then pos low else negsuc (2 ^ 32 - 1 - low)

-- `n` and `-n`, which `strtol` cuts off at the ends of a `long`, as an `int`.
abbrev pub int_of : ℕ → ℤ
int_of n = to_int ((if ltb n (2 ^ 63) then n else 2 ^ 63 - 1) % 2 ^ 32)

abbrev pub int_of_negated : ℕ → ℤ
int_of_negated n = to_int ((2 ^ 32 - (if ltb n (2 ^ 63) then n else 2 ^ 63) % 2 ^ 32) % 2 ^ 32)

-- `atoi`, which is `(int) strtol(s, NULL, 10)`, where a `long` has 64 bits.
unfoldable pub atoi : Bytes → ℤ
unfolding skip_white digits_value
atoi s = elim (skip_white s) [
  | [] ↦ pos 0
  | c ∷ t ↦
      if c == b'-'
      then int_of_negated (digits_value 0 t)
      else if c == b'+'
      then int_of (digits_value 0 t)
      else int_of (digits_value 0 (c ∷ t))
]

-- Every byte satisfies `P`.
abbrev pub Every : (ℕ → Type 0) → Bytes → Type 0
Every P [] = Unit {0}
Every P (c ∷ s) = P c × Every P s

pub c_str-append : (s t : Bytes) → Every (λ c. c ≢ 0) s → c_str (s ++ t) ≡ s ++ c_str t
unfolding c_str
c_str-append [] t h = refl
c_str-append (c ∷ s) t h =
    let nz : (c == 0) ≡ false = ground (arith, h.0) in rw (nz, c_str-append s t h.1)

-- A line that holds no carriage return ends at the first CR LF.
pub strstr_line :
    (s t : Bytes)
    → Every (λ c. c ≢ 13) s
    → strstr (13 ∷ 10 ∷ []) (s ++ 13 ∷ 10 ∷ t) ≡ some (s, 13 ∷ 10 ∷ t)
unfolding strstr
strstr_line [] t h = refl
strstr_line (c ∷ s) t h =
    let other : (13 == c) ≡ false = ground (arith, h.0) in rw (other, strstr_line s t h.1)

pub strchr_line :
    (a : ℕ) (s t : Bytes) → Every (λ c. c ≢ a) s → strchr a (s ++ a ∷ t) ≡ some (s, a ∷ t)
unfolding strchr
strchr_line a [] t h = ground arith
strchr_line a (c ∷ s) t h =
    let other : (c == a) ≡ false = ground (arith, h.0) in rw (other, strchr_line a s t h.1)

pub strchr_absent : (a : ℕ) (s : Bytes) → Every (λ c. c ≢ a) s → strchr a s ≡ none
unfolding strchr
strchr_absent a [] h = refl
strchr_absent a (c ∷ s) h =
    let other : (c == a) ≡ false = ground (arith, h.0) in rw (other, strchr_absent a s h.1)

split_space_word : (s t : Bytes) → Every (λ c. c ≢ b' ') s → split_space (s ++ b' ' ∷ t) ≡ (s, t)
unfolding split_space
split_space_word [] t h = refl
split_space_word (c ∷ s) t h =
    let other : (c == b' ') ≡ false = ground (arith, h.0) in rw (split_space_word s t h.1, other)

split_space_end : (s : Bytes) → Every (λ c. c ≢ b' ') s → split_space s ≡ (s, [])
unfolding split_space
split_space_end [] h = refl
split_space_end (c ∷ s) h =
    let other : (c == b' ') ≡ false = ground (arith, h.0) in rw (split_space_end s h.1, other)

-- A word with no space in it is the next token, before a space and at the end.
pub strtok_word :
    (w t : Bytes) → w ≢ [] → Every (λ a. a ≢ b' ') w → strtok (w ++ b' ' ∷ t) ≡ (some w, t)
unfolding strtok skip_spaces
strtok_word [] t ne h = absurd (ne refl)
strtok_word (c ∷ s) t ne h =
    let other : (c == b' ') ≡ false = ground (arith, h.0) in
    rw (strtok, other, split_space_word (c ∷ s) t h)

pub strtok_end : (w : Bytes) → w ≢ [] → Every (λ a. a ≢ b' ') w → strtok w ≡ (some w, [])
unfolding strtok skip_spaces
strtok_end [] ne h = absurd (ne refl)
strtok_end (c ∷ s) ne h =
    let other : (c == b' ') ≡ false = ground (arith, h.0) in
    rw (strtok, other, split_space_end (c ∷ s) h)

pub Every-append : (P : ℕ → Type 0) (s t : Bytes) → Every P s → Every P t → Every P (s ++ t)
Every-append P [] t hs ht = ht
Every-append P (c ∷ s) t hs ht = (hs.0, Every-append P s t hs.1 ht)

starts_with-append : (t rest : Bytes) → starts_with t (t ++ rest) ≡ true
unfolding starts_with
starts_with-append [] rest = refl
starts_with-append (c ∷ t) rest = ground (arith, starts_with-append t rest)

starts_with_sound : (t s : Bytes) → starts_with t s ≡ true → (rest : Bytes) × (s ≡ t ++ rest)
unfolding starts_with
starts_with_sound [] s h = (s, refl)
starts_with_sound (c ∷ t) [] h = absurd (ground arith)
starts_with_sound (c ∷ t) (d ∷ s) h =
    let (rest, e) = starts_with_sound t s (ground arith) in (rest, ground arith)

pub starts_with_iff : (t s : Bytes) → (starts_with t s ≡ true) ↔ ((rest : Bytes) × (s ≡ t ++ rest))
starts_with_iff t s = (starts_with_sound t s, λ (rest, e). rw e (starts_with-append t rest))
