-- ===== src/Cache/Hash.antt =====
-- `cache_hash`: the bucket, and why the 32-bit wrap-around does not matter for it.
use proxy_server_in_c.Common.{
  ℕ, ◌+◌, ◌*◌, ◌%◌, ◌^◌, ◌<◌, ◌≡◌, refl, [], ◌∷◌, if◌then◌else◌, ltb, Bytes, arith,
}
use proxy_server_in_c.Cache.{cache_hash, hash_loop, hash_table_size, char_to_unsigned}

-- The same polynomial with no wrap-around. A byte from 128 on is a negative `char`, `c - 256`,
-- which is `c + 768` modulo 1024.
unfoldable pub djb2 : ℕ → Bytes → ℕ
djb2 h [] = h
djb2 h (c ∷ cs) = djb2 (h * 33 + (if ltb c 128 then c else c + 768)) cs

abbrev mix : ℕ → ℕ → ℕ
mix h c = (((h * 32 % 2 ^ 32) + h) % 2 ^ 32 + char_to_unsigned c) % 2 ^ 32

mix-mod :
    (h g c : ℕ)
    → h % 1024 ≡ g % 1024
    → mix h c % 1024 ≡ (g * 33 + (if ltb c 128 then c else c + 768)) % 1024
mix-mod h g c e = ground arith

hash_loop-mod :
    (h g : ℕ) (cs : Bytes) → h % 1024 ≡ g % 1024 → hash_loop h cs % 1024 ≡ djb2 g cs % 1024
unfolding hash_loop djb2
hash_loop-mod h g [] e = e
hash_loop-mod h g (c ∷ cs) e =
    hash_loop-mod (mix h c) (g * 33 + (if ltb c 128 then c else c + 768)) cs (mix-mod h g c e)

-- The bucket of a URL is the polynomial hash of its bytes modulo 1024, computed with no
-- wrap-around at all, and it is an index of the table.
pub cache_hash-djb2 :
    (url : Bytes)
    → (cache_hash url ≡ djb2 5381 url % hash_table_size) × (cache_hash url < hash_table_size)
unfolding cache_hash
cache_hash-djb2 url = (hash_loop-mod 5381 5381 url refl, omega arith)
