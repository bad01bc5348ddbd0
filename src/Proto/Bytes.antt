-- ===== src/Proto/Bytes.antt =====
-- Unsigned integers as little-endian bytes.
use udpboardcast.Base.{ℕ, zero, suc, ◌+◌, ◌*◌, ◌/◌, ◌%◌, ◌^◌, ◌<◌, ◌≡◌, List, [], ◌∷◌, arith}

unfoldable pub le_bytes : ℕ → ℕ → List ℕ
le_bytes zero x = []
le_bytes (suc n) x = (x % 256) ∷ le_bytes n (x / 256)

unfoldable pub le_value : List ℕ → ℕ
le_value [] = 0
le_value (b ∷ bs) = b + 256 * le_value bs

pub le_value-le_bytes_one : (x : ℕ) → x < 2 ^ 8 → le_value (le_bytes 1 x) ≡ x
unfolding le_bytes le_value
le_value-le_bytes_one x h = omega arith

pub le_value-le_bytes_four : (x : ℕ) → x < 2 ^ 32 → le_value (le_bytes 4 x) ≡ x
unfolding le_bytes le_value
le_value-le_bytes_four x h = omega arith

pub le_value-le_bytes_eight : (x : ℕ) → x < 2 ^ 64 → le_value (le_bytes 8 x) ≡ x
unfolding le_bytes le_value
le_value-le_bytes_eight x h = omega arith
