-- ===== src/Protocol/LittleEndian.antt =====
-- `binary.LittleEndian` of Go's encoding/binary: the bytes of an unsigned integer, lowest first.
use gosoulseek.Prelude.{ℕ, zero, suc, ◌+◌, ◌*◌, ◌/◌, ◌%◌, ◌^◌, ◌<◌, ◌≡◌, refl, ap, arith}
use gosoulseek.Prelude.{[], ◌∷◌, length, Bytes, All}
use native.Mathlib.Nat.{pow-suc}

-- The `k` bytes of `v`.
unfoldable pub le_bytes : ℕ → ℕ → Bytes
le_bytes zero v = []
le_bytes (suc k) v = (v % 256) ∷ le_bytes k (v / 256)

-- The integer that the bytes stand for.
unfoldable pub le_value : Bytes → ℕ
le_value [] = 0
le_value (b ∷ bs) = b + 256 * le_value bs

pub length-le_bytes : (k v : ℕ) → length (le_bytes k v) ≡ k
unfolding le_bytes
length-le_bytes zero v = refl
length-le_bytes (suc k) v = ap suc (length-le_bytes k (v / 256))

pub le_value-le_bytes : (k v : ℕ) → v < 256 ^ k → le_value (le_bytes k v) ≡ v
unfolding le_bytes le_value
le_value-le_bytes zero v h = omega arith
le_value-le_bytes (suc k) v h =
    omega (arith, le_value-le_bytes k (v / 256) (omega (arith, pow-suc 256 k)))

pub le_value_lt : (bs : Bytes) → All (λ b. b < 256) bs → le_value bs < 256 ^ length bs
unfolding le_value
le_value_lt [] h = omega arith
le_value_lt (b ∷ bs) (hb, hbs) = omega (arith, le_value_lt bs hbs, pow-suc 256 (length bs))

pub le_bytes-le_value :
    (bs : Bytes) → All (λ b. b < 256) bs → le_bytes (length bs) (le_value bs) ≡ bs
unfolding le_bytes le_value
le_bytes-le_value [] h = refl
le_bytes-le_value (b ∷ bs) (hb, hbs) =
    let low : (b + 256 * le_value bs) % 256 ≡ b = omega arith in
    let high : (b + 256 * le_value bs) / 256 ≡ le_value bs = omega arith in
    rw (low, high, le_bytes-le_value bs hbs)
