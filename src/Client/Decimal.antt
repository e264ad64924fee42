-- ===== src/Client/Decimal.antt =====
-- Decimal numbers: `itoa` of client/transfer_registry.go, and `%d` of Go's fmt.
pub mod Digits
use gosoulseek.Prelude.{ℕ, zero, suc, ◌+◌, ◌/◌, ◌%◌, ◌==◌, ltb, if◌then◌else◌, Bytes, [], ◌∷◌, ◌++◌}

-- `byte('0' + n%10)`
abbrev pub digit : ℕ → ℕ
digit n = b'0' + n % 10

-- The loop of `itoa`: the ten-byte buffer is filled from its end, and `buf` is its filled part. The
-- fuel is the room that is left.
pub itoa_loop : ℕ → ℕ → Bytes → Bytes
itoa_loop zero n buf = buf
itoa_loop (suc room) n buf =
    let more = itoa_loop room (n / 10) (digit n ∷ buf) in if n == 0 then buf else more

unfoldable pub itoa : ℕ → Bytes
itoa n = if n == 0 then b'0' ∷ [] else itoa_loop 10 n []

-- What `%d` prints of a number below 10 ^ (k + 1).
unfoldable pub decimal_digits : ℕ → ℕ → Bytes
decimal_digits zero n = digit n ∷ []
decimal_digits (suc k) n =
    let front = decimal_digits k (n / 10) in
    if ltb n 10 then digit n ∷ [] else front ++ (digit n ∷ [])

-- `%d` of a `uint32`.
unfoldable pub format_decimal : ℕ → Bytes
format_decimal n = decimal_digits 9 n
