-- ===== src/Client/Decimal/Digits.antt =====
-- `itoa` prints what `%d` prints, and the number can be read back from its digits.
use gosoulseek.Prelude.{
  ℕ, zero, suc, ◌+◌, ◌*◌, ◌-◌, ◌/◌, ◌^◌, ◌≤◌, ◌<◌, ◌≡◌, refl, sym, ap, ◌∙◌, arith, ◌==◌, Bool-cases,
  lt→ltb, le→ltb, ==_iff, append-nil, List, inl, inr, false,
}
use gosoulseek.Prelude.{Bytes, [], ◌∷◌, ◌++◌, append_assoc, All}
use gosoulseek.Client.Decimal.{digit, itoa_loop, itoa, decimal_digits, format_decimal}
use native.Mathlib.Nat.{pow-suc}
use native.Mathlib.Decide.{dec_lt}

itoa_loop-zero : (room : ℕ) (buf : Bytes) → itoa_loop room 0 buf ≡ buf
unfolding itoa_loop
itoa_loop-zero zero buf = refl
itoa_loop-zero (suc room) buf = refl

not_zero : (n : ℕ) → 0 < n → (n == 0) ≡ false
not_zero n h = ground arith

itoa_loop-step :
    (room n : ℕ) (buf : Bytes)
    → 0 < n
    → itoa_loop (suc room) n buf ≡ itoa_loop room (n / 10) (digit n ∷ buf)
unfolding itoa_loop
itoa_loop-step room n buf p = rw (not_zero n p)

decimal_digits-one : (k n : ℕ) → n < 10 → decimal_digits k n ≡ digit n ∷ []
unfolding decimal_digits
decimal_digits-one zero n h = refl
decimal_digits-one (suc k) n h = rw (lt→ltb n 10 h)

decimal_digits-step :
    (k n : ℕ) → 10 ≤ n → decimal_digits (suc k) n ≡ decimal_digits k (n / 10) ++ (digit n ∷ [])
unfolding decimal_digits
decimal_digits-step k n h = rw (le→ltb n 10 h)

itoa_loop-digit :
    (room n : ℕ) (buf : Bytes) → 0 < n → n < 10 → itoa_loop (suc room) n buf ≡ digit n ∷ buf
itoa_loop-digit room n buf p h =
    let last : n / 10 ≡ 0 = omega arith in
    itoa_loop-step room n buf p ∙ rw last (itoa_loop-zero room (digit n ∷ buf))

itoa_loop-decimal_digits :
    (room k n : ℕ) (buf : Bytes)
    → k < room
    → 0 < n
    → n < 10 ^ suc k
    → itoa_loop room n buf ≡ decimal_digits k n ++ buf
itoa_loop-decimal_digits zero k n buf r p h = absurd (omega arith)
itoa_loop-decimal_digits (suc room) zero n buf r p h =
    rw (decimal_digits-one 0 n (omega arith)) (itoa_loop-digit room n buf p (omega arith))
itoa_loop-decimal_digits (suc room) (suc k) n buf r p h = elim (dec_lt n 10) [
  | yes one ↦ rw (decimal_digits-one (suc k) n one) (itoa_loop-digit room n buf p one)
  | no more ↦
      rw (itoa_loop-step room n buf p, decimal_digits-step k n (omega arith))
        (itoa_loop-decimal_digits room k (n / 10) (digit n ∷ buf) (omega arith) (omega arith)
            (omega (arith, pow-suc 10 (suc k)))
          ∙ sym (append_assoc (decimal_digits k (n / 10)) (digit n ∷ []) buf))
]

-- On every `uint32` the ten bytes of the buffer are enough, and `itoa` prints what `%d` prints.
pub itoa-format_decimal : (n : ℕ) → n < 2 ^ 32 → itoa n ≡ format_decimal n
unfolding itoa format_decimal
itoa-format_decimal n h = elim (Bool-cases (n == 0)) [
  | inl none_left ↦
      rw (none_left, (==_iff n 0).0 none_left) (sym (decimal_digits-one 9 0 (omega arith)))
  | inr some_left ↦
      rw some_left (
        itoa_loop-decimal_digits 10 9 n [] (omega arith) (ground arith) (omega arith)
        ∙ append-nil _)
]

-- The number that a list of digits stands for.
parse : ℕ → Bytes → ℕ
parse acc [] = acc
parse acc (b ∷ bs) = parse (acc * 10 + (b - b'0')) bs

parse-append :
    (acc : ℕ) (xs : Bytes) (b : ℕ) → parse acc (xs ++ (b ∷ [])) ≡ parse acc xs * 10 + (b - b'0')
unfolding parse
parse-append acc [] b = refl
parse-append acc (x ∷ xs) b = parse-append (acc * 10 + (x - b'0')) xs b

parse-decimal_digits : (k n : ℕ) → n < 10 ^ suc k → parse 0 (decimal_digits k n) ≡ n
parse-decimal_digits zero n h = unfold parse decimal_digits in omega arith
parse-decimal_digits (suc k) n h = elim (dec_lt n 10) [
  | yes one ↦ rw (decimal_digits-one (suc k) n one) (unfold parse in omega arith)
  | no more ↦
      rw
        (
          decimal_digits-step k n (omega arith),
          parse-append 0 (decimal_digits k (n / 10)) (digit n),
          parse-decimal_digits k (n / 10) (omega (arith, pow-suc 10 (suc k))),
        )
        (omega arith)
]

-- Different numbers below 2^32 are printed differently.
pub itoa-injective : (n m : ℕ) → n < 2 ^ 32 → m < 2 ^ 32 → itoa n ≡ itoa m → n ≡ m
itoa-injective n m hn hm e =
    let same : format_decimal n ≡ format_decimal m =
      sym (itoa-format_decimal n hn) ∙ e ∙ itoa-format_decimal m hm in
    unfold format_decimal in
    (sym (parse-decimal_digits 9 n (omega arith))
      ∙ ap (parse 0) same
      ∙ parse-decimal_digits 9 m (omega arith))

abbrev pub IsDigit : ℕ → Type 0
IsDigit b = (b'0' ≤ b) × (b ≤ b'9')

All-append {ℓ κ} :
    {A : Type ℓ} (P : A → Type κ) (xs ys : List A) → All P xs → All P ys → All P (xs ++ ys)
All-append P [] ys h k = k
All-append P (x ∷ xs) ys (hx, h) k = (hx, All-append P xs ys h k)

decimal_digits-IsDigit : (k n : ℕ) → All IsDigit (decimal_digits k n)
decimal_digits-IsDigit zero n = unfold decimal_digits in omega arith
decimal_digits-IsDigit (suc k) n = elim (dec_lt n 10) [
  | yes one ↦ rw (decimal_digits-one (suc k) n one) (omega arith)
  | no more ↦ rw (decimal_digits-step k n (omega arith)) (
      All-append IsDigit (decimal_digits k (n / 10)) (digit n ∷ [])
        (decimal_digits-IsDigit k (n / 10)) (omega arith))
]

pub itoa-IsDigit : (n : ℕ) → n < 2 ^ 32 → All IsDigit (itoa n)
itoa-IsDigit n h =
    rw (itoa-format_decimal n h) (unfold format_decimal in decimal_digits-IsDigit 9 n)
