-- ===== src/Client/Registry/Keys.antt =====
-- The keys of client/transfer_registry.go: which transfers share one.
use gosoulseek.Prelude.{
  ℕ, ◌^◌, ◌<◌, ◌≡◌, ◌≢◌, refl, subst, sym, ◌∙◌, arith, Bytes, [], ◌∷◌, ◌++◌, append_assoc, All,
  some,
}
use gosoulseek.Prelude.Int.{ℤ}
use gosoulseek.Client.KeyMap.{load, bytes_key}
use gosoulseek.Client.Decimal.{itoa}
use gosoulseek.Client.Decimal.Digits.{IsDigit, itoa-format_decimal, itoa-injective, itoa-IsDigit}
use gosoulseek.Client.Errors.{duplicate_transfer}
use gosoulseek.Client.Transfer.{Transfer, new_transfer, file_key_of}
use gosoulseek.Client.Registry.{Registry, refused, file_key, remote_key, register}

abbrev pub NoColon : Bytes → Type 0
NoColon = All (λ b. b ≢ b':')

All-digit-NoColon : (bs : Bytes) → All IsDigit bs → NoColon bs
All-digit-NoColon [] h = tt
All-digit-NoColon (b ∷ bs) (hb, h) = ((λ e. omega arith), All-digit-NoColon bs h)

itoa-NoColon : (n : ℕ) → n < 2 ^ 32 → NoColon (itoa n)
itoa-NoColon n h = All-digit-NoColon (itoa n) (itoa-IsDigit n h)

-- A text splits in one way at its first colon.
split_first :
    (xs ys a b : Bytes)
    → NoColon xs
    → NoColon ys
    → xs ++ (b':' ∷ a) ≡ ys ++ (b':' ∷ b)
    → (xs ≡ ys) × (a ≡ b)
split_first [] [] a b hx hy e = (refl, ground arith)
split_first [] (y ∷ ys) a b hx (hy, _) e = absurd (hy (ground arith))
split_first (x ∷ xs) [] a b (hx, _) hy e = absurd (hx (ground arith))
split_first (x ∷ xs) (y ∷ ys) a b (_, hx) (_, hy) e = ground (arith, split_first xs ys a b hx hy)

colon_inside : (xs a : Bytes) → ¬ NoColon (xs ++ (b':' ∷ a))
colon_inside [] a (h, _) = h refl
colon_inside (x ∷ xs) a (_, h) = colon_inside xs a h

-- And in one way at its last colon.
split_last :
    (xs ys a b : Bytes)
    → NoColon a
    → NoColon b
    → xs ++ (b':' ∷ a) ≡ ys ++ (b':' ∷ b)
    → (xs ≡ ys) × (a ≡ b)
split_last [] [] a b ha hb e = (refl, ground arith)
split_last [] (y ∷ ys) a b ha hb e = absurd (colon_inside ys b (subst NoColon (tail_eq e) ha))
  where
    tail_eq : b':' ∷ a ≡ y ∷ (ys ++ (b':' ∷ b)) → a ≡ ys ++ (b':' ∷ b)
    tail_eq e = ground arith
split_last (x ∷ xs) [] a b ha hb e = absurd (colon_inside xs a (subst NoColon (tail_eq e) hb))
  where
    tail_eq : x ∷ (xs ++ (b':' ∷ a)) ≡ b':' ∷ b → b ≡ xs ++ (b':' ∷ a)
    tail_eq e = ground arith
split_last (x ∷ xs) (y ∷ ys) a b ha hb e = ground (arith, split_last xs ys a b ha hb)

pub file_key_of-file_key :
    (t : Transfer)
    → t.direction < 2 ^ 32
    → file_key_of t ≡ file_key t.direction t.username t.filename
unfolding file_key_of file_key
file_key_of-file_key t h = rw (itoa-format_decimal t.direction h)

-- Among user names without a colon and directions below 2^32, a file key belongs to one direction,
-- user and file only.
pub file_key-injective :
    (d e : ℕ) (u v f g : Bytes)
    → d < 2 ^ 32
    → e < 2 ^ 32
    → NoColon u
    → NoColon v
    → file_key d u f ≡ file_key e v g
    → (d ≡ e) × (u ≡ v) × (f ≡ g)
unfolding file_key
file_key-injective d e u v f g hd he hu hv h =
    let (digits, rest) =
      split_first (itoa d) (itoa e) _ _ (itoa-NoColon d hd) (itoa-NoColon e he) h in
    let (users, files) = split_first u v f g hu hv rest in
    (itoa-injective d e hd he digits, users, files)

-- Whatever the user names, a remote key belongs to one user and one remote token only.
pub remote_key-injective :
    (u v : Bytes) (t s : ℕ)
    → t < 2 ^ 32
    → s < 2 ^ 32
    → remote_key u t ≡ remote_key v s
    → (u ≡ v) × (t ≡ s)
unfolding remote_key
remote_key-injective u v t s ht hs h =
    let (users, digits) =
      split_last u v (itoa t) (itoa s) (itoa-NoColon t ht) (itoa-NoColon s hs) h in
    (users, itoa-injective t s ht hs digits)

file_key-collision :
    (d : ℕ) (u x f : Bytes) → file_key d (u ++ (b':' ∷ x)) f ≡ file_key d u (x ++ (b':' ∷ f))
unfolding file_key
file_key-collision d u x f = simp append_assoc

-- A user name with a colon breaks this: while the file `f` of a user `u:x` is registered, the other
-- file `x:f` of the other user `u` is refused as its duplicate, and nothing is registered.
pub colon_collision :
    (r : Registry) (d p token : ℕ) (u x f : Bytes) (size : ℤ)
    → d < 2 ^ 32
    → load (file_key d (u ++ (b':' ∷ x)) f) r.by_file_key ≡ some p
    → register d u (x ++ (b':' ∷ f)) token size r
      ≡ (r, refused (duplicate_transfer d u (x ++ (b':' ∷ f))))
unfolding register new_transfer
colon_collision r d p token u x f size hd h =
    let tr : Transfer = record (new_transfer d u (x ++ (b':' ∷ f)) token) { size = size } in
    let key : file_key_of tr ≡ file_key d (u ++ (b':' ∷ x)) f =
      file_key_of-file_key tr hd ∙ sym (file_key-collision d u x f) in
    ground (arith, key)
