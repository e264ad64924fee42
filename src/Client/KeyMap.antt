-- ===== src/Client/KeyMap.antt =====
-- Go's maps and `sync.Map`, as association lists, for any key type with a Boolean equality. The order
-- of the list stands for the order of `Range`, which Go leaves open.
use gosoulseek.Prelude.{
  Bool-cases, inl, inr, ap, ℕ, ◌≡◌, ◌↔◌, refl, arith, ◌==◌, ==_iff, if◌then◌else◌, Bool, true,
  Bytes, bytes_eq, bytes_eq_iff, List, [], ◌∷◌, Option, none, some,
}

pub record Key (K : Type 0) : Type 0 where
  pub same : K → K → Bool
  pub same_iff : (a b : K) → (same a b ≡ true) ↔ (a ≡ b)

instance abbrev pub nat_key : Key ℕ
nat_key = record { same = ◌==◌; same_iff = ==_iff }

instance abbrev pub bytes_key : Key Bytes
bytes_key = record { same = bytes_eq; same_iff = bytes_eq_iff }

pub same_refl : {K : Type 0} ⦃k : Key K⦄ (a : K) → k.same a a ≡ true
same_refl ⦃k⦄ a = (k.same_iff a a).1 refl

module _ {K V : Type 0} ⦃k : Key K⦄ where
  -- `m[key]`, `Load`
  unfoldable pub load : K → List (K × V) → Option V
  load key [] = none
  load key ((j, v) ∷ m) = if k.same j key then some v else load key m

  -- `m[key] = v`, `Store`
  unfoldable pub store : K → V → List (K × V) → List (K × V)
  store key v [] = (key, v) ∷ []
  store key v ((j, w) ∷ m) = if k.same j key then (key, v) ∷ m else (j, w) ∷ store key v m

  -- `delete(m, key)`, `Delete`: a map has a key once, so cutting every pair is cutting that one.
  unfoldable pub delete : K → List (K × V) → List (K × V)
  delete key [] = []
  delete key ((j, v) ∷ m) = let rest = delete key m in if k.same j key then rest else (j, v) ∷ rest

  -- `for key := range m { if test(key) { delete(m, key) } }`
  pub delete_where : (K → Bool) → List (K × V) → List (K × V)
  delete_where test [] = []
  delete_where test ((j, v) ∷ m) =
      let rest = delete_where test m in if test j then rest else (j, v) ∷ rest

  pub load-delete_where :
      (test : K → Bool) (j : K) (m : List (K × V))
      → load j (delete_where test m) ≡ (if test j then none else load j m)
  unfolding load delete_where
  load-delete_where test j [] = ground arith
  load-delete_where test j ((i, w) ∷ m) = elim (Bool-cases (k.same i j)) [
    | inl e ↦
        let same : test i ≡ test j = ap test ((k.same_iff i j).0 e) in
        ground (arith, load-delete_where test j m, same, e)
    | inr e ↦ ground (arith, load-delete_where test j m, e)
  ]

  pub load-store :
      (key j : K) (v : V) (m : List (K × V))
      → load j (store key v m) ≡ (if k.same key j then some v else load j m)
  unfolding load store
  load-store key j v [] = refl
  load-store key j v ((i, w) ∷ m) =
      ground (arith, k.same_iff key j, k.same_iff i key, k.same_iff i j, load-store key j v m)

  pub load-delete :
      (key j : K) (m : List (K × V))
      → load j (delete key m) ≡ (if k.same key j then none else load j m)
  unfolding load delete
  load-delete key j [] = ground arith
  load-delete key j ((i, w) ∷ m) =
      ground (arith, k.same_iff key j, k.same_iff i key, k.same_iff i j, load-delete key j m)
