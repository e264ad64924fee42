-- ===== src/Client/FileShare/Files.antt =====
-- The files that `RemoveSharedFolder` of client/fileshare.go takes out of the index.
use gosoulseek.Prelude.{
  ◌≡◌, refl, arith, ==_iff, if◌then◌else◌, true, false, Bool-cases, inl, inr, ap,
}
use gosoulseek.Prelude.{Bytes, bytes_eq, bytes_eq_iff, [], ◌∷◌, ◌++◌, none, some}
use gosoulseek.Client.KeyMap.{bytes_key, load-delete_where}
use gosoulseek.Client.FileShare.{
  FileSharer, backslash, contains_slash, is_registered, has_prefix, is_under, remove_shared_folder,
  get_file, local_to_soulseek, backslashed,
}

has_prefix-path :
    (v w rest : Bytes)
    → contains_slash v ≡ false
    → contains_slash w ≡ false
    → has_prefix (w ++ (backslash ∷ rest)) (v ++ (backslash ∷ [])) ≡ bytes_eq v w
unfolding contains_slash has_prefix bytes_eq
has_prefix-path [] [] rest hv hw = refl
has_prefix-path [] (c ∷ w) rest hv hw = ground arith
has_prefix-path (b ∷ v) [] rest hv hw = ground arith
has_prefix-path (b ∷ v) (c ∷ w) rest hv hw =
    ground (arith, has_prefix-path v w rest, ==_iff b c, ==_iff c b)

path-contains_slash : (w rest : Bytes) → contains_slash (w ++ (backslash ∷ rest)) ≡ true
unfolding contains_slash
path-contains_slash [] rest = ground arith
path-contains_slash (b ∷ w) rest = ground (arith, path-contains_slash w rest)

is_under-path :
    (v w rest : Bytes)
    → contains_slash v ≡ false
    → contains_slash w ≡ false
    → is_under v (w ++ (backslash ∷ rest)) ≡ bytes_eq v w
unfolding is_under
is_under-path v w rest hv hw = elim (Bool-cases (bytes_eq (w ++ (backslash ∷ rest)) v)) [
  | inl e ↦
      let same : contains_slash (w ++ (backslash ∷ rest)) ≡ contains_slash v =
        ap contains_slash ((bytes_eq_iff (w ++ (backslash ∷ rest)) v).0 e) in
      absurd (ground (arith, same, path-contains_slash w rest, hv))
  | inr e ↦ ground (arith, has_prefix-path v w rest hv hw, e)
]

-- Removing a folder that is shared takes exactly its own files out of the index, that is every path
-- that was made under its virtual path, and leaves the file at a path under any other virtual path
-- without a slash as it was, also where one virtual path begins with the other.
pub remove_shared_folder_files :
    (v w rel : Bytes) (fs : FileSharer)
    → contains_slash v ≡ false
    → contains_slash w ≡ false
    → is_registered v fs.folders ≡ true
    → let path = local_to_soulseek (some rel) w in
      get_file path (remove_shared_folder v fs) ≡ (if bytes_eq v w then none else get_file path fs)
unfolding local_to_soulseek remove_shared_folder get_file
remove_shared_folder_files v w rel fs hv hw there =
    let path = local_to_soulseek (some rel) w in
    ground (
      arith,
      there,
      load-delete_where (is_under v) path fs.files,
      is_under-path v w (backslashed rel) hv hw,
    )
