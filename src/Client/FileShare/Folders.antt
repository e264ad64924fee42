-- ===== src/Client/FileShare/Folders.antt =====
-- The folders that client/fileshare.go holds.
use gosoulseek.Prelude.{
  ◌≡◌, refl, arith, Bool, true, false, not, ◌&&◌, ◌||◌, Bool-cases, inl, inr, subst,
}
use gosoulseek.Prelude.{Bytes, bytes_eq, bytes_eq_iff, List, [], ◌∷◌, ◌++◌, Option, none, some}
use gosoulseek.Client.SharedFile.{SharedFolder}
use gosoulseek.Client.FileShare.{
  FileSharer, new_file_sharer, contains_slash, is_empty, is_abs, is_registered, stat_checked,
  add_shared_folder, cut_folder, remove_shared_folder,
}

-- A folder that can be shared: an absolute path, and a virtual path without slashes that is not empty.
abbrev pub IsSharable : SharedFolder → Type 0
IsSharable f =
    (is_abs f.local_path ≡ true)
    × (contains_slash f.virtual_path ≡ false)
    × (is_empty f.virtual_path ≡ false)

-- Every folder can be shared, and no two have one virtual path.
abbrev pub WellFormed : List SharedFolder → Type 0
WellFormed [] = Unit {0}
WellFormed (f ∷ fs) = IsSharable f × (is_registered f.virtual_path fs ≡ false) × WellFormed fs

is_registered-snoc :
    (u : Bytes) (fs : List SharedFolder) (f : SharedFolder)
    → is_registered u (fs ++ (f ∷ [])) ≡ (is_registered u fs || bytes_eq f.virtual_path u)
unfolding is_registered
is_registered-snoc u [] f = ground arith
is_registered-snoc u (g ∷ fs) f = ground (arith, is_registered-snoc u fs f)

snoc-WellFormed :
    (fs : List SharedFolder) (f : SharedFolder)
    → WellFormed fs
    → IsSharable f
    → is_registered f.virtual_path fs ≡ false
    → WellFormed (fs ++ (f ∷ []))
unfolding is_registered
snoc-WellFormed [] f w hf free = (hf, refl, tt)
snoc-WellFormed (g ∷ fs) f (hg, fresh, w) hf free = (
  hg,
  ground (
    arith,
    is_registered-snoc g.virtual_path fs f,
    fresh,
    free,
    bytes_eq_iff g.virtual_path f.virtual_path,
    bytes_eq_iff f.virtual_path g.virtual_path,
  ),
  snoc-WellFormed fs f w hf (ground (arith, free)),
)

cut-is_registered :
    (u v : Bytes) (fs : List SharedFolder)
    → is_registered u fs ≡ false
    → is_registered u (cut_folder v fs) ≡ false
unfolding is_registered cut_folder
cut-is_registered u v [] h = refl
cut-is_registered u v (f ∷ fs) h = ground (arith, cut-is_registered u v fs)

cut-WellFormed : (v : Bytes) (fs : List SharedFolder) → WellFormed fs → WellFormed (cut_folder v fs)
unfolding cut_folder
cut-WellFormed v [] w = tt
cut-WellFormed v (f ∷ fs) (hf, fresh, w) = elim (Bool-cases (bytes_eq f.virtual_path v)) [
  | inl e ↦ let same : fs ≡ cut_folder v (f ∷ fs) = ground (arith, e) in subst WellFormed same w
  | inr e ↦
      let same : f ∷ cut_folder v fs ≡ cut_folder v (f ∷ fs) = ground (arith, e) in
      subst WellFormed same (hf, cut-is_registered f.virtual_path v fs fresh, cut-WellFormed v fs w)
]

-- A call that changes the folders; `stat` is what the file system answers at that time.
pub data FolderCall : Type 0 where
  call_add : (Bytes → Option Bool) → Bytes → Bytes → FolderCall
  call_remove : Bytes → FolderCall

pub run_folders : List FolderCall → FileSharer → FileSharer
run_folders [] fs = fs
run_folders (call_add stat local_path virtual_path ∷ cs) fs =
    run_folders cs (add_shared_folder stat local_path virtual_path fs).0
run_folders (call_remove virtual_path ∷ cs) fs =
    run_folders cs (remove_shared_folder virtual_path fs)

stat_checked-WellFormed :
    (answer : Option Bool) (l v : Bytes) (fs : FileSharer)
    → WellFormed fs.folders
    → IsSharable (record { local_path = l; virtual_path = v })
    → WellFormed (stat_checked answer l v fs).0.folders
unfolding stat_checked
stat_checked-WellFormed none l v fs w h = w
stat_checked-WellFormed (some false) l v fs w h = w
stat_checked-WellFormed (some true) l v fs w h = elim (Bool-cases (is_registered v fs.folders)) [
  | inl e ↦
      let same : fs.folders ≡ (stat_checked (some true) l v fs).0.folders = ground (arith, e) in
      subst WellFormed same w
  | inr e ↦
      let f : SharedFolder = record { local_path = l; virtual_path = v } in
      let same : fs.folders ++ (f ∷ []) ≡ (stat_checked (some true) l v fs).0.folders =
        ground (arith, e) in
      subst WellFormed same (snoc-WellFormed fs.folders f w h e)
]

add-WellFormed :
    (stat : Bytes → Option Bool) (l v : Bytes) (fs : FileSharer)
    → WellFormed fs.folders
    → WellFormed (add_shared_folder stat l v fs).0.folders
unfolding add_shared_folder
add-WellFormed stat l v fs w =
    elim (Bool-cases (is_abs l && (not (contains_slash v) && not (is_empty v)))) [
      | inl ok ↦
          let same : (stat_checked (stat l) l v fs).0.folders
              ≡ (add_shared_folder stat l v fs).0.folders =
            ground (arith, ok) in
          subst WellFormed same (stat_checked-WellFormed (stat l) l v fs w (ground (arith, ok)))
      | inr bad ↦
          let same : fs.folders ≡ (add_shared_folder stat l v fs).0.folders = ground (arith, bad) in
          subst WellFormed same w
    ]

remove-WellFormed :
    (v : Bytes) (fs : FileSharer)
    → WellFormed fs.folders
    → WellFormed (remove_shared_folder v fs).folders
unfolding remove_shared_folder
remove-WellFormed v fs w = elim (Bool-cases (is_registered v fs.folders)) [
  | inl e ↦
      let same : cut_folder v fs.folders ≡ (remove_shared_folder v fs).folders =
        ground (arith, e) in
      subst WellFormed same (cut-WellFormed v fs.folders w)
  | inr e ↦
      let same : fs.folders ≡ (remove_shared_folder v fs).folders = ground (arith, e) in
      subst WellFormed same w
]

run_folders-WellFormed :
    (cs : List FolderCall) (fs : FileSharer)
    → WellFormed fs.folders
    → WellFormed (run_folders cs fs).folders
unfolding run_folders
run_folders-WellFormed [] fs w = w
run_folders-WellFormed (call_add stat l v ∷ cs) fs w =
    run_folders-WellFormed cs (add_shared_folder stat l v fs).0 (add-WellFormed stat l v fs w)
run_folders-WellFormed (call_remove v ∷ cs) fs w =
    run_folders-WellFormed cs (remove_shared_folder v fs) (remove-WellFormed v fs w)

-- Whatever folders are added and removed, and whatever the file system answers, the folders that are
-- shared have absolute paths and virtual paths without slashes, none of which is empty and no two of
-- which are the same.
pub shared_folders-WellFormed :
    (cs : List FolderCall) → WellFormed (run_folders cs new_file_sharer).folders
unfolding new_file_sharer
shared_folders-WellFormed cs = run_folders-WellFormed cs new_file_sharer tt
