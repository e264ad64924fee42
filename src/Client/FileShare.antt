-- ===== src/Client/FileShare.antt =====
-- client/fileshare.go: the folders that are shared and the index of their files. The file system is a
-- parameter, and so are JSON and the walk over a folder.
pub mod Folders
pub mod Files
pub mod Index
use gosoulseek.Prelude.{
  ℕ, ◌+◌, ◌==◌, if◌then◌else◌, Bool, true, false, ◌&&◌, ◌||◌, Bytes, bytes_eq, List, [], ◌∷◌, ◌++◌,
  length, Option, none, some,
}
use gosoulseek.Client.KeyMap.{load, store, delete_where, bytes_key}
use gosoulseek.Client.SharedFile.{SharedFolder, SharedFile}

-- `files` is the map by Soulseek path.
pub record FileSharer : Type 0 where
  pub folders : List SharedFolder
  pub files : List (Bytes × SharedFile)

pub new_file_sharer : FileSharer
new_file_sharer = record { folders = []; files = [] }

pub data FolderError : Type 0 where
  not_absolute : FolderError
  has_slashes : FolderError
  empty_virtual_path : FolderError
  stat_failed : FolderError
  not_a_directory : FolderError
  already_registered : Bytes → FolderError

-- `filepath.IsAbs` on Unix.
unfoldable pub is_abs : Bytes → Bool
is_abs [] = false
is_abs (b ∷ bs) = b == b'/'

abbrev pub backslash : ℕ
backslash = 92

-- `strings.ContainsAny(s, "/\\")`
unfoldable pub contains_slash : Bytes → Bool
contains_slash [] = false
contains_slash (b ∷ bs) = b == b'/' || b == backslash || contains_slash bs

unfoldable pub is_empty : Bytes → Bool
is_empty [] = true
is_empty (b ∷ bs) = false

unfoldable pub is_registered : Bytes → List SharedFolder → Bool
is_registered virtual_path [] = false
is_registered virtual_path (f ∷ fs) =
    bytes_eq f.virtual_path virtual_path || is_registered virtual_path fs

-- What is known of the folder: `none` is an error of `os.Stat`, `some b` whether it is a directory.
stat_checked : Option Bool → Bytes → Bytes → FileSharer → FileSharer × Option FolderError
stat_checked none local_path virtual_path fs = (fs, some stat_failed)
stat_checked (some false) local_path virtual_path fs = (fs, some not_a_directory)
stat_checked (some true) local_path virtual_path fs =
    if is_registered virtual_path fs.folders
    then (fs, some (already_registered virtual_path))
    else (
      record fs {
        folders =
            fs.folders ++ ((record { local_path = local_path; virtual_path = virtual_path }) ∷ []);
      },
      none,
    )

pub add_shared_folder :
    (Bytes → Option Bool) → Bytes → Bytes → FileSharer → FileSharer × Option FolderError
unfolding is_abs is_empty stat_checked
add_shared_folder stat local_path virtual_path fs =
    if is_abs local_path
    then if contains_slash virtual_path
      then (fs, some has_slashes)
      else if is_empty virtual_path
      then (fs, some empty_virtual_path)
      else stat_checked (stat local_path) local_path virtual_path fs
    else (fs, some not_absolute)

-- The first folder with the virtual path is cut out.
cut_folder : Bytes → List SharedFolder → List SharedFolder
cut_folder virtual_path [] = []
cut_folder virtual_path (f ∷ fs) =
    if bytes_eq f.virtual_path virtual_path then fs else f ∷ cut_folder virtual_path fs

-- `strings.HasPrefix`
pub has_prefix : Bytes → Bytes → Bool
has_prefix s [] = true
has_prefix [] (p ∷ prefix) = false
has_prefix (b ∷ s) (p ∷ prefix) = b == p && has_prefix s prefix

pub is_under : Bytes → Bytes → Bool
unfolding has_prefix
is_under virtual_path path =
    has_prefix path (virtual_path ++ (backslash ∷ [])) || bytes_eq path virtual_path

pub remove_shared_folder : Bytes → FileSharer → FileSharer
unfolding cut_folder is_under
remove_shared_folder virtual_path fs =
    if is_registered virtual_path fs.folders
    then record {
      folders = cut_folder virtual_path fs.folders;
      files = delete_where (is_under virtual_path) fs.files;
    }
    else fs

pub get_file : Bytes → FileSharer → Option SharedFile
get_file path fs = load path fs.files

-- `soulseekDir`: what is before the last backslash, if there is one.
last_backslash : Bytes → Option Bytes
last_backslash [] = none
last_backslash (b ∷ bs) = elim (last_backslash bs) [
  | some dir ↦ some (b ∷ dir)
  | none ↦ if b == backslash then some [] else none
]

unfoldable soulseek_dir : Bytes → Bytes
unfolding last_backslash
soulseek_dir path = elim (last_backslash path) [ none ↦ [] | some dir ↦ dir ]

-- `strings.ReplaceAll(rel, "/", "\\")`
backslashed : Bytes → Bytes
backslashed [] = []
backslashed (b ∷ bs) = (if b == b'/' then backslash else b) ∷ backslashed bs

-- `localToSoulseek` for the answer of `filepath.Rel`.
pub local_to_soulseek : Option Bytes → Bytes → Bytes
unfolding backslashed
local_to_soulseek none virtual_path = []
local_to_soulseek (some rel) virtual_path = virtual_path ++ (backslash ∷ backslashed rel)

-- The saved index, without the time at which it was saved. JSON is not part of it.
pub record PersistedIndex : Type 0 where
  pub version : ℕ
  pub folders : List SharedFolder
  pub files : List SharedFile

abbrev pub current_index_version : ℕ
current_index_version = 1

pub data IndexError : Type 0 where
  unsupported_version : ℕ → IndexError
  folders_changed : IndexError

-- The files of the map, in the order of `Range`.
pub get_shared_files : List (Bytes × SharedFile) → List SharedFile
get_shared_files [] = []
get_shared_files ((path, f) ∷ m) = f ∷ get_shared_files m

pub save_index : FileSharer → PersistedIndex
unfolding get_shared_files
save_index fs = record {
  version = current_index_version;
  folders = fs.folders;
  files = get_shared_files fs.files;
}

-- `for _, f := range a { aMap[f.VirtualPath] = f.LocalPath }`
folder_map : List SharedFolder → List (Bytes × Bytes) → List (Bytes × Bytes)
folder_map [] m = m
folder_map (f ∷ fs) m = folder_map fs (store f.virtual_path f.local_path m)

-- A missing key reads as the empty string.
text_at : Bytes → List (Bytes × Bytes) → Bytes
text_at key m = elim (load key m) [ none ↦ [] | some text ↦ text ]

all_at : List (Bytes × Bytes) → List SharedFolder → Bool
unfolding text_at
all_at m [] = true
all_at m (f ∷ fs) = bytes_eq (text_at f.virtual_path m) f.local_path && all_at m fs

pub folders_match : List SharedFolder → List SharedFolder → Bool
unfolding folder_map all_at
folders_match a b = length a == length b && all_at (folder_map a []) b

-- `for _, f := range idx.Files { fs.files[f.SoulseekPath] = f }`
index_files : List SharedFile → List (Bytes × SharedFile) → List (Bytes × SharedFile)
index_files [] m = m
index_files (f ∷ fs) m = index_files fs (store f.soulseek_path f m)

-- `LoadIndex` once the JSON is decoded.
pub load_index : PersistedIndex → FileSharer → FileSharer × Option IndexError
unfolding index_files folders_match
load_index idx fs =
    if idx.version == current_index_version
    then if folders_match fs.folders idx.folders
      then (record fs { files = index_files idx.files [] }, none)
      else (fs, some folders_changed)
    else (fs, some (unsupported_version idx.version))
