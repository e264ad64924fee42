-- ===== src/Client/FileShare/Index.antt =====
-- The index of client/fileshare.go, saved and loaded.
use gosoulseek.Prelude.{◌≡◌, Bool, false, ◌||◌}
use gosoulseek.Prelude.{Bytes, bytes_eq, List, [], ◌∷◌, none}
use gosoulseek.Client.KeyMap.{load, bytes_key}
use gosoulseek.Client.SharedFile.{SharedFile}

has_path : Bytes → List (Bytes × SharedFile) → Bool
has_path u [] = false
has_path u ((path, f) ∷ m) = bytes_eq path u || has_path u m

-- Every file stands under its own path, and no path stands twice.
abbrev pub IsIndex : List (Bytes × SharedFile) → Type 0
IsIndex [] = Unit {0}
IsIndex ((path, f) ∷ m) = (f.soulseek_path ≡ path) × (load path m ≡ none) × IsIndex m
