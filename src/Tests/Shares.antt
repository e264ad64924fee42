-- ===== src/Tests/Shares.antt =====
-- The folders and the index of client/fileshare.go, for two folders and one file.
use gosoulseek.Prelude.{◌≡◌, refl, true, false, Bytes, bytes_eq, [], ◌∷◌, some}
use gosoulseek.Prelude.Int.{pos}
use gosoulseek.Client.KeyMap.{bytes_key}
use gosoulseek.Client.SharedFile.{SharedFile}
use gosoulseek.Client.FileShare.{
  FileSharer, backslash, contains_slash, is_registered, new_file_sharer,
}
use gosoulseek.Client.FileShare.Folders.{
  WellFormed, call_add, call_remove, run_folders, shared_folders-WellFormed,
}

-- `m` and `mm`, the first a prefix of the second.
abbrev music : Bytes
music = b'm' ∷ []

abbrev more_music : Bytes
more_music = b'm' ∷ (b'm' ∷ [])

abbrev root : Bytes
root = b'/' ∷ []

abbrev song_path : Bytes
song_path = b'm' ∷ (b'm' ∷ (backslash ∷ (b's' ∷ [])))

abbrev song : SharedFile
song = record {
  local_path = root;
  soulseek_path = song_path;
  size = pos 9;
  extension = [];
  attributes = [];
}

abbrev shares : FileSharer
shares = record {
  folders =
      (record { local_path = root; virtual_path = music })
      ∷ ((record { local_path = root; virtual_path = more_music }) ∷ []);
  files = (song_path, song) ∷ [];
}

shared_folders-WellFormed_example :
    WellFormed
      (run_folders
        (call_add (λ path. some true) root music
          ∷ (call_add (λ path. some true) root music ∷ (call_remove music ∷ [])))
        new_file_sharer).folders
shared_folders-WellFormed_example = shared_folders-WellFormed (
    call_add (λ path. some true) root music
    ∷ (call_add (λ path. some true) root music ∷ (call_remove music ∷ [])))

music_plain : contains_slash music ≡ false
unfolding contains_slash
music_plain = refl

more_music_plain : contains_slash more_music ≡ false
unfolding contains_slash
more_music_plain = refl

music_shared : is_registered music shares.folders ≡ true
unfolding is_registered bytes_eq
music_shared = refl
