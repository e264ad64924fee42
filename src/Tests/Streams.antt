-- ===== src/Tests/Streams.antt =====
-- The two ends of a transfer connection, on a file of five bytes.
use gosoulseek.Prelude.{
  ℕ, ◌+◌, ◌-◌, ◌≤◌, ◌≡◌, refl, arith, Bytes, List, [], ◌∷◌, ◌++◌, All, take, drop, none, some,
  false,
}
use gosoulseek.Prelude.Int.{pos}
use gosoulseek.Client.Errors.{TransferError, size_mismatch, wrapped, connection_error, eof_error}
use gosoulseek.Client.TransferState.{codes}
use gosoulseek.Client.SharedFile.{SharedFile}
use gosoulseek.Client.Transfer.{Transfer, new_transfer}
use gosoulseek.Client.Receiving.{returned, Pass, FileWriter, Received, offset_bytes, transfer_data}
use gosoulseek.Client.Receiving.Finishing.{Good}
use gosoulseek.Client.Receiving.Results.{
  Ready, Faithful, transfer_data-Faithful, transfer_data_finishes, transfer_data_cut_off,
}
use gosoulseek.Client.Sending.{SendPass, Sending, Outside, opened, stream_file}
use gosoulseek.Client.Sending.Account.{Sends}
use gosoulseek.Client.Sending.Results.{Calm, asked, stream_file_completes}
use gosoulseek.Client.Delivery.{upload_reaches_download}

abbrev song : Bytes
song = 10 ∷ (11 ∷ (12 ∷ (13 ∷ (14 ∷ []))))

-- A download of the song that resumes at its third byte.
abbrev resumed : Transfer
resumed = record (new_transfer 0 (b'a' ∷ []) (b's' ∷ []) 7) { size = pos 5; start_offset = pos 2 }

resumed-Ready : Ready 5 2 resumed
unfolding new_transfer
resumed-Ready = record {
  sized = refl;
  from = refl;
  ordered = omega arith;
  small = omega arith;
  reporting = refl;
}

abbrev keeps_all : FileWriter
keeps_all out bs = (out ++ bs, none)

-- A pass that finds so many bytes.
abbrev finds : ℕ → Pass
finds n = record {
  now = n;
  context_error = none;
  deadline_error = none;
  read_error = none;
  at_hand = n;
}

finds-Good : (n : ℕ) → 1 ≤ n → Good (finds n)
finds-Good n h = record { on = refl; timely = refl; readable = refl; some_at_hand = h }

abbrev three_passes : List Pass
three_passes = finds 2 ∷ (finds 1 ∷ (finds 4 ∷ []))

three-Good : All Good three_passes
three-Good =
    (finds-Good 2 (omega arith), (finds-Good 1 (omega arith), (finds-Good 4 (omega arith), tt)))

abbrev mismatch : TransferError
mismatch = wrapped (codes "wait for response") (size_mismatch (pos 5) (pos 6))

-- The rest of the song, and a byte that is not its own.
abbrev coming : Bytes
coming = 12 ∷ (13 ∷ (14 ∷ (99 ∷ [])))

transfer_data-Faithful_example :
    Faithful (5 - 2) coming (transfer_data keeps_all 1 none three_passes coming resumed).1
transfer_data-Faithful_example =
    transfer_data-Faithful keeps_all 1 5 2 three_passes coming resumed resumed-Ready
      (transfer_data keeps_all 1 none three_passes coming resumed).0
      (transfer_data keeps_all 1 none three_passes coming resumed).1 (λ out bs e. refl) refl

transfer_data_finishes_example :
    (t : Received) × (transfer_data keeps_all 1 none three_passes coming resumed
      ≡ (offset_bytes resumed, returned none t))
    × (t.written ≡ take (5 - 2) coming)
    × (t.incoming ≡ drop (5 - 2) coming)
transfer_data_finishes_example =
    transfer_data_finishes keeps_all 1 5 2 three_passes coming resumed resumed-Ready
      (λ out bs. refl) three-Good (omega arith) (omega arith)

transfer_data_cut_off_example :
    (t : Received) × (transfer_data keeps_all 1 none three_passes (12 ∷ []) resumed ≡ (
      offset_bytes resumed,
      returned (some (connection_error (codes "read") (pos (2 + 1)) (pos 5) eof_error)) t,
    ))
    × (t.written ≡ 12 ∷ [])
transfer_data_cut_off_example =
    transfer_data_cut_off keeps_all 1 5 2 three_passes (12 ∷ []) resumed resumed-Ready
      (λ out bs. refl) three-Good (omega arith) (omega arith)

abbrev shared_song : SharedFile
shared_song = record {
  local_path = b's' ∷ [];
  soulseek_path = b's' ∷ [];
  size = pos 5;
  extension = [];
  attributes = [];
}

-- The uploader's transfer of the song.
abbrev offered : Transfer
offered = record (new_transfer 1 (b'b' ∷ []) (b's' ∷ []) 9) {
  size = pos 5;
  shared_file = some shared_song;
}

abbrev calm_outside : Outside
calm_outside = record {
  read_deadline = none;
  offset_error = none;
  disk = λ path. opened song;
  seek_error = none;
  clear_deadline = none;
}

offered-Calm : Calm calm_outside offered song
offered-Calm = record {
  deadline_set = refl;
  offset_read = refl;
  seekable = refl;
  deadline_cleared = refl;
  shared = shared_song;
  is_shared = refl;
  readable = refl;
}

offered_open : offered.progress_ch.closed ≡ false
unfolding new_transfer
offered_open = refl

-- A pass that reads so many bytes of the file.
abbrev reads : ℕ → SendPass
reads n = record {
  now = n;
  context_error = none;
  read_error = none;
  at_hand = n;
  write_error = none;
}

reads-Sends : (n : ℕ) → 1 ≤ n → Sends (reads n)
reads-Sends n h = record { on = refl; readable = refl; some_at_hand = h; writable = refl }

abbrev four_passes : List SendPass
four_passes = reads 1 ∷ (reads 3 ∷ (reads 3 ∷ (reads 3 ∷ [])))

four-Sends : All Sends four_passes
four-Sends = (
  reads-Sends 1 (omega arith),
  (reads-Sends 3 (omega arith), (reads-Sends 3 (omega arith), (reads-Sends 3 (omega arith), tt))),
)

stream_file_completes_example :
    (t : Sending) × (stream_file calm_outside four_passes (asked (pos 2) ++ []) offered
      ≡ returned none t)
    × (t.outgoing ≡ take (5 - 2) (drop 2 song))
stream_file_completes_example =
    stream_file_completes calm_outside four_passes 5 2 [] song offered offered-Calm refl
      (omega arith) (omega arith) offered_open four-Sends (omega arith)

-- Two bytes are announced, and the offset is -1.
abbrev short_offer : Transfer
short_offer = record offered { size = pos 2 }

short-Calm : Calm calm_outside short_offer song
short-Calm = record {
  deadline_set = refl;
  offset_read = refl;
  seekable = refl;
  deadline_cleared = refl;
  shared = shared_song;
  is_shared = refl;
  readable = refl;
}

upload_reaches_download_example :
    (t : Sending) × (u : Received) × (stream_file calm_outside four_passes
        (offset_bytes resumed)
        offered
      ≡ returned none t)
    × (transfer_data keeps_all 1 none three_passes t.outgoing resumed
        ≡ (offset_bytes resumed, returned none u))
    × (u.written ≡ drop 2 song)
    × (u.incoming ≡ [])
upload_reaches_download_example =
    upload_reaches_download keeps_all 1 5 2 calm_outside four_passes three_passes song offered
      resumed resumed-Ready refl offered_open offered-Calm refl (λ out bs. refl) four-Sends
      (omega arith) three-Good (omega arith)
