-- ===== src/Tests/Messages.antt =====
-- The messages of peers in client/client.go and client/upload.go, at concrete inputs.
use gosoulseek.Prelude.{ℕ, ◌≡◌, ◌≢◌, refl, arith, true, Bytes, List, [], ◌∷◌, ◌++◌, none, some}
use gosoulseek.Prelude.Int.{pos}
use gosoulseek.Protocol.Decode.Codec.{encoded}
use gosoulseek.Protocol.Writer.{buffer}
use gosoulseek.Protocol.Reader.{unexpected_eof}
use gosoulseek.Peer.Transfer.{TransferResponse, encode_transfer_response, encode_upload_denied}
use gosoulseek.Connection.{failed, read_payload, read_message}
use gosoulseek.Client.KeyMap.{load, store, nat_key}
use gosoulseek.Client.Queue.{new_queue_manager}
use gosoulseek.Client.Errors.{transfer_rejected}
use gosoulseek.Client.TransferState.{rejected, has}
use gosoulseek.Client.Transfer.{Transfer, new_transfer}
use gosoulseek.Client.Registry.{Registry, new_registry, register, remove, get_by_token}
use gosoulseek.Client.Registry.Invariant.{new_registry-Inv}
use gosoulseek.Client.Registry.Registration.{register-Inv}
use gosoulseek.Client.Search.{new_search_registry}
use gosoulseek.Client.PeerMessages.{PeerState, attempt, peer_failure}
use gosoulseek.Client.PeerMessages.Late.{late_failure_panics}
use gosoulseek.Client.UploadRun.{undecided, wait_for_response, notify_peer_of_failure}
use gosoulseek.Client.UploadRun.Waiting.{wait_for_response_ends}
use gosoulseek.Client.UploadRun.Messages.{failure_notice_unread}

abbrev ann : Bytes
ann = b'a' ∷ []

abbrev bob : Bytes
bob = b'b' ∷ []

-- A download of a file of `ann` is registered.
abbrev one_download : Registry
one_download = (register 0 ann bob 5 (pos 0) new_registry).0

abbrev served : PeerState
served = record {
  uploads = record {
    registry = one_download;
    queue = new_queue_manager;
    transfer_token = 5;
    file_sharer = none;
    validator = none;
  };
  searches = new_search_registry;
}

-- The peer denies the file, twice, and then sends what is no message.
abbrev denial : Bytes
denial = encoded encode_upload_denied (record { filename = bob; reason = ann })

abbrev messages : List (ℕ × Bytes)
messages = (10, denial) ∷ ((11, denial) ∷ ((12, 41 ∷ (0 ∷ (0 ∷ (0 ∷ [])))) ∷ []))

held : get_by_token 5 one_download ≡ some 0
unfolding register get_by_token load new_registry store
held = refl

late_failure_panics_example :
    (l : Registry) × (remove 5 one_download ≡ some l)
    × (attempt (peer_failure 9 rejected (transfer_rejected ann)) 0 l ≡ none)
late_failure_panics_example =
    late_failure_panics 9 rejected 5 0 (transfer_rejected ann) one_download
      (register-Inv 0 5 ann bob (pos 0) new_registry new_registry-Inv) held

abbrev sent_file : Transfer
sent_file = record (new_transfer 1 ann bob 5) { size = pos 9 }

failure_notice_unread_example :
    (read_message (notify_peer_of_failure buffer sent_file [])).0
    ≡ failed (read_payload (some unexpected_eof))
unfolding new_transfer has
failure_notice_unread_example = failure_notice_unread sent_file refl refl (omega arith)

abbrev some_stream : Bytes
some_stream = 2 ∷ (0 ∷ (0 ∷ (0 ∷ (7 ∷ (7 ∷ (1 ∷ []))))))

wait_for_response_ends_example : wait_for_response 5 some_stream ≢ undecided
wait_for_response_ends_example = wait_for_response_ends 5 some_stream

-- The peer says something else first, and then grants the file.
abbrev grant : TransferResponse
grant = record { token = 5; allowed = true; file_size = pos 9; reason = [] }

abbrev grant_message : Bytes
grant_message = encoded encode_transfer_response grant ++ []
