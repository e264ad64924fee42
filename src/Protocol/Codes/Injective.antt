-- ===== src/Protocol/Codes/Injective.antt =====
-- The codes of protocol/codes.go are distinct within each family, so a message is told by its code.
use gosoulseek.Prelude.{ℕ, ◌≡◌, refl, ap, Option, none, some, ◌==◌, if◌then◌else◌}
use gosoulseek.Prelude.{List, [], ◌∷◌}
use gosoulseek.Protocol.Codes.{ServerCode, PeerCode, server_code, peer_code}

module _ {C : Type 0} (code : C → ℕ) where
  -- The first listed constant with the code `n`.
  find : ℕ → List C → Option C
  find n [] = none
  find n (c ∷ cs) = if code c == n then some c else find n cs

  injective_of_find :
      (cs : List C) → ((c : C) → find (code c) cs ≡ some c) → (c d : C) → code c ≡ code d → c ≡ d
  injective_of_find cs found c d e = cc (found c, found d, ap (λ (n : ℕ). find n cs) e)

all_server : List ServerCode
all_server =
    ServerCode.login ∷ ServerCode.set_listen_port ∷ ServerCode.get_peer_address
    ∷ ServerCode.watch_user ∷ ServerCode.unwatch_user ∷ ServerCode.get_status
    ∷ ServerCode.say_in_chat_room ∷ ServerCode.join_room ∷ ServerCode.leave_room
    ∷ ServerCode.user_joined_room ∷ ServerCode.user_left_room ∷ ServerCode.connect_to_peer
    ∷ ServerCode.private_message ∷ ServerCode.acknowledge_private_msg ∷ ServerCode.file_search
    ∷ ServerCode.set_online_status ∷ ServerCode.ping ∷ ServerCode.send_speed
    ∷ ServerCode.shared_folders_and_files ∷ ServerCode.get_user_stats
    ∷ ServerCode.kicked_from_server ∷ ServerCode.user_search ∷ ServerCode.room_list
    ∷ ServerCode.global_admin_message ∷ ServerCode.privileged_users ∷ ServerCode.have_no_parents
    ∷ ServerCode.parents_ip ∷ ServerCode.check_privileges ∷ ServerCode.embedded_message
    ∷ ServerCode.accept_children ∷ ServerCode.net_info ∷ ServerCode.wishlist_search
    ∷ ServerCode.room_tickers ∷ ServerCode.room_search ∷ ServerCode.send_upload_speed
    ∷ ServerCode.user_privileges ∷ ServerCode.give_privileges ∷ ServerCode.notify_privileges
    ∷ ServerCode.branch_level ∷ ServerCode.branch_root ∷ ServerCode.child_depth
    ∷ ServerCode.distributed_reset ∷ ServerCode.private_room_users
    ∷ ServerCode.private_room_add_user ∷ ServerCode.private_room_remove_user
    ∷ ServerCode.private_room_toggle ∷ ServerCode.new_password
    ∷ ServerCode.private_room_add_operator ∷ ServerCode.public_chat ∷ ServerCode.cannot_connect ∷ []

find-server_code : (c : ServerCode) → find server_code (server_code c) all_server ≡ some c
unfolding find server_code all_server
find-server_code ServerCode.login = refl
find-server_code _ = refl

pub server_code-injective : (c d : ServerCode) → server_code c ≡ server_code d → c ≡ d
server_code-injective = injective_of_find server_code all_server find-server_code

all_peer : List PeerCode
all_peer =
    PeerCode.browse_request ∷ PeerCode.browse_response ∷ PeerCode.search_response
    ∷ PeerCode.info_request ∷ PeerCode.info_response ∷ PeerCode.folder_contents_request
    ∷ PeerCode.folder_contents_resp ∷ PeerCode.transfer_request ∷ PeerCode.transfer_response
    ∷ PeerCode.queue_download ∷ PeerCode.place_in_queue_response ∷ PeerCode.upload_failed
    ∷ PeerCode.upload_denied ∷ PeerCode.place_in_queue_request ∷ []

find-peer_code : (c : PeerCode) → find peer_code (peer_code c) all_peer ≡ some c
unfolding find peer_code all_peer
find-peer_code PeerCode.browse_request = refl
find-peer_code _ = refl

pub peer_code-injective : (c d : PeerCode) → peer_code c ≡ peer_code d → c ≡ d
peer_code-injective = injective_of_find peer_code all_peer find-peer_code

-- No two server messages share a code, and no two peer messages share a code.
pub codes_injective :
    ((c d : ServerCode) → server_code c ≡ server_code d → c ≡ d)
    × ((c d : PeerCode) → peer_code c ≡ peer_code d → c ≡ d)
codes_injective = (server_code-injective, peer_code-injective)
