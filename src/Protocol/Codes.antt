-- ===== src/Protocol/Codes.antt =====
-- protocol/codes.go: the message codes. The constants of each Go type are the constructors of a data
-- type, and a function gives their values.
pub mod Injective
pub mod Bounds
use gosoulseek.Prelude.{ℕ}

pub data ServerCode : Type 0 where
  login set_listen_port get_peer_address watch_user unwatch_user get_status : ServerCode
  say_in_chat_room join_room leave_room user_joined_room user_left_room : ServerCode
  connect_to_peer private_message acknowledge_private_msg file_search : ServerCode
  set_online_status ping send_speed shared_folders_and_files get_user_stats : ServerCode
  kicked_from_server user_search room_list global_admin_message privileged_users : ServerCode
  have_no_parents parents_ip check_privileges embedded_message accept_children : ServerCode
  net_info wishlist_search room_tickers room_search send_upload_speed user_privileges : ServerCode
  give_privileges notify_privileges branch_level branch_root child_depth : ServerCode
  distributed_reset private_room_users private_room_add_user private_room_remove_user : ServerCode
  private_room_toggle new_password private_room_add_operator public_chat : ServerCode
  cannot_connect : ServerCode

unfoldable pub server_code : ServerCode → ℕ
server_code login = 1
server_code set_listen_port = 2
server_code get_peer_address = 3
server_code watch_user = 5
server_code unwatch_user = 6
server_code get_status = 7
server_code say_in_chat_room = 13
server_code join_room = 14
server_code leave_room = 15
server_code user_joined_room = 16
server_code user_left_room = 17
server_code connect_to_peer = 18
server_code private_message = 22
server_code acknowledge_private_msg = 23
server_code file_search = 26
server_code set_online_status = 28
server_code ping = 32
server_code send_speed = 34
server_code shared_folders_and_files = 35
server_code get_user_stats = 36
server_code kicked_from_server = 41
server_code user_search = 42
server_code room_list = 64
server_code global_admin_message = 66
server_code privileged_users = 69
server_code have_no_parents = 71
server_code parents_ip = 73
server_code check_privileges = 92
server_code embedded_message = 93
server_code accept_children = 100
server_code net_info = 102
server_code wishlist_search = 103
server_code room_tickers = 113
server_code room_search = 120
server_code send_upload_speed = 121
server_code user_privileges = 122
server_code give_privileges = 123
server_code notify_privileges = 124
server_code branch_level = 126
server_code branch_root = 127
server_code child_depth = 129
server_code distributed_reset = 130
server_code private_room_users = 133
server_code private_room_add_user = 134
server_code private_room_remove_user = 135
server_code private_room_toggle = 141
server_code new_password = 142
server_code private_room_add_operator = 143
server_code public_chat = 152
server_code cannot_connect = 1001

pub data PeerCode : Type 0 where
  browse_request browse_response search_response info_request info_response : PeerCode
  folder_contents_request folder_contents_resp transfer_request transfer_response : PeerCode
  queue_download place_in_queue_response upload_failed upload_denied : PeerCode
  place_in_queue_request : PeerCode

unfoldable pub peer_code : PeerCode → ℕ
peer_code browse_request = 4
peer_code browse_response = 5
peer_code search_response = 9
peer_code info_request = 15
peer_code info_response = 16
peer_code folder_contents_request = 36
peer_code folder_contents_resp = 37
peer_code transfer_request = 40
peer_code transfer_response = 41
peer_code queue_download = 43
peer_code place_in_queue_response = 44
peer_code upload_failed = 46
peer_code upload_denied = 50
peer_code place_in_queue_request = 51

pub data DistributedCode : Type 0 where
  ping search_request branch_level branch_root child_depth embedded_message : DistributedCode

unfoldable distributed_code : DistributedCode → ℕ
distributed_code ping = 0
distributed_code search_request = 3
distributed_code branch_level = 4
distributed_code branch_root = 5
distributed_code child_depth = 7
distributed_code embedded_message = 93

pub data InitCode : Type 0 where
  pierce_firewall peer_init : InitCode

unfoldable pub init_code : InitCode → ℕ
init_code pierce_firewall = 0
init_code peer_init = 1
