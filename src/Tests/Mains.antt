-- ===== src/Tests/Mains.antt =====
-- A client that restores a file.
use remote_backup_m.Prelude.{◌≡◌, refl, true, false, List, [], ◌∷◌, Bytes, ok, bytes_eq, bytes_beq}
use remote_backup_m.Shared.Message.{Message, msg_type}
use remote_backup_m.Shared.View.{view_of, next_tlv, next_is, tlv_type, value}
use remote_backup_m.Client.Incoming.{arrived, read, read_from, kept, has_end, find_end}
use remote_backup_m.Client.Posting.{
  done, connect, connect_from, handshake, sync_post, write, read_answer, schedule_keepalive,
  cancel_keepalive,
}
use remote_backup_m.Client.Retrieve.{
  retrieve_request, retrieve, before_request, handle_answer, store_reply, copy_contents,
  verify_retrieved, remove_or_exit,
}
use remote_backup_m.Client.Sync.{list_request, listed_signs, list_view, items_from}
use remote_backup_m.Client.Login.{
  Scheduler, auth_request, login, login_from, attempt, ask_fields, ask, auth, new_auth_data,
}
use remote_backup_m.Client.Listing.{restore, retrieve_all}
use remote_backup_m.Shared.Tools.{md5_file, md5_hash, md5_to_string, split_sign, match_and_parse}
use remote_backup_m.Shared.Dir.{find, put}
use remote_backup_m.Client.Main.{restored, connect_and_login, run_main}
use remote_backup_m.Client.Main.Entered.{Reaches, run_main-Reaches}
use remote_backup_m.Tests.Posts
use remote_backup_m.Tests.Logins
use remote_backup_m.Tests.Toy.{toy}

-- The path "a" with a digest.
abbrev sign : Bytes
sign = 97 ∷ 0 ∷ 97 ∷ 7 ∷ []

abbrev launched : Scheduler
launched = record {
  auth_data = Logins.nobody;
  socket = record Posts.idle {
    connects = true ∷ false ∷ [];
    handshakes = false ∷ [];
    writes = done ∷ done ∷ done ∷ [];
    incoming =
        arrived (5 ∷ 4 ∷ 0 ∷ 0 ∷ 3 ∷ 0 ∷ 0 ∷ [])
        ∷ arrived (4 ∷ 2 ∷ 0 ∷ 4 ∷ 97 ∷ 0 ∷ 97 ∷ 7 ∷ 3 ∷ 0 ∷ 0 ∷ [])
        ∷ arrived (6 ∷ 2 ∷ 0 ∷ 4 ∷ 97 ∷ 0 ∷ 97 ∷ 7 ∷ 6 ∷ 0 ∷ 1 ∷ 7 ∷ 3 ∷ 0 ∷ 0 ∷ [])
        ∷ [];
  };
  cin = (117 ∷ []) ∷ (113 ∷ []) ∷ [];
}

abbrev requests : List Message
requests = auth_request (117 ∷ []) (113 ∷ []) ∷ list_request ∷ retrieve_request sign ∷ []

restored_file :
    run_main toy (λ regex word. true) true 4 (114 ∷ []) launched []
    ≡ ok (
        restored
          (record Posts.idle { sent = requests; keepalive = true })
          ((114 ∷ 47 ∷ 97 ∷ [], 7 ∷ []) ∷ []))
unfolding run_main connect_and_login connect connect_from handshake login login_from attempt
    ask_fields ask auth new_auth_data sync_post write read_answer schedule_keepalive
    cancel_keepalive read read_from kept has_end find_end view_of next_tlv next_is tlv_type value
    msg_type restore retrieve_all listed_signs list_view items_from retrieve before_request
    handle_answer store_reply copy_contents verify_retrieved remove_or_exit md5_file md5_hash
    md5_to_string split_sign match_and_parse find put bytes_beq
restored_file = refl

run_main-Reaches_example :
    Reaches toy
      (λ regex word. true)
      true
      launched.socket
      (restored
        (record Posts.idle { sent = requests; keepalive = true })
        ((114 ∷ 47 ∷ 97 ∷ [], 7 ∷ []) ∷ []))
run_main-Reaches_example =
    run_main-Reaches toy (λ regex word. true) true 4 (114 ∷ []) launched [] _ restored_file
