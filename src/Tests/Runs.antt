-- ===== src/Tests/Runs.antt =====
-- Requests served on the toy platform.
use remote_backup_m.Prelude.{
  ℕ, ◌≡◌, refl, true, false, [], ◌∷◌, Bytes, some, none, ok, err, undefined_behaviour, bytes_eq,
  bytes_beq, arith,
}
use remote_backup_m.Shared.Types.{TlvType, ErrType}
use remote_backup_m.Shared.Message.{Message, Tlv, encode_all, encode, new_message, msg_type, size}
use remote_backup_m.Shared.Message
use remote_backup_m.Shared.View.{view_of, next_tlv, tlv_type, value}
use remote_backup_m.Shared.Decimal.{pos, stoi, to_string}
use remote_backup_m.Shared.Dir.{find}
use remote_backup_m.Shared.Tools.{verify_password, sha512_hash, check_lines, lines, md5_hash}
use remote_backup_m.Server.User.{User, set_dir}
use remote_backup_m.Server.Session.{Session, accept, refuse, close_response, error_text}
use remote_backup_m.Shared.View.{next_is}
use remote_backup_m.Server.Session.Frame.{Same}
use remote_backup_m.Server.Session.Closed.{Closed, close_response-ok}
use remote_backup_m.Server.Queue.{new_queue, Queue, add_tlv, push_tlv, note_error}
use remote_backup_m.Server.Queue.Holds.{Added, new_queue-Holds, add_tlv-plain, add_tlv-error}
use remote_backup_m.Server.Handler.{handle_request, dispatch}
use remote_backup_m.Server.Handler.Auth.{handle_auth, check_password, authenticated}
use remote_backup_m.Server.Handler.Gate.{
  handle_request-Same, Authenticates, handle_request-Authenticates,
}
use remote_backup_m.Server.Handler.Unanswered.{handle_request-unanswered}
use remote_backup_m.Tests.Toy.{toy, Files}

abbrev item : Tlv
item = record { tag = 2; value = 97 ∷ 0 ∷ 97 ∷ 120 ∷ 121 ∷ [] }

add_tlv-plain_example : Added (new_queue 1) [] item (new_queue 1).err_type
add_tlv-plain_example =
    add_tlv-plain (new_queue 1) [] item (new_queue-Holds 1 (omega arith) (omega arith))
      (omega arith, omega arith) (omega arith)

abbrev error_101 : Tlv
error_101 = record { tag = 5; value = 49 ∷ 48 ∷ 49 ∷ [] }

stoi-101 : stoi error_101.value ≡ ok (pos 101)
unfolding stoi
stoi-101 = refl

add_tlv-error_example : Added (new_queue 1) [] error_101 (pos 101)
add_tlv-error_example =
    add_tlv-error (new_queue 1) [] error_101 (pos 101)
      (new_queue-Holds 1 (omega arith) (omega arith)) (omega arith, omega arith) refl stoi-101

ok-Closed : Closed toy (new_queue 1) [] TlvType.ok ErrType.none (new_queue 1).err_type
ok-Closed = close_response-ok toy (new_queue 1) [] (new_queue-Holds 1 (omega arith) (omega arith))

-- A user of whom nothing is known yet, and credentials "u\tp" in the file "c".
abbrev pub stranger : User Bytes
stranger = record { id = []; username = []; ip = []; auth = false; synced = false; dir_ptr = none }

abbrev pub disk : Files
disk = (99 ∷ [], 117 ∷ 9 ∷ 112 ∷ []) ∷ []

abbrev pub start : Session toy
start = record { disk = disk; streams = []; user = stranger; replies = new_queue 0 }

abbrev pub replied : ℕ → Bytes → ℕ → Queue
replied t raw code = record { msgs = record { raw = raw } ∷ []; msg_type = t; err_type = pos code }

abbrev create_request : Message
create_request = record {
  raw =
      1
      ∷ encode_all
          (item ∷ record { tag = 6; value = 120 ∷ 121 ∷ [] } ∷ record { tag = 3; value = [] } ∷ []);
}

abbrev refused : Session toy
refused = record start { replies = replied 1 (1 ∷ 5 ∷ 0 ∷ 1 ∷ 50 ∷ 3 ∷ 0 ∷ 0 ∷ []) 2 }

create-refused : handle_request toy (114 ∷ []) (99 ∷ []) create_request start ≡ ok refused
unfolding handle_request msg_type view_of next_tlv dispatch refuse close_response error_text add_tlv
    push_tlv note_error new_queue new_message size Message.add_tlv stoi to_string
create-refused = refl

create-type : msg_type create_request ≡ ok 1
unfolding msg_type
create-type = refl

handle_request-Same_example : Same toy start refused
handle_request-Same_example =
    handle_request-Same toy (114 ∷ []) (99 ∷ []) create_request start refused 1 create-type refl
      create-refused

-- "u" with the password "p".
abbrev pub auth_request : Message
auth_request = record {
  raw =
      5
      ∷ encode_all (
          record { tag = 0; value = 117 ∷ [] }
          ∷ record { tag = 1; value = 112 ∷ 120 ∷ [] }
          ∷ record { tag = 3; value = [] }
          ∷ []);
}

abbrev pub welcomed : Session toy
welcomed = record start {
  user = record {
    id = 117 ∷ [];
    username = 117 ∷ [];
    ip = [];
    auth = true;
    synced = false;
    dir_ptr =
        some (record { path = 114 ∷ 47 ∷ 117 ∷ []; content = []; concurrent_accessed = false });
  };
  replies = replied 5 (5 ∷ 4 ∷ 0 ∷ 0 ∷ 3 ∷ 0 ∷ 0 ∷ []) 0;
}

pub auth-welcomed : handle_request toy (114 ∷ []) (99 ∷ []) auth_request start ≡ ok welcomed
unfolding handle_request msg_type view_of next_tlv tlv_type value next_is dispatch handle_auth
    check_password authenticated set_dir md5_hash verify_password sha512_hash check_lines lines find
    bytes_beq accept close_response error_text add_tlv push_tlv note_error new_queue new_message
    size Message.add_tlv stoi to_string
auth-welcomed = refl

handle_request-Authenticates_example : Authenticates toy (114 ∷ []) (99 ∷ []) start welcomed
handle_request-Authenticates_example =
    handle_request-Authenticates toy (114 ∷ []) (99 ∷ []) auth_request start welcomed refl
      auth-welcomed

handle_request-unanswered_example :
    handle_request toy (114 ∷ []) (99 ∷ []) (record { raw = 6 ∷ encode_all (item ∷ []) }) start
    ≡ err undefined_behaviour
handle_request-unanswered_example =
    handle_request-unanswered toy (114 ∷ []) (99 ∷ []) _ start 6 (item ∷ []) refl refl
