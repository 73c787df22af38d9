-- ===== src/Tests/Logins.antt =====
-- A client that logs in.
use remote_backup_m.Prelude.{◌≡◌, refl, true, false, [], ◌∷◌, ok}
use remote_backup_m.Shared.View.{view_of, next_tlv, next_is, tlv_type}
use remote_backup_m.Client.Incoming.{arrived, read, read_from, kept, has_end, find_end}
use remote_backup_m.Client.Posting.{
  done, sync_post, write, read_answer, schedule_keepalive, cancel_keepalive,
}
use remote_backup_m.Client.Login.{
  AuthData, Scheduler, login, login_from, attempt, ask_fields, ask, auth, auth_request,
  new_auth_data,
}
use remote_backup_m.Client.Login.Bounded.{Tries, login-Tries}
use remote_backup_m.Tests.Posts

abbrev pub nobody : AuthData
nobody = record { username = []; password = []; authenticated = false }

-- The server refuses the first request and accepts the second.
abbrev before : Scheduler
before = record {
  auth_data = nobody;
  socket = record Posts.idle {
    writes = done ∷ done ∷ [];
    incoming =
        arrived (5 ∷ 5 ∷ 0 ∷ 3 ∷ 53 ∷ 48 ∷ 51 ∷ 3 ∷ 0 ∷ 0 ∷ [])
        ∷ arrived (5 ∷ 4 ∷ 0 ∷ 0 ∷ 3 ∷ 0 ∷ 0 ∷ [])
        ∷ [];
  };
  cin = (117 ∷ []) ∷ (112 ∷ []) ∷ (117 ∷ []) ∷ (113 ∷ []) ∷ [];
}

abbrev after : Scheduler
after = record {
  auth_data = record { username = 117 ∷ []; password = 113 ∷ []; authenticated = true };
  socket = record Posts.idle {
    sent = auth_request (117 ∷ []) (112 ∷ []) ∷ auth_request (117 ∷ []) (113 ∷ []) ∷ [];
    keepalive = true;
  };
  cin = [];
}

entered : login (λ regex word. true) before ≡ ok (true, after)
unfolding login login_from attempt ask_fields ask auth new_auth_data sync_post write read_answer
    schedule_keepalive cancel_keepalive read read_from kept has_end find_end view_of next_tlv
    next_is tlv_type
entered = refl

login-Tries_example : Tries (λ regex word. true) 3 before (true, after)
login-Tries_example = login-Tries (λ regex word. true) before (true, after) entered
