-- ===== src/Client/Login.antt =====
-- client/core/auth_data.cpp, and `login`, `auth` and `reconnect` of client/core/scheduler.cpp.
pub mod Attempts
pub mod Bounded
use remote_backup_m.Prelude.{
  ℕ, zero, suc, Bool, true, false, not, ◌&&◌, List, [], ◌∷◌, ◌++◌, Bytes, length, ascii, Option,
  none, some, Outcome, ok, err, exit_failure, ◌>>=◌, deref, if◌then◌else◌,
}
use remote_backup_m.Shared.Types.{MsgType, msg_code, TlvType, tlv_code}
use remote_backup_m.Shared.Message.{Message, new_message, add_tlv}
use remote_backup_m.Shared.View.{view_of, next_is}
use remote_backup_m.Client.Resource.{Tribool, yes, no, indeterminate}
use remote_backup_m.Client.Incoming.{Answer}
use remote_backup_m.Client.Posting.{Socket, sync_post, cancel_keepalive, connect}

-- The getters and the setter are the fields.
pub record AuthData : Type 0 where
  pub username : Bytes
  pub password : Bytes
  pub authenticated : Bool

unfoldable pub new_auth_data : Bytes → Bytes → AuthData
new_auth_data username password = record {
  username = username;
  password = password;
  authenticated = false;
}

-- `cin` has the words that the user types before the end of the input.
pub record Scheduler : Type 0 where
  pub auth_data : AuthData
  pub socket : Socket
  pub cin : List Bytes

abbrev pub username_regex : Bytes
username_regex = ascii "[a-z][a-z\\d_\\.]{7, 15}"

abbrev pub password_regex : Bytes
password_regex = ascii "[a-zA-Z\\d\\-\\.@$!%*?&]{8, 16}"

-- `matches` is `boost::regex_match`.
module _ (matches : Bytes → Bytes → Bool) where
  -- A word that matches, within so many attempts. Behind the end of the input each one fails.
  unfoldable pub ask : ℕ → Bytes → List Bytes → Option Bytes × List Bytes
  ask zero regex words = (none, words)
  ask (suc field_attempts) regex [] = ask field_attempts regex []
  ask (suc field_attempts) regex (word ∷ words) =
      let again = ask field_attempts regex words in
      if matches regex word then (some word, words) else again

unfoldable pub auth_request : Bytes → Bytes → Message
auth_request username password = add_tlv (tlv_code TlvType.end) 0 [] (
    add_tlv (tlv_code TlvType.pswd) (length password) password (
      add_tlv (tlv_code TlvType.usrn) (length username) username
        (new_message (msg_code MsgType.auth))))

abbrev pub check_answer : Answer → Outcome Bool
check_answer (indeterminate, m) = err exit_failure
check_answer (no, m) = ok false
check_answer (yes, m) =
    deref m >>= λ response. next_is TlvType.ok (view_of response) >>= λ r. ok r.1

unfoldable pub auth : AuthData → Socket → Outcome (Bool × AuthData × Socket)
auth usr socket = do
  response ← sync_post (auth_request usr.username usr.password) socket
  accepted ← check_answer response.0
  ok (
    accepted,
    record usr { authenticated = if accepted then true else usr.authenticated },
    response.1,
  )

module _ (matches : Bytes → Bytes → Bool) where
  -- What was typed for the two fields, or `none` behind the third failure for one.
  unfoldable pub ask_fields : List Bytes → Option (Bytes × Bytes) × List Bytes
  ask_fields words =
      let (username, words') = ask matches 3 username_regex words in
      let (password, words'') = ask matches 3 password_regex words' in
      elim username [
        | none ↦ (none, words')
        | some u ↦ (elim password [ none ↦ (none, words'') | some p ↦ (some (u, p), words'') ])
      ]

  -- The result of an attempt: the loop ends with this value, or it goes on.
  unfoldable pub attempt : Scheduler → Outcome (Option Bool × Scheduler)
  attempt s =
      let (fields, words) = ask_fields s.cin in
      elim fields [
        | none ↦ ok (some false, record s { cin = words })
        | some (username, password) ↦ do
          (accepted, usr, socket) ← auth (new_auth_data username password) s.socket
          ok (
              if accepted
              then (some true, record { auth_data = usr; socket = socket; cin = words })
              else (none, record s { socket = cancel_keepalive socket; cin = words }))
      ]

  unfoldable pub login_from : ℕ → Scheduler → Outcome (Bool × Scheduler)
  login_from zero s = ok (false, s)
  login_from (suc general_attempts) s = attempt s >>= λ r. elim r.0 [
    | some done ↦ ok (done, r.1)
    | none ↦ login_from general_attempts r.1
  ]

  unfoldable pub login : Scheduler → Outcome (Bool × Scheduler)
  login s = login_from 3 s

  -- Up to the call of `sync`: the second component is whether it is called.
  unfoldable pub reconnect : Scheduler → Outcome (Scheduler × Bool)
  reconnect s = do
    socket ← connect s.socket
    if not s.auth_data.authenticated then ok (record s { socket = socket }, false) else do
      (accepted, usr, socket') ← auth s.auth_data socket
      let s' = record s { auth_data = usr; socket = socket' }
      if accepted
          then ok (s', true)
          else do (entered, s'') ← login s'; if entered then ok (s'', true) else err exit_failure
