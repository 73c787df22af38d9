-- ===== src/Server/Handler/Gate.antt =====
-- Which requests are served, by what the user has done before.
use remote_backup_m.Prelude.{
  ℕ, ◌≡◌, ◌⊎◌, inl, inr, ap, ◌∙◌, Bool, true, false, not, Bytes, ok, ◌>>=◌, Post, Post-if,
  Post-bind, arith, Eq, ◌==◌, if◌then◌else◌,
}
use remote_backup_m.Shared.Types.{MsgType, msg_code, TlvType, tlv_code, ErrType}
use remote_backup_m.Shared.Message.{Message, msg_type}
use remote_backup_m.Shared.View.{View, view_of, next_tlv, tlv_type, value}
use remote_backup_m.Shared.Platform.{Platform}
use remote_backup_m.Shared.Tools.{verify_password}
use remote_backup_m.Server.Queue.{new_queue}
use remote_backup_m.Server.Session.{Session, refuse}
use remote_backup_m.Shared.View.{next_is}
use remote_backup_m.Server.Session.Frame.{Same, accept-Same, refuse-Same}
use remote_backup_m.Server.Handler.{handle_request, dispatch}
use remote_backup_m.Server.Handler.Auth.{handle_auth, check_password, authenticated}

-- The requests that may change something: AUTH before the user is authenticated, LIST between that
-- and the first list, and any other request afterwards.
abbrev pub may_change : Bool → Bool → ℕ → Bool
may_change auth synced t =
    if not auth
    then t == msg_code MsgType.auth
    else if not synced
    then t == msg_code MsgType.list
    else true

module _ (P : Platform) ⦃e : Eq P.FsPath⦄ (root credentials : P.FsPath) where
  Same-fresh :
      (s s' : Session P) (t : ℕ) → Same P (record s { replies = new_queue t }) s' → Same P s s'
  Same-fresh s s' t h = record { disk = h.disk; streams = h.streams; user = h.user }

  dispatch-Same :
      (t : ℕ) (v : View) (s : Session P)
      → may_change s.user.auth s.user.synced t ≡ false
      → Post (Same P s) (dispatch P root credentials t v s)
  unfolding dispatch
  dispatch-Same t v s h =
      Post-if (not s.user.auth)
        (λ a.
          Post-if (t == msg_code MsgType.auth) (λ b. absurd (ground arith))
            (λ _. refuse-Same P ErrType.msg_type_rejected s))
        (λ a.
          Post-if (not s.user.synced)
            (λ b.
              Post-if (t == msg_code MsgType.list) (λ c. absurd (ground arith))
                (λ _. refuse-Same P ErrType.msg_type_rejected s))
            (λ b. absurd (ground arith)))

  -- A request of a type that the user's state does not admit, if it gets a reply, changes no file,
  -- no stream and nothing of the user, whatever it contains: only AUTH is admitted before the user
  -- is authenticated, and only LIST after that and before the first list.
  pub handle_request-Same :
      (request : Message) (s s' : Session P) (t : ℕ)
      → msg_type request ≡ ok t
      → may_change s.user.auth s.user.synced t ≡ false
      → handle_request P root credentials request s ≡ ok s'
      → Same P s s'
  unfolding handle_request
  handle_request-Same request s s' t m h served = Same-fresh s s' t (post.get s' (rw m at served))
    where
      fresh : Session P
      fresh = record s { replies = new_queue t }

      post : Post (Same P fresh) (
          next_tlv (view_of request) >>= λ r.
          if r.1
          then dispatch P root credentials t r.0 fresh
          else refuse P ErrType.no_content fresh)
      post = Post-bind (next_tlv (view_of request)) λ r _.
          Post-if r.1 (λ _. dispatch-Same t r.0 fresh h)
            (λ _. refuse-Same P ErrType.no_content fresh)

  -- The user is as he was, or a password was verified for the name that he has now.
  pub record Authenticates (s s' : Session P) : Type 0 where
    pub disk : s'.disk ≡ s.disk
    pub streams : s'.streams ≡ s.streams
    pub user :
        (s'.user ≡ s.user)
        ⊎ ((username : Bytes) × (password : Bytes) × (verify_password P credentials username
                password s.disk
              ≡ ok true)
            × (s'.user ≡ authenticated P root credentials username s.user))

  Same-Authenticates : (s s' : Session P) → Same P s s' → Authenticates s s'
  Same-Authenticates s s' h = record { disk = h.disk; streams = h.streams; user = inl h.user }

  refuse-Authenticates :
      (err_type : ErrType) (s : Session P) → Post (Authenticates s) (refuse P err_type s)
  refuse-Authenticates err_type s = record {
    get = λ s' h. Same-Authenticates s s' ((refuse-Same P err_type s).get s' h);
  }

  check_password-Authenticates :
      (username password : Bytes) (s : Session P)
      → Post (Authenticates s) (check_password P root credentials username password s)
  unfolding check_password
  check_password-Authenticates username password s =
      Post-bind (verify_password P credentials username password s.disk) λ verified h.
        Post-if verified
          (λ b.
            let u = authenticated P root credentials username s.user in
            let h' : verify_password P credentials username password s.disk ≡ ok true =
              h ∙ ap ok b in
            record {
              get = λ s' k.
                  let same = (accept-Same P (record s { user = u })).get s' k in
                  record {
                    disk = same.disk;
                    streams = same.streams;
                    user = inr (username, password, h', same.user);
                  };
            })
          (λ _. refuse-Authenticates ErrType.auth_failed s)

  -- AUTH touches no file and no stream, and changes the user only where the password that the
  -- request carries was verified.
  pub handle_auth-Authenticates :
      (v : View) (s : Session P) → Post (Authenticates s) (handle_auth P root credentials v s)
  unfolding handle_auth
  handle_auth-Authenticates v s = Post-bind (tlv_type v) λ t _.
      Post-if (not (t == tlv_code TlvType.usrn)) (λ _. refuse-Authenticates ErrType.auth_no_usrn s)
        (λ _. Post-bind (value v) λ username _. Post-bind (next_is TlvType.pswd v) λ r _.
          Post-if (not r.1) (λ _. refuse-Authenticates ErrType.auth_no_pswd s)
            (λ _.
              Post-bind (value r.0) λ password _. check_password-Authenticates username password s))

  dispatch-Authenticates :
      (t : ℕ) (v : View) (s : Session P)
      → s.user.auth ≡ false
      → Post (Authenticates s) (dispatch P root credentials t v s)
  unfolding dispatch
  dispatch-Authenticates t v s a =
      Post-if (not s.user.auth)
        (λ _.
          Post-if (t == msg_code MsgType.auth) (λ _. handle_auth-Authenticates v s)
            (λ _. refuse-Authenticates ErrType.msg_type_rejected s))
        (λ b. absurd (ground arith))

  Authenticates-fresh :
      (s s' : Session P) (t : ℕ)
      → Authenticates (record s { replies = new_queue t }) s'
      → Authenticates s s'
  Authenticates-fresh s s' t h = record { disk = h.disk; streams = h.streams; user = h.user }

  -- Whatever a user who is not authenticated sends, if it gets a reply, no file and no stream
  -- changes, and his record stays or becomes the one that is authenticated under a name for which
  -- the server verified a password.
  pub handle_request-Authenticates :
      (request : Message) (s s' : Session P)
      → s.user.auth ≡ false
      → handle_request P root credentials request s ≡ ok s'
      → Authenticates s s'
  unfolding handle_request
  handle_request-Authenticates request s s' a served = post.get s' served
    where
      post : Post (Authenticates s) (
          msg_type request >>= λ t. next_tlv (view_of request) >>= λ r.
          if r.1
          then dispatch P root credentials t r.0 (record s { replies = new_queue t })
          else refuse P ErrType.no_content (record s { replies = new_queue t }))
      post = Post-bind (msg_type request) λ t _.
          let fresh : Session P = record s { replies = new_queue t } in
          Post-bind (next_tlv (view_of request)) λ r _.
            Post-if r.1
              (λ _. record {
                get = λ u h.
                    Authenticates-fresh s u t ((dispatch-Authenticates t r.0 fresh a).get u h);
              })
              (λ _. record {
                get = λ u h.
                    Authenticates-fresh s u t
                      ((refuse-Authenticates ErrType.no_content fresh).get u h);
              })
