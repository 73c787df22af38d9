-- ===== src/Server/Handler/Unanswered.antt =====
-- Requests whose reply cannot be closed, since the queue of their type has no message.
use remote_backup_m.Prelude.{
  ℕ, ◌≡◌, Bool, true, not, ◌&&◌, ◌||◌, List, [], ◌∷◌, err, undefined_behaviour, arith, Eq, ◌==◌,
}
use remote_backup_m.Shared.Types.{MsgType, msg_code, ErrType}
use remote_backup_m.Shared.Message.{Message, Tlv, encode_all, msg_type-cons}
use remote_backup_m.Shared.View.{View, view_of}
use remote_backup_m.Shared.View.Walk.{view_of-Rest, next_tlv-encode, next_tlv-nil}
use remote_backup_m.Shared.Platform.{Platform}
use remote_backup_m.Server.Queue.{new_queue, add_tlv, push_tlv}
use remote_backup_m.Server.Session.{Session, refuse, close_response}
use remote_backup_m.Server.Handler.{handle_request, dispatch, handle_synced}

-- NONE always, and RETRIEVE before the user has listed his files.
abbrev pub unanswered : Bool → Bool → ℕ → Bool
unanswered auth synced t =
    t == msg_code MsgType.none || (t == msg_code MsgType.retrieve && not (auth && synced))

new_queue-empty :
    (auth synced : Bool) (t : ℕ) → unanswered auth synced t ≡ true → (new_queue t).msgs ≡ []
unfolding new_queue
new_queue-empty auth synced t u = ground arith

module _ (P : Platform) ⦃e : Eq P.FsPath⦄ (root credentials : P.FsPath) where
  refuse-empty :
      (err_type : ErrType) (s : Session P)
      → s.replies.msgs ≡ []
      → refuse P err_type s ≡ err undefined_behaviour
  unfolding refuse close_response add_tlv push_tlv
  refuse-empty err_type s h = rw h

  dispatch-empty :
      (t : ℕ) (v : View) (s : Session P)
      → s.replies.msgs ≡ []
      → unanswered s.user.auth s.user.synced t ≡ true
      → dispatch P root credentials t v s ≡ err undefined_behaviour
  unfolding dispatch handle_synced
  dispatch-empty t v s h u = let r = refuse-empty ErrType.msg_type_rejected s h in ground arith

  -- A well-formed request of type NONE, and one of type RETRIEVE from a user who is not
  -- authenticated or has not listed his files, makes the server use the back of an empty queue.
  pub handle_request-unanswered :
      (request : Message) (s : Session P) (t : ℕ) (ts : List Tlv)
      → request.raw ≡ t ∷ encode_all ts
      → unanswered s.user.auth s.user.synced t ≡ true
      → handle_request P root credentials request s ≡ err undefined_behaviour
  unfolding handle_request
  handle_request-unanswered request s t [] w u =
      let r = view_of-Rest request t [] w in
      let q = new_queue-empty s.user.auth s.user.synced t u in
      rw (msg_type-cons request t [] w, next_tlv-nil (view_of request) r)
        (refuse-empty ErrType.no_content (record s { replies = new_queue t }) q)
  handle_request-unanswered request s t (x ∷ ts) w u =
      let r = view_of-Rest request t (encode_all (x ∷ ts)) w in
      let q = new_queue-empty s.user.auth s.user.synced t u in
      rw
        (
          msg_type-cons request t (encode_all (x ∷ ts)) w,
          next_tlv-encode (view_of request) x (encode_all ts) r,
        )
        (dispatch-empty t _ (record s { replies = new_queue t }) q u)
