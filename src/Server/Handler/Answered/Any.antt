-- ===== src/Server/Handler/Answered/Any.antt =====
-- A request that is served leaves a reply in the queue.
use remote_backup_m.Prelude.{ℕ, ◌≡◌, ◌==◌, ok, not, Eq, Post, Post-if, Post-bind}
use remote_backup_m.Shared.Types.{MsgType, msg_code, ErrType}
use remote_backup_m.Shared.Message.{Message, msg_type}
use remote_backup_m.Shared.View.{View, view_of, next_tlv}
use remote_backup_m.Shared.Platform.{Platform}
use remote_backup_m.Server.Queue.{new_queue}
use remote_backup_m.Server.Session.{Session}
use remote_backup_m.Server.Handler.{handle_request, dispatch, handle_synced}
use remote_backup_m.Server.Handler.Answered.{
  Answered, accept-Answered, refuse-Answered, handle_auth-Answered, handle_list-Answered,
  handle_retrieve-Answered,
}
use remote_backup_m.Server.Handler.Answered.Files.{
  handle_create-Answered, handle_update-Answered, handle_erase-Answered,
}

module _ (P : Platform) ⦃e : Eq P.FsPath⦄ (root credentials : P.FsPath) where
  handle_synced-Answered :
      (t : ℕ) (v : View) (s : Session P)
      → Post (Answered P) (handle_synced P root credentials t v s)
  unfolding handle_synced
  handle_synced-Answered t v s =
      Post-if (t == msg_code MsgType.create) (λ _. handle_create-Answered P v s)
        λ _.
          Post-if (t == msg_code MsgType.update) (λ _. handle_update-Answered P v s)
            λ _.
              Post-if (t == msg_code MsgType.erase) (λ _. handle_erase-Answered P v s)
                λ _.
                  Post-if (t == msg_code MsgType.retrieve) (λ _. handle_retrieve-Answered P v s)
                    λ _.
                      Post-if (t == msg_code MsgType.keep_alive) (λ _. accept-Answered P s)
                        λ _. refuse-Answered P ErrType.msg_type_rejected s

  dispatch-Answered :
      (t : ℕ) (v : View) (s : Session P) → Post (Answered P) (dispatch P root credentials t v s)
  unfolding dispatch
  dispatch-Answered t v s =
      let rejected = refuse-Answered P ErrType.msg_type_rejected s in
      Post-if (not s.user.auth)
        (λ _.
          Post-if (t == msg_code MsgType.auth) (λ _. handle_auth-Answered P root credentials v s)
            (λ _. rejected))
        (λ _.
          Post-if (not s.user.synced)
            (λ _.
              Post-if (t == msg_code MsgType.list) (λ _. handle_list-Answered P s) (λ _. rejected))
            (λ _. handle_synced-Answered t v s))

  -- Whatever a request is, if `handle_request` returns, the queue has a message: `write_response`,
  -- which is called next, finds a front.
  pub handle_request-Answered :
      (request : Message) (s s' : Session P)
      → handle_request P root credentials request s ≡ ok s'
      → Answered P s'
  unfolding handle_request
  handle_request-Answered request s s' served = post.get s' served
    where
      post : Post (Answered P) (handle_request P root credentials request s)
      post =
          unfold handle_request in
          Post-bind (msg_type request) λ t _. Post-bind (next_tlv (view_of request)) λ r _.
            Post-if r.1 (λ _. dispatch-Answered t r.0 (record s { replies = new_queue t }))
              (λ _. refuse-Answered P ErrType.no_content (record s { replies = new_queue t }))
