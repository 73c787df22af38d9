-- ===== src/Server/Handler/Moves/Any.antt =====
-- What a request does to the streams of others, and to the user's identity.
use remote_backup_m.Prelude.{
  ℕ, ◌≡◌, refl, ◌∙◌, ap, true, false, Bytes, ◌==◌, ◌=?◌, bytes_eq, not, Eq, Bool-cases, inl, inr,
  Post, Post-if, Post-bind, arith,
}
use remote_backup_m.Shared.Types.{MsgType, msg_code, ErrType}
use remote_backup_m.Shared.Message.{Message, msg_type}
use remote_backup_m.Shared.View.{View, view_of, next_tlv}
use remote_backup_m.Shared.Platform.{Platform}
use remote_backup_m.Shared.Dir.{find}
use remote_backup_m.Shared.Dir.Entries.{find-put, find-without_other}
use remote_backup_m.Server.Streams.{erase_stream}
use remote_backup_m.Server.Queue.{new_queue}
use remote_backup_m.Server.Session.{Session}
use remote_backup_m.Server.Handler.{handle_request, dispatch, handle_synced}
use remote_backup_m.Server.Handler.Gate.{handle_request-Authenticates}
use remote_backup_m.Server.Handler.Moves.{
  Moves, stays, replies, files, directory, opens, closes, lists, Moves-accept, Moves-refuse,
  handle_list-Moves,
}
use remote_backup_m.Server.Handler.Moves.Files.{handle_create-Moves}
use remote_backup_m.Server.Handler.Moves.Changes.{
  handle_update-Moves, handle_erase-Moves, handle_retrieve-Moves,
}

module _ (P : Platform) where
  -- The streams of other users are as they were.
  abbrev pub Isolated : Session P → Session P → Type 0
  Isolated s t = (j : Bytes) → (s.user.id =? j) ≡ false → find j t.streams ≡ find j s.streams

  record Own (s t : Session P) : Type 0 where
    user_kept : t.user.id ≡ s.user.id
    isolated : Isolated s t

  Own-Moves : (s t : Session P) → Moves P s t → Own s t
  unfolding erase_stream
  Own-Moves s _ stays = record { user_kept = refl; isolated = λ j h. refl }
  Own-Moves s _ (replies t q m) =
      let o = Own-Moves s t m in record { user_kept = o.user_kept; isolated = o.isolated }
  Own-Moves s _ (files t disk m) =
      let o = Own-Moves s t m in record { user_kept = o.user_kept; isolated = o.isolated }
  Own-Moves s _ (directory t d m) =
      let o = Own-Moves s t m in record { user_kept = o.user_kept; isolated = o.isolated }
  Own-Moves s _ (lists t m) =
      let o = Own-Moves s t m in record { user_kept = o.user_kept; isolated = o.isolated }
  Own-Moves s _ (opens t stream m) =
      let o = Own-Moves s t m in
      record {
        user_kept = o.user_kept;
        isolated = λ j h.
            find-put t.user.id j stream t.streams
            ∙ rw (ap (λ i. i =? j) o.user_kept ∙ h) (o.isolated j h);
      }
  Own-Moves s _ (closes t m) =
      let o = Own-Moves s t m in
      record {
        user_kept = o.user_kept;
        isolated = λ j h.
            find-without_other t.user.id j t.streams (ap (λ i. i =? j) o.user_kept ∙ h)
            ∙ o.isolated j h;
      }

module _ (P : Platform) ⦃e : Eq P.FsPath⦄ (root credentials : P.FsPath) where
  handle_synced-Moves :
      (n : ℕ) (v : View) (s t : Session P)
      → Moves P s t
      → Post (Moves P s) (handle_synced P root credentials n v t)
  unfolding handle_synced
  handle_synced-Moves n v s t m =
      Post-if (n == msg_code MsgType.create) (λ _. handle_create-Moves P s v t m)
        λ _.
          Post-if (n == msg_code MsgType.update) (λ _. handle_update-Moves P s v t m)
            λ _.
              Post-if (n == msg_code MsgType.erase) (λ _. handle_erase-Moves P s v t m)
                λ _.
                  Post-if (n == msg_code MsgType.retrieve) (λ _. handle_retrieve-Moves P s v t m)
                    λ _.
                      Post-if (n == msg_code MsgType.keep_alive) (λ _. Moves-accept P s t m)
                        λ _. Moves-refuse P s t ErrType.msg_type_rejected m

  dispatch-Moves :
      (n : ℕ) (v : View) (s t : Session P)
      → t.user.auth ≡ true
      → Moves P s t
      → Post (Moves P s) (dispatch P root credentials n v t)
  unfolding dispatch
  dispatch-Moves n v s t a m =
      Post-if (not t.user.auth) (λ b. absurd (ground arith))
        (λ _.
          Post-if (not t.user.synced)
            (λ _.
              Post-if (n == msg_code MsgType.list) (λ _. handle_list-Moves P s t m)
                (λ _. Moves-refuse P s t ErrType.msg_type_rejected m))
            (λ _. handle_synced-Moves n v s t m))

  handle_request-Moves :
      (request : Message) (s : Session P)
      → s.user.auth ≡ true
      → Post (Moves P s) (handle_request P root credentials request s)
  unfolding handle_request
  handle_request-Moves request s a = Post-bind (msg_type request) λ n _.
      let fresh : Session P = record s { replies = new_queue n } in
      let m : Moves P s fresh = replies s (new_queue n) stays in
      Post-bind (next_tlv (view_of request)) λ r _.
        Post-if r.1 (λ _. dispatch-Moves n r.0 s fresh a m)
          (λ _. Moves-refuse P s fresh ErrType.no_content m)

  pub handle_request-Isolated :
      (request : Message) (s : Session P)
      → Post (Isolated P s) (handle_request P root credentials request s)
  handle_request-Isolated request s = elim (Bool-cases s.user.auth) [
    | inl a ↦ record {
      get = λ t h. (Own-Moves P s t ((handle_request-Moves request s a).get t h)).isolated;
    }
    | inr a ↦ record {
      get = λ t h. λ j n.
          ap (find j) (handle_request-Authenticates P root credentials request s t a h).streams;
    }
  ]
