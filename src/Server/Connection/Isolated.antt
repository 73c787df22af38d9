-- ===== src/Server/Connection/Isolated.antt =====
-- What the handlers of one connection do to the streams of others.
use remote_backup_m.Prelude.{
  ℕ, ◌≡◌, refl, ap, ◌∙◌, Bool, true, false, ◌++◌, Bytes, ascii, not, none, Outcome, ok, ◌>>=◌, ◌=?◌,
  bytes_eq, if◌then◌else◌, Eq, Post, Post-ok, Post-if, Post-bind, Post-bind-on,
}
use remote_backup_m.Shared.Platform.{Platform}
use remote_backup_m.Shared.Types.{MsgType, msg_code, ErrType, err_code, ConnRes}
use remote_backup_m.Shared.Decimal.{pos}
use remote_backup_m.Shared.Dir.{find}
use remote_backup_m.Shared.Dir.Entries.{find-without_other}
use remote_backup_m.Server.Logger.{log_message, log_result}
use remote_backup_m.Server.Streams.{erase_stream}
use remote_backup_m.Server.Queue.{front, pop}
use remote_backup_m.Server.Handler.Moves.Any.{handle_request-Isolated}
use remote_backup_m.Server.Connection.{
  Operation, handshake, read_header, read_body, write_header, write_body, Event, handshaken,
  header_read, body_read, header_written, body_written, expired, timer_failed, Connection, react,
  schedule_timeout, shutdown, log_read, log_write, read_request, on_header, handle_completion,
  write_response, send_front, on_header_written, fill, received, serve, handle_request, on_body,
}

module _ (P : Platform) (c0 : Connection P) where
  -- The user is as in `c0`, and the streams of other users are too.
  pub record Kept (c : Connection P) : Type 0 where
    pub user_kept : c.session.user.id ≡ c0.session.user.id
    pub isolated :
        (j : Bytes)
        → (c0.session.user.id =? j) ≡ false
        → find j c.session.streams ≡ find j c0.session.streams

  -- The handlers end with the streams of other users as they are.
  abbrev pub Isolated : Connection P → Type 0
  Isolated c =
      (j : Bytes)
      → (c0.session.user.id =? j) ≡ false
      → find j c.session.streams ≡ find j c0.session.streams

  shutdown-Isolated : (c : Connection P) → Kept c → Isolated (shutdown P c)
  unfolding shutdown erase_stream
  shutdown-Isolated c k j n =
      find-without_other c.session.user.id j c.session.streams (ap (λ i. i =? j) k.user_kept ∙ n)
      ∙ k.isolated j n

  log_read-Kept : (c : Connection P) → Kept c → Post Kept (log_read P c)
  unfolding log_read
  log_read-Kept c k =
      Post-bind
        (log_result c.session.user (msg_code MsgType.none) (pos (err_code ErrType.none)) ConnRes.err
          c.log)
        λ log _. Post-ok (record { user_kept = k.user_kept; isolated = k.isolated })

  log_write-Kept : (e : Bool) (c : Connection P) → Kept c → Post Kept (log_write P e c)
  unfolding log_write
  log_write-Kept e c k =
      Post-bind
        (log_result c.session.user c.session.replies.msg_type c.session.replies.err_type
          (if not e then ConnRes.ok else ConnRes.err) c.log)
        λ log _. Post-ok (record { user_kept = k.user_kept; isolated = k.isolated })

  -- Each handler returns at once behind the timeout, and logs and shuts down at an error.
  guarded :
      (e : Bool) (c : Connection P) {x y : Outcome (Connection P)}
      → Kept c
      → Post Kept x
      → Post Isolated y
      → Post Isolated
          (if c.timed_out then ok c else if e then (x >>= λ c'. ok (shutdown P c')) else y)
  guarded e c k x y =
      Post-if c.timed_out (λ _. Post-ok k.isolated)
        (λ _. Post-if e (λ _. Post-bind-on x λ c' k'. Post-ok (shutdown-Isolated c' k')) (λ _. y))

  read_request-Isolated :
      (e : Bool) (c : Connection P) → Kept c → Post Isolated (read_request P e c)
  unfolding read_request schedule_timeout
  read_request-Isolated e c k = guarded e c k (log_read-Kept c k) (Post-ok k.isolated)

  on_header-Isolated :
      (e : Bool) (n : ℕ) (c : Connection P) → Kept c → Post Isolated (on_header P e n c)
  unfolding on_header schedule_timeout
  on_header-Isolated e n c k =
      let c' = record c { header = n } in
      let k' : Kept c' = record { user_kept = k.user_kept; isolated = k.isolated } in
      guarded e c' k' (log_read-Kept c' k') (Post-ok k.isolated)

  handle_completion-Isolated :
      (e : Bool) (c : Connection P) → Kept c → Post Isolated (handle_completion P e c)
  unfolding handle_completion
  handle_completion-Isolated e c k =
      Post-if c.timed_out (λ _. Post-ok k.isolated)
        λ _. Post-bind-on (log_write-Kept e c k) λ c' k'.
          Post-if e (λ _. Post-ok (shutdown-Isolated c' k')) (λ _. read_request-Isolated e c' k')

  write_response-Isolated :
      (e : Bool) (c : Connection P) → Isolated c → Kept c → Post Isolated (write_response P e c)
  unfolding write_response
  write_response-Isolated e c i k =
      guarded e c k (log_write-Kept e c k) (Post-bind (front c.session.replies) λ m _. Post-ok i)

  on_header_written-Isolated :
      (e : Bool) (c : Connection P) → Kept c → Post Isolated (on_header_written P e c)
  unfolding on_header_written send_front
  on_header_written-Isolated e c k = guarded e c k (log_write-Kept e c k) (
      Post-bind (front c.session.replies) λ m _. Post-bind (pop c.session.replies) λ q _.
        Post-bind
          (log_message P c.session.user m (record c.log { cout = c.log.cout ++ ascii "TO\t" }))
          λ log _. Post-ok k.isolated)

  -- `write_response` of a connection that had no error does not shut it down.
  write_response-served : (c : Connection P) → Isolated c → Post Isolated (write_response P false c)
  unfolding write_response
  write_response-served c i =
      Post-if c.timed_out (λ _. Post-ok i)
        (λ _. Post-bind (front c.session.replies) λ m _. Post-ok i)

-- At the begin of a handler.
untouched : (P : Platform) (c : Connection P) → Kept P c (record c { pending = none })
untouched P c = record { user_kept = refl; isolated = λ j n. refl }

module _ (P : Platform) ⦃e : Eq P.FsPath⦄ (root credentials : P.FsPath) where
  body-Isolated :
      (f : Bool) (c0 c : Connection P)
      → c.session ≡ c0.session
      → Post (Isolated P c0) (handle_request P root credentials f c)
  unfolding handle_request serve
  body-Isolated f c0 c same =
      let k : Kept P c0 c = record {
        user_kept = ap (λ s. s.user.id) same;
        isolated = λ j n. ap (λ s. find j s.streams) same;
      } in
      guarded P c0 f c k (log_read-Kept P c0 c k) (
        Post-bind (received P (record c { timer = false })) λ m _.
          Post-bind
            (log_message P c.session.user m (record c.log { cout = c.log.cout ++ ascii "FROM\t" }))
            λ log _.
              Post-bind-on (handle_request-Isolated P root credentials m c.session) λ session i.
                write_response-served P c0
                  (record c { timer = false; msg = m; log = log; session = session })
                  (λ j n.
                    i j (ap (λ s. s.user.id =? j) same ∙ n) ∙ ap (λ s. find j s.streams) same))

  react-Post :
      (op : Operation) (event : Event) (c : Connection P)
      → Post (Isolated P c) (react P root credentials op event c)
  unfolding react on_body fill schedule_timeout
  react-Post handshake (handshaken f) c =
      read_request-Isolated P c f (record c { pending = none }) (untouched P c)
  react-Post read_header (header_read f n) c =
      on_header-Isolated P c f n (record c { pending = none }) (untouched P c)
  react-Post read_body (body_read f bytes) c =
      body-Isolated f c (fill P bytes (record c { pending = none })) refl
  react-Post write_header (header_written f) c =
      on_header_written-Isolated P c f (record c { pending = none }) (untouched P c)
  react-Post (write_body true) (body_written f) c =
      handle_completion-Isolated P c f (record c { pending = none }) (untouched P c)
  react-Post (write_body false) (body_written f) c =
      write_response-Isolated P c f (record c { pending = none }) (λ j n. refl) (untouched P c)
  react-Post op expired c = Post-ok (
      shutdown-Isolated P c (record c { timed_out = true })
        (record { user_kept = refl; isolated = λ j n. refl }))
  react-Post op timer_failed c = Post-ok (λ j n. refl)
  react-Post op _ c = Post-ok (λ j n. refl)

  -- Whatever operation of a connection ends, and however, its handler leaves the streams of all other
  -- users as they were: a request, an error and the timeout of one client write to, open and close no
  -- stream but that of its own user.
  pub react-Isolated :
      (op : Operation) (event : Event) (c c' : Connection P)
      → react P root credentials op event c ≡ ok c'
      → Isolated P c c'
  react-Isolated op event c c' h = (react-Post op event c).get c' h
