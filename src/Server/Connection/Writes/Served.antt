-- ===== src/Server/Connection/Writes/Served.antt =====
-- A request is read, served and answered.
use remote_backup_m.Prelude.{
  ℕ, ◌<◌, ◌≤◌, ◌≡◌, refl, sym, ap, subst, ◌∙◌, true, false, List, [], ◌∷◌, ◌++◌, length-append,
  take-append, All, length, drop, leb, ascii, none, some, ok, Eq, arith,
}
use remote_backup_m.Shared.Types.{ErrType, err_code}
use remote_backup_m.Shared.Decimal.{pos}
use remote_backup_m.Shared.Message.{Message, size}
use remote_backup_m.Shared.Platform.{Platform}
use remote_backup_m.Server.Logger.{Logger, log_message}
use remote_backup_m.Server.Logger.Lines.{ReadableMessage, log_message-ok}
use remote_backup_m.Server.Queue.{front}
use remote_backup_m.Server.Session.{Session}
use remote_backup_m.Server.Handler
use remote_backup_m.Server.Connection.{
  read_body, body_read, Connection, write_response, fill, received, serve, handle_request, react,
  run,
}
use remote_backup_m.Server.Handler.Answered.Any.{handle_request-Answered}
use remote_backup_m.Server.Connection.Writes.{
  written, answer, writing, Finished, run-react, run-writing,
}

module _ (P : Platform) where
  -- The connection reads a body of the size of this request.
  abbrev pub reading : Connection P → Message → Connection P
  reading c request = record c {
    header = size request;
    timed_out = false;
    pending = some read_body;
  }

module _ (P : Platform) ⦃e : Eq P.FsPath⦄ (root credentials : P.FsPath) where
  received-whole :
      (c : Connection P) (request : Message)
      → size request ≤ length c.buffer
      → received P (record (fill P request.raw (record (reading P c request) { pending = none })) {
        timer = false;
      })
        ≡ ok request
  unfolding received fill size
  received-whole c request h =
      let l : leb (length request.raw) (length (request.raw ++ drop (length request.raw) c.buffer))
          ≡ true =
        ground (arith, length-append request.raw (drop (length request.raw) c.buffer)) in
      rw (l, take-append request.raw (drop (length request.raw) c.buffer))

  serve-ok :
      (c : Connection P) (request : Message) (s : Session P) (l : Logger) (t : ℕ)
      (err_type : ErrType) (m : Message) (ms : List Message)
      → size request ≤ length c.buffer
      → log_message P c.session.user request (record c.log { cout = c.log.cout ++ ascii "FROM\t" })
        ≡ ok l
      → Handler.handle_request P root credentials request c.session
        ≡ ok (record s { replies = answer t err_type (m ∷ ms) })
      → react P root credentials read_body (body_read false request.raw) (reading P c request)
        ≡ ok (
            writing P
              (record (fill P request.raw c) { timer = false; msg = request; log = l; session = s })
              (answer t err_type (m ∷ ms))
              m
              c.sent)
  unfolding react handle_request serve write_response front fill
  serve-ok c request s l t err_type m ms b h served =
      let w = received-whole c request b in rw (w, h, served)

  served :
      (c : Connection P) (request : Message) (s : Session P) (t : ℕ) (err_type : ErrType)
      (ms : List Message)
      → size request ≤ length c.buffer
      → ReadableMessage P request
      → Handler.handle_request P root credentials request c.session
        ≡ ok (record s { replies = answer t err_type ms })
      → All (ReadableMessage P) ms
      → t < 8
      → Finished P c.sent
          (record s { replies = answer t err_type ms })
          (run P root credentials (body_read false request.raw ∷ written ms) (reading P c request))
  served c request s t err_type [] b r h a k =
      absurd (handle_request-Answered P root credentials request c.session _ h refl)
  served c request s t err_type (m ∷ ms) b r h a k =
      let (l, logged) =
        log_message-ok P c.session.user request
          (record c.log { cout = c.log.cout ++ ascii "FROM\t" }) r in
      let d = record (fill P request.raw c) {
        timer = false;
        msg = request;
        log = l;
        session = s;
      } in
      let rest = run-writing P root credentials d t err_type m ms c.sent a k in
      record {
        after = rest.after;
        ran =
            run-react P root credentials read_body (body_read false request.raw) (written (m ∷ ms))
              _ _ refl (serve-ok c request s l t err_type m ms b logged h)
            ∙ rest.ran;
        sent = rest.sent;
        session = rest.session;
        reads = rest.reads;
        timer = rest.timer;
        untimed = rest.untimed;
      }

  -- A connection that reads a body of the size of a request, which fits into its buffer, and that
  -- has not timed out: if the request can be logged and `handle_request` returns for it, with
  -- replies that can be logged and with the codes of a message type and of an error, then the body's
  -- arrival and the writes of the replies, without errors, bring the connection back to where it
  -- reads a header, with the timer on. It has sent the length and the bytes of each reply, in the
  -- queue's order, and its session is the one that `handle_request` returned, with an empty queue.
  pub run-Serves :
      (c : Connection P) (request : Message) (s : Session P) (err_type : ErrType)
      → size request ≤ length c.buffer
      → ReadableMessage P request
      → Handler.handle_request P root credentials request c.session ≡ ok s
      → All (ReadableMessage P) s.replies.msgs
      → s.replies.msg_type < 8
      → s.replies.err_type ≡ pos (err_code err_type)
      → Finished P c.sent s (
          run P root credentials
            (body_read false request.raw ∷ written s.replies.msgs)
            (reading P c request))
  run-Serves c request s err_type b r h a k n =
      let path : record s { replies = answer s.replies.msg_type err_type s.replies.msgs } ≡ s =
        λ i. record s { replies = record s.replies { err_type = sym n i } } in
      subst
        (λ s'. Finished P c.sent s' (
          run P root credentials (body_read false request.raw ∷ written s.replies.msgs)
            (reading P c request)))
        path
        (served c request s s.replies.msg_type err_type s.replies.msgs b r (h ∙ ap ok (sym path)) a
          k)
