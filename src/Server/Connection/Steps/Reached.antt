-- ===== src/Server/Connection/Steps/Reached.antt =====
-- Every state that a connection reaches is sound.
use remote_backup_m.Prelude.{
  ℕ, ◌≡◌, refl, inl, inr, Bool, true, false, Bytes, none, some, Eq, Post, Post-ok, Post-bind, ◌++◌,
  ascii,
}
use remote_backup_m.Shared.Platform.{Platform}
use remote_backup_m.Server.Streams.{Streams}
use remote_backup_m.Server.Logger.{Logger, log_message}
use remote_backup_m.Server.Connection.{
  Operation, handshake, read_header, read_body, write_header, write_body, Event, handshaken,
  header_read, body_read, header_written, body_written, expired, timer_failed, Connection,
  new_connection, start, react, schedule_timeout, shutdown, fill, received, serve, handle_request,
  on_body,
}
use remote_backup_m.Server.Handler
use remote_backup_m.Server.Connection.Steps.{Reach, begun, reacted, others, Sound}
use remote_backup_m.Server.Connection.Steps.Kept.{
  Between, guarded, log_read-Between, read_request-Sound, on_header-Sound, handle_completion-Sound,
  write_response-Sound, on_header_written-Sound,
}

module _ (P : Platform) where
  Sound-Between :
      (c : Connection P) (op : Operation)
      → Sound P c
      → c.pending ≡ some op
      → Between P (record c { pending = none })
  Sound-Between c op s p = record {
    idle = refl;
    closed = s.timed_out;
    open_still = λ t. open_now t c.is_open refl;
  }
    where
      open_now : c.timed_out ≡ false → (b : Bool) → c.is_open ≡ b → b ≡ true
      open_now t true q = refl
      open_now t false q = elim (s.closed q) [ inl i ↦ absurd (cc) | inr u ↦ absurd (cc) ]

  expired-Sound :
      (c : Connection P) → Sound P c → Sound P (shutdown P (record c { timed_out = true }))
  unfolding shutdown
  expired-Sound c s = record {
    replies = s.replies;
    timed_out = λ _. refl;
    closed = λ _. inr refl;
    alive = λ o. absurd (cc);
    watched = λ o. absurd (cc);
  }

  -- A wait that fails is started again, also where the connection was closed meanwhile.
  timer_failed-Sound : (c : Connection P) → Sound P c → Sound P (schedule_timeout P c)
  unfolding schedule_timeout
  timer_failed-Sound c s = record {
    replies = s.replies;
    timed_out = s.timed_out;
    closed = s.closed;
    alive = s.alive;
    watched = λ _ _. refl;
  }

module _ (P : Platform) ⦃e : Eq P.FsPath⦄ (root credentials : P.FsPath) where
  handle_request-Sound :
      (f : Bool) (c : Connection P)
      → Between P c
      → Post (Sound P) (handle_request P root credentials f c)
  unfolding handle_request serve
  handle_request-Sound f c b = guarded P f c b (log_read-Between P c b) λ t.
      Post-bind (received P (record c { timer = false })) λ m _.
        Post-bind
          (log_message P c.session.user m (record c.log { cout = c.log.cout ++ ascii "FROM\t" }))
          λ log _. Post-bind (Handler.handle_request P root credentials m c.session) λ session _.
            write_response-Sound P false
              (record c { timer = false; msg = m; log = log; session = session })
              (record { idle = b.idle; closed = b.closed; open_still = b.open_still })

  react-Sound :
      (op : Operation) (event : Event) (c : Connection P)
      → Sound P c
      → c.pending ≡ some op
      → Post (Sound P) (react P root credentials op event c)
  unfolding react on_body fill
  react-Sound handshake (handshaken f) c s p =
      read_request-Sound P f (record c { pending = none }) (Sound-Between P c handshake s p)
  react-Sound read_header (header_read f n) c s p =
      on_header-Sound P f n (record c { pending = none }) (Sound-Between P c read_header s p)
  react-Sound read_body (body_read f bytes) c s p =
      handle_request-Sound f (fill P bytes (record c { pending = none })) (
        let b = Sound-Between P c read_body s p in
        record { idle = refl; closed = b.closed; open_still = b.open_still })
  react-Sound write_header (header_written f) c s p =
      on_header_written-Sound P f (record c { pending = none }) (Sound-Between P c write_header s p)
  react-Sound (write_body true) (body_written f) c s p =
      handle_completion-Sound P f (record c { pending = none })
        (Sound-Between P c (write_body true) s p)
  react-Sound (write_body false) (body_written f) c s p =
      write_response-Sound P f (record c { pending = none })
        (Sound-Between P c (write_body false) s p)
  react-Sound op expired c s p = Post-ok (expired-Sound P c s)
  react-Sound op timer_failed c s p = Post-ok (timer_failed-Sound P c s)
  react-Sound op _ c s p = Post-ok s

  start-Sound :
      (ip : Bytes) (c : Connection P)
      → c.is_open ≡ true
      → c.timed_out ≡ false
      → Sound P (start P root credentials ip c)
  unfolding start schedule_timeout
  start-Sound ip c o t = record {
    replies = tt;
    timed_out = λ u. absurd (cc);
    closed = λ f. absurd (cc);
    alive = λ _ n. cc;
    watched = λ _ _. refl;
  }

  Reach-Sound : (c d : Connection P) → Sound P c → Reach P root credentials c d → Sound P d
  Reach-Sound c _ s begun = s
  Reach-Sound c _ s (reacted d d' op event r p h) =
      (react-Sound op event d (Reach-Sound c d s r) p).get d' h
  Reach-Sound c _ s (others d disk streams log r) =
      let t = Reach-Sound c d s r in
      record {
        replies = t.replies;
        timed_out = t.timed_out;
        closed = t.closed;
        alive = t.alive;
        watched = t.watched;
      }

  -- In every state that a new connection reaches once it is started, whatever the client sends,
  -- whichever operations fail or time out, and whatever other connections do to files, streams and
  -- the log: there is a reply in the queue when one is to be written, and none behind the last; a connection
  -- that is closed has no operation under way or one whose handler does nothing; and
  -- one that is open has an operation under way, and a timer while that waits for the client.
  pub reached-Sound :
      (auth synced : Bool) (n : ℕ) (log : Logger) (disk : P.Disk) (streams : Streams P) (ip : Bytes)
      (d : Connection P)
      → Reach P root credentials
          (start P root credentials ip (new_connection P auth synced n log disk streams))
          d
      → Sound P d
  unfolding new_connection
  reached-Sound auth synced n log disk streams ip d r =
      Reach-Sound _ d (start-Sound ip (new_connection P auth synced n log disk streams) refl refl) r
