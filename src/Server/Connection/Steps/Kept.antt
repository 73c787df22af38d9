-- ===== src/Server/Connection/Steps/Kept.antt =====
-- The handlers keep a connection sound.
use remote_backup_m.Prelude.{
  ℕ, ◌≡◌, ◌≢◌, refl, inl, Bool, true, false, List, [], ◌∷◌, none, some, Outcome, ok, Post, Post-ok,
  Post-if, Post-err, Post-bind, Post-bind-on, ◌>>=◌, ◌++◌, ascii, not, if◌then◌else◌, err,
  undefined_behaviour,
}
use remote_backup_m.Shared.Platform.{Platform}
use remote_backup_m.Shared.Types.{MsgType, msg_code, ErrType, err_code, ConnRes}
use remote_backup_m.Shared.Decimal.{pos}
use remote_backup_m.Shared.Message.{Message, size}
use remote_backup_m.Server.Logger.{log_message, log_result}
use remote_backup_m.Server.Queue.{Queue, empty, front, pop}
use remote_backup_m.Server.Connection.{
  Operation, header_out, body_out, read_header, read_body, write_header, write_body, Connection,
  schedule_timeout, shutdown, log_read, log_write, read_request, on_header, handle_completion,
  write_response, send_front, on_header_written,
}
use remote_backup_m.Server.Connection.Steps.{Sound, HasReply, waits_for_client}

module _ (P : Platform) where
  -- A connection whose operation is over.
  pub record Between (c : Connection P) : Type 0 where
    pub idle : c.pending ≡ none
    pub closed : c.timed_out ≡ true → c.is_open ≡ false
    pub open_still : c.timed_out ≡ false → c.is_open ≡ true

  -- A handler that runs behind the timeout does nothing.
  Between-stale : (c : Connection P) → Between c → c.timed_out ≡ true → Sound P c
  Between-stale c b t = record {
    replies = rw b.idle tt;
    timed_out = λ _. b.closed t;
    closed = λ _. inl b.idle;
    alive = λ o. absurd (let f = b.closed t in cc);
    watched = λ o. absurd (let f = b.closed t in cc);
  }

  shutdown-Sound : (c : Connection P) → c.pending ≡ none → Sound P (shutdown P c)
  unfolding shutdown
  shutdown-Sound c i = record {
    replies = rw i tt;
    timed_out = λ _. refl;
    closed = λ _. inl i;
    alive = λ o. absurd (cc);
    watched = λ o. absurd (cc);
  }

  pub log_read-Between : (c : Connection P) → Between c → Post Between (log_read P c)
  unfolding log_read
  log_read-Between c b =
      Post-bind
        (log_result c.session.user (msg_code MsgType.none) (pos (err_code ErrType.none)) ConnRes.err
          c.log)
        λ log _. Post-ok (record { idle = b.idle; closed = b.closed; open_still = b.open_still })

  log_write-Between : (e : Bool) (c : Connection P) → Between c → Post Between (log_write P e c)
  unfolding log_write
  log_write-Between e c b =
      Post-bind
        (log_result c.session.user c.session.replies.msg_type c.session.replies.err_type
          (if not e then ConnRes.ok else ConnRes.err) c.log)
        λ log _. Post-ok (record { idle = b.idle; closed = b.closed; open_still = b.open_still })

  -- Each handler returns at once behind the timeout, and logs and shuts down at an error.
  pub guarded :
      (e : Bool) (c : Connection P) {x y : Outcome (Connection P)}
      → Between c
      → Post Between x
      → (c.timed_out ≡ false → Post (Sound P) y)
      → Post
          (Sound P)
          (if c.timed_out then ok c else if e then (x >>= λ c'. ok (shutdown P c')) else y)
  guarded e c b x y =
      Post-if c.timed_out (λ t. Post-ok (Between-stale c b t))
        (λ t.
          Post-if e (λ _. Post-bind-on x λ c' b'. Post-ok (shutdown-Sound c' b'.idle)) (λ _. y t))

  -- The connection waits for something from the client.
  waiting :
      (op : Operation) (c : Connection P)
      → Between c
      → c.timed_out ≡ false
      → HasReply P (some op) c.session.replies
      → Sound P (record (schedule_timeout P c) { pending = some op })
  unfolding schedule_timeout
  waiting op c b t r = record {
    replies = r;
    timed_out = λ u. absurd (cc);
    closed = λ o. absurd (let q = b.open_still t in cc);
    alive = λ _ n. cc;
    watched = λ _ _. refl;
  }

  -- The connection writes.
  writing :
      (op : Operation) (c : Connection P)
      → waits_for_client P (some op) ≡ false
      → c.timed_out ≡ false
      → c.is_open ≡ true
      → HasReply P (some op) c.session.replies
      → Sound P (record c { pending = some op })
  writing op c w t o r = record {
    replies = r;
    timed_out = λ u. absurd (cc);
    closed = λ f. absurd (cc);
    alive = λ _ n. cc;
    watched = λ _ u. absurd (cc);
  }

  pub read_request-Sound :
      (e : Bool) (c : Connection P) → Between c → Post (Sound P) (read_request P e c)
  unfolding read_request
  read_request-Sound e c b =
      guarded e c b (log_read-Between c b) λ t. Post-ok (waiting read_header c b t tt)

  pub on_header-Sound :
      (e : Bool) (n : ℕ) (c : Connection P) → Between c → Post (Sound P) (on_header P e n c)
  unfolding on_header
  on_header-Sound e n c b =
      let c' = record c { header = n } in
      let b' : Between c' = record {
        idle = b.idle;
        closed = b.closed;
        open_still = b.open_still;
      } in
      guarded e c' b' (log_read-Between c' b') λ t. Post-ok (waiting read_body c' b' t tt)

  pub handle_completion-Sound :
      (e : Bool) (c : Connection P) → Between c → Post (Sound P) (handle_completion P e c)
  unfolding handle_completion
  handle_completion-Sound e c b =
      Post-if c.timed_out (λ t. Post-ok (Between-stale c b t))
        λ t. Post-bind-on (log_write-Between e c b) λ c' b'.
          Post-if e (λ _. Post-ok (shutdown-Sound c' b'.idle)) (λ _. read_request-Sound e c' b')

  front-some : (q : Queue) → Post (λ m. q.msgs ≢ []) (front q)
  unfolding front
  front-some q = split q.msgs
    where
      split :
          (ms : List Message)
          → Post (λ m. ms ≢ []) (elim ms [ [] ↦ err undefined_behaviour | m ∷ ns ↦ ok m ])
      split [] = Post-err
      split (m ∷ ns) = Post-ok (λ e. cc)

  pub write_response-Sound :
      (e : Bool) (c : Connection P) → Between c → Post (Sound P) (write_response P e c)
  unfolding write_response
  write_response-Sound e c b = guarded e c b (log_write-Between e c b) λ t.
      Post-bind-on (front-some c.session.replies) λ m n. Post-ok (
        writing write_header
          (record c { header = size m; sent = c.sent ++ (header_out (size m) ∷ []) }) refl t
          (b.open_still t) n)

  empty-HasReply : (q : Queue) → HasReply P (some (write_body (empty q))) q
  unfolding empty
  empty-HasReply q = split q.msgs
    where
      split :
          (ms : List Message)
          → HasReply P
              (some (write_body (elim ms [ [] ↦ true | m ∷ ns ↦ false ])))
              (record q { msgs = ms })
      split [] = refl
      split (m ∷ ns) = λ e. cc

  pub on_header_written-Sound :
      (e : Bool) (c : Connection P) → Between c → Post (Sound P) (on_header_written P e c)
  unfolding on_header_written send_front
  on_header_written-Sound e c b = guarded e c b (log_write-Between e c b) λ t.
      Post-bind (front c.session.replies) λ m _. Post-bind (pop c.session.replies) λ q _.
        Post-bind
          (log_message P c.session.user m (record c.log { cout = c.log.cout ++ ascii "TO\t" }))
          λ log _. Post-ok (
            writing (write_body (empty q))
              (record c {
                session = record c.session { replies = q };
                log = log;
                msg = m;
                sent = c.sent ++ (body_out m.raw ∷ []);
              })
              refl t (b.open_still t) (empty-HasReply q))
