-- ===== src/Server/Connection/Writes.antt =====
-- The replies to a request are sent, and the connection reads again.
pub mod Served
use remote_backup_m.Prelude.{
  ℕ, ◌<◌, ◌≤◌, ◌≡◌, refl, sym, ap, ◌∙◌, Bool, true, false, List, [], ◌∷◌, ◌++◌, append_assoc,
  length-append, take-append, Bytes, All, length, take, drop, leb, ascii, Option, none, some,
  Outcome, ok, ◌>>=◌, Eq, arith,
}
use remote_backup_m.Shared.Types.{ErrType, err_code, ConnRes}
use remote_backup_m.Shared.Decimal.{pos}
use remote_backup_m.Shared.Message.{Message, size}
use remote_backup_m.Shared.Platform.{Platform}
use remote_backup_m.Server.Logger.{Logger, log_message, log_result}
use remote_backup_m.Server.Logger.Lines.{ReadableMessage, log_message-ok, log_result-ok}
use remote_backup_m.Server.Queue.{Queue, front, pop, empty}
use remote_backup_m.Server.Session.{Session}
use remote_backup_m.Server.Handler
use remote_backup_m.Server.Connection.{
  Sent, header_out, body_out, Operation, read_header, read_body, write_header, write_body, Event,
  body_read, header_written, body_written, Connection, schedule_timeout, log_write, read_request,
  handle_completion, write_response, send_front, on_header_written, fill, received, serve,
  handle_request, on_body, react, run,
}

-- What the messages look like on the socket, and the events at their writes.
abbrev pub on_wire : List Message → List Sent
on_wire [] = []
on_wire (m ∷ ms) = header_out (size m) ∷ body_out m.raw ∷ on_wire ms

abbrev pub written : List Message → List Event
written [] = []
written (m ∷ ms) = header_written false ∷ body_written false ∷ written ms

abbrev pub answer : ℕ → ErrType → List Message → Queue
answer t err_type ms = record { msgs = ms; msg_type = t; err_type = pos (err_code err_type) }

module _ (P : Platform) where
  -- The connection writes the header of `m`, and `ms` are to follow.
  abbrev pub writing : Connection P → Queue → Message → List Sent → Connection P
  writing c q m before = record c {
    session = record c.session { replies = q };
    header = size m;
    sent = before ++ (header_out (size m) ∷ []);
    pending = some write_header;
    timed_out = false;
  }

  -- The connection writes `m`, behind which `q` is left.
  abbrev pub writing_body : Connection P → Queue → Message → List Sent → Logger → Connection P
  writing_body c q m before l = record (writing c q m before) {
    log = l;
    msg = m;
    sent = (before ++ (header_out (size m) ∷ [])) ++ (body_out m.raw ∷ []);
    pending = some (write_body (empty q));
  }

  -- The connection behind the writes: everything is sent, and it reads with the timer on.
  pub record Finished (before : List Sent) (s : Session P) (r : Outcome (Connection P))
      : Type 0 where
    pub after : Connection P
    pub ran : r ≡ ok after
    pub sent : after.sent ≡ before ++ on_wire s.replies.msgs
    pub session : after.session ≡ record s { replies = record s.replies { msgs = [] } }
    pub reads : after.pending ≡ some read_header
    pub timer : after.timer ≡ true
    pub untimed : after.timed_out ≡ false

module _ (P : Platform) ⦃e : Eq P.FsPath⦄ (root credentials : P.FsPath) where
  -- The header of the front is written.
  header_written-ok :
      (c : Connection P) (t : ℕ) (err_type : ErrType) (m : Message) (ms : List Message)
      (before : List Sent) (l : Logger)
      → log_message P c.session.user m (record c.log { cout = c.log.cout ++ ascii "TO\t" }) ≡ ok l
      → react P root credentials write_header
          (header_written false)
          (writing P c (answer t err_type (m ∷ ms)) m before)
        ≡ ok (writing_body P c (answer t err_type ms) m before l)
  unfolding react on_header_written send_front front pop
  header_written-ok c t err_type m ms before l h = rw h

  -- The last reply is written.
  last_written-ok :
      (c : Connection P) (t : ℕ) (err_type : ErrType) (m : Message) (before : List Sent)
      (l l' : Logger)
      → log_result c.session.user t (pos (err_code err_type)) ConnRes.ok l ≡ ok l'
      → react P root credentials
          (write_body true)
          (body_written false)
          (writing_body P c (answer t err_type []) m before l)
        ≡ ok (record (writing_body P c (answer t err_type []) m before l) {
          log = l';
          timer = true;
          pending = some read_header;
        })
  unfolding react on_body handle_completion log_write read_request schedule_timeout
  last_written-ok c t err_type m before l l' h = rw h

  -- Another reply is written.
  body_written-ok :
      (c : Connection P) (t : ℕ) (err_type : ErrType) (m n : Message) (ns : List Message)
      (before : List Sent) (l : Logger)
      → react P root credentials
          (write_body false)
          (body_written false)
          (writing_body P c (answer t err_type (n ∷ ns)) m before l)
        ≡ ok (
            writing P
              (record c { log = l; msg = m })
              (answer t err_type (n ∷ ns))
              n
              ((before ++ (header_out (size m) ∷ [])) ++ (body_out m.raw ∷ [])))
  unfolding react on_body write_response front
  body_written-ok c t err_type m n ns before l = refl

  pub run-react :
      (op : Operation) (event : Event) (rest : List Event) (c c' : Connection P)
      → c.pending ≡ some op
      → react P root credentials op event c ≡ ok c'
      → run P root credentials (event ∷ rest) c ≡ run P root credentials rest c'
  unfolding run
  run-react op event rest c c' p h = split c.pending p
    where
      split :
          (o : Option Operation)
          → o ≡ some op
          → (elim o [
            | none ↦ ok c
            | some op' ↦
                (react P root credentials op' event c >>= λ d. run P root credentials rest d)
          ])
            ≡ run P root credentials rest c'
      split none q = absurd (cc)
      split (some op') q =
          let same : op' ≡ op = cc in
          ap (λ o. react P root credentials o event c >>= λ d. run P root credentials rest d) same
          ∙ ap (λ r. r >>= λ d. run P root credentials rest d) h

  run-nil : (c : Connection P) → run P root credentials [] c ≡ ok c
  unfolding run
  run-nil c = refl

  on_wire-append :
      (before : List Sent) (m : Message) (ms : List Message)
      → ((before ++ (header_out (size m) ∷ [])) ++ (body_out m.raw ∷ [])) ++ on_wire ms
        ≡ before ++ on_wire (m ∷ ms)
  on_wire-append before m ms =
      append_assoc (before ++ (header_out (size m) ∷ [])) (body_out m.raw ∷ []) (on_wire ms)
      ∙ append_assoc before (header_out (size m) ∷ []) (body_out m.raw ∷ on_wire ms)

  pub run-writing :
      (c : Connection P) (t : ℕ) (err_type : ErrType) (m : Message) (ms : List Message)
      (before : List Sent)
      → All (ReadableMessage P) (m ∷ ms)
      → t < 8
      → Finished P before
          (record c.session { replies = answer t err_type (m ∷ ms) })
          (run P root credentials
            (written (m ∷ ms))
            (writing P c (answer t err_type (m ∷ ms)) m before))
  unfolding empty
  run-writing c t err_type m [] before a known =
      let (l, h) =
        log_message-ok P c.session.user m (record c.log { cout = c.log.cout ++ ascii "TO\t" })
          a.0 in
      let (l', h') = log_result-ok c.session.user t err_type ConnRes.ok l known in
      record {
        after = record (writing_body P c (answer t err_type []) m before l) {
          log = l';
          timer = true;
          pending = some read_header;
        };
        ran =
            run-react write_header (header_written false) (body_written false ∷ []) _ _ refl
              (header_written-ok c t err_type m [] before l h)
            ∙ run-react (write_body true) (body_written false) [] _ _ refl
                (last_written-ok c t err_type m before l l' h')
            ∙ run-nil _;
        sent = append_assoc before (header_out (size m) ∷ []) (body_out m.raw ∷ []);
        session = refl;
        reads = refl;
        timer = refl;
        untimed = refl;
      }
  run-writing c t err_type m (n ∷ ns) before a known =
      let (l, h) =
        log_message-ok P c.session.user m (record c.log { cout = c.log.cout ++ ascii "TO\t" })
          a.0 in
      let rest =
        run-writing (record c { log = l; msg = m }) t err_type n ns
          ((before ++ (header_out (size m) ∷ [])) ++ (body_out m.raw ∷ [])) a.1 known in
      record {
        after = rest.after;
        ran =
            run-react write_header (header_written false) (body_written false ∷ written (n ∷ ns)) _
              _ refl (header_written-ok c t err_type m (n ∷ ns) before l h)
            ∙ run-react (write_body false) (body_written false) (written (n ∷ ns)) _ _ refl
                (body_written-ok c t err_type m n ns before l)
            ∙ rest.ran;
        sent = rest.sent ∙ on_wire-append before m (n ∷ ns);
        session = rest.session;
        reads = rest.reads;
        timer = rest.timer;
        untimed = rest.untimed;
      }
