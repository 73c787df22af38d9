-- ===== src/Server/Connection.antt =====
-- server/core/connection.cpp: the handlers of a connection's asynchronous operations. At most one
-- operation and one wait of the timer are under way; a handler runs when its operation is done.
pub mod Steps
pub mod Writes
pub mod Faults
pub mod Isolated
use remote_backup_m.Prelude.{
  ℕ, zero, suc, ◌+◌, ◌-◌, Bool, true, false, not, List, [], ◌∷◌, ◌++◌, Bytes, length, take, drop,
  replicate, ascii, Option, none, some, Outcome, ok, err, undefined_behaviour, ◌>>=◌, leb,
  if◌then◌else◌, Eq,
}
use remote_backup_m.Shared.Types.{MsgType, msg_code, ErrType, err_code, ConnRes}
use remote_backup_m.Shared.Decimal.{pos}
use remote_backup_m.Shared.Message.{Message, size}
use remote_backup_m.Shared.Platform.{Platform}
use remote_backup_m.Server.User.{User, fresh_user}
use remote_backup_m.Server.Streams.{Streams, erase_stream}
use remote_backup_m.Server.Logger.{Logger, log_text, log_message, log_result}
use remote_backup_m.Server.Queue.{new_queue, chunk_size, front, pop, empty}
use remote_backup_m.Server.Session.{Session}
use remote_backup_m.Server.Handler

-- What a connection waits for. Behind the write of a message, `handle_completion` is called for the
-- last one, and `write_response` for another.
pub data Operation : Type 0 where
  handshake read_header read_body write_header : Operation
  write_body : Bool → Operation

-- What is given to the socket: the length of a message, or its bytes.
pub data Sent : Type 0 where
  header_out : ℕ → Sent
  body_out : Bytes → Sent

-- The end of an operation, with whether there was an error and with what was read; the end of a wait
-- of the timer, and one with an error other than `operation_aborted`, which does nothing.
pub data Event : Type 0 where
  handshaken : Bool → Event
  header_read : Bool → ℕ → Event
  body_read : Bool → Bytes → Event
  header_written body_written : Bool → Event
  expired timer_failed : Event

module _ (P : Platform) where
  -- `timer` is whether a wait is under way, and `is_open` whether the socket was not shut down.
  pub record Connection : Type 0 where
    pub session : Session P
    pub log : Logger
    pub header : ℕ
    pub buffer : Bytes
    pub msg : Message
    pub timed_out : Bool
    pub timer : Bool
    pub pending : Option Operation
    pub sent : List Sent
    pub is_open : Bool

  -- What the members hold that have no initialiser is in the arguments.
  unfoldable pub new_connection : Bool → Bool → ℕ → Logger → P.Disk → Streams P → Connection
  new_connection auth synced header log disk streams = record {
    session = record {
      disk = disk;
      streams = streams;
      user = fresh_user auth synced;
      replies = new_queue (msg_code MsgType.none);
    };
    log = log;
    header = header;
    buffer = replicate chunk_size 0;
    msg = record { raw = [] };
    timed_out = false;
    timer = false;
    pending = none;
    sent = [];
    is_open = true;
  }

  unfoldable pub schedule_timeout : Connection → Connection
  schedule_timeout c = record c { timer = true }

  unfoldable pub shutdown : Connection → Connection
  shutdown c = record c {
    session = record c.session { streams = erase_stream P c.session.user.id c.session.streams };
    timer = false;
    log = log_text c.session.user (ascii "Shutdown") c.log;
    is_open = false;
  }

  unfoldable pub log_read : Connection → Outcome Connection
  log_read c = do
    log ←
        log_result c.session.user (msg_code MsgType.none) (pos (err_code ErrType.none)) ConnRes.err
          c.log
    ok (record c { log = log })

  unfoldable pub log_write : Bool → Connection → Outcome Connection
  log_write e c = do
    log ←
        log_result c.session.user c.session.replies.msg_type c.session.replies.err_type
          (if not e then ConnRes.ok else ConnRes.err) c.log
    ok (record c { log = log })

  unfoldable pub read_request : Bool → Connection → Outcome Connection
  read_request e c =
      if c.timed_out
      then ok c
      else if e
      then (log_read c >>= λ c'. ok (shutdown c'))
      else ok (record (schedule_timeout c) { pending = some read_header })

  -- The handler of the first read in `read_request`. The second one fills the buffer up to the
  -- header's value, or up to the buffer's end.
  unfoldable pub on_header : Bool → ℕ → Connection → Outcome Connection
  on_header e header c =
      let c' = record c { header = header } in
      if c'.timed_out
      then ok c'
      else if e
      then (log_read c' >>= λ c''. ok (shutdown c''))
      else ok (record (schedule_timeout c') { pending = some read_body })

  unfoldable pub handle_completion : Bool → Connection → Outcome Connection
  handle_completion e c =
      if c.timed_out
      then ok c
      else (log_write e c >>= λ c'. if e then ok (shutdown c') else read_request e c')

  unfoldable pub write_response : Bool → Connection → Outcome Connection
  write_response e c =
      if c.timed_out
      then ok c
      else if e
      then (log_write e c >>= λ c'. ok (shutdown c'))
      else (front c.session.replies >>= λ m. ok (record c {
        header = size m;
        sent = c.sent ++ (header_out (size m) ∷ []);
        pending = some write_header;
      }))

  -- The next reply is taken from the queue, logged and sent.
  unfoldable pub send_front : Connection → Outcome Connection
  send_front c = do
    m ← front c.session.replies
    replies ← pop c.session.replies
    log ← log_message P c.session.user m (record c.log { cout = c.log.cout ++ ascii "TO\t" })
    ok (record c {
      session = record c.session { replies = replies };
      log = log;
      msg = m;
      sent = c.sent ++ (body_out m.raw ∷ []);
      pending = some (write_body (empty replies));
    })

  -- The handler of the first write in `write_response`.
  unfoldable pub on_header_written : Bool → Connection → Outcome Connection
  on_header_written e c =
      if c.timed_out
      then ok c
      else if e
      then (log_write e c >>= λ c'. ok (shutdown c'))
      else send_front c

  -- `buffer` with the bytes that the read delivered at its begin.
  unfoldable pub fill : Bytes → Connection → Connection
  fill bytes c = record c { buffer = bytes ++ drop (length bytes) c.buffer }

  -- `message{vector(begin, next(begin, header_))}`: the buffer ends before a larger header does.
  unfoldable pub received : Connection → Outcome Message
  received c =
      if leb c.header (length c.buffer)
      then ok (record { raw = take c.header c.buffer })
      else err undefined_behaviour

module _ (P : Platform) ⦃e : Eq P.FsPath⦄ (backup_root credentials_path : P.FsPath) where
  unfoldable pub serve : Connection P → Outcome (Connection P)
  serve c = do
    m ← received P c
    log ← log_message P c.session.user m (record c.log { cout = c.log.cout ++ ascii "FROM\t" })
    session ← Handler.handle_request P backup_root credentials_path m c.session
    write_response P false (record c { msg = m; log = log; session = session })

  unfoldable pub handle_request : Bool → Connection P → Outcome (Connection P)
  handle_request e c =
      if c.timed_out
      then ok c
      else if e
      then (log_read P c >>= λ c'. ok (shutdown P c'))
      else serve (record c { timer = false })

  unfoldable pub start : Bytes → Connection P → Connection P
  start ip c =
      let user = record c.session.user { ip = ip } in
      record (schedule_timeout P c) {
        session = record c.session { user = user };
        log = log_text user (ascii "Accepted connection") c.log;
        pending = some handshake;
      }

  unfoldable pub on_body : Bool → Connection P → Bool → Outcome (Connection P)
  on_body last c e = if last then handle_completion P e c else write_response P e c

  -- The handler that runs at an event. An operation is over when its handler runs.
  unfoldable pub react : Operation → Event → Connection P → Outcome (Connection P)
  react handshake (handshaken e) c = read_request P e (record c { pending = none })
  react read_header (header_read e n) c = on_header P e n (record c { pending = none })
  react read_body (body_read e bytes) c =
      handle_request e (fill P bytes (record c { pending = none }))
  react write_header (header_written e) c = on_header_written P e (record c { pending = none })
  react (write_body last) (body_written e) c = on_body last (record c { pending = none }) e
  react op expired c = ok (shutdown P (record c { timed_out = true }))
  react op timer_failed c = ok (schedule_timeout P c)
  react op _ c = ok c

  -- The handlers at several events, while the connection has an operation under way.
  unfoldable pub run : List Event → Connection P → Outcome (Connection P)
  run [] c = ok c
  run (event ∷ rest) c = elim c.pending [
    | none ↦ ok c
    | some op ↦ (react op event c >>= λ c'. run rest c')
  ]
