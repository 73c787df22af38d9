-- ===== src/Tests/Connections.antt =====
-- A connection on the toy platform.
use remote_backup_m.Prelude.{
  ◌≡◌, refl, true, false, [], ◌∷◌, ◌++◌, Bytes, List, ascii, some, ok, err, undefined_behaviour,
  bytes_eq, replicate, All, arith,
}
use remote_backup_m.Shared.Types.{ErrType}
use remote_backup_m.Shared.Message.{Tlv, size}
use remote_backup_m.Server.Logger.{Logger, name_in, msg_names, log_message}
use remote_backup_m.Server.Logger.Lines.{Readable, ReadableMessage, log_message-Readable}
use remote_backup_m.Server.Handler.Answered.{Answered}
use remote_backup_m.Server.Handler.Answered.Any.{handle_request-Answered}
use remote_backup_m.Server.Connection.{
  Connection, handshake, read_header, read_body, handshaken, body_read, expired, new_connection,
  start, react, run, read_request, schedule_timeout, shutdown,
}
use remote_backup_m.Server.Connection.Steps.{begun, reacted, Sound}
use remote_backup_m.Server.Connection.Steps.Reached.{reached-Sound}
use remote_backup_m.Server.Connection.Writes.{Finished, written}
use remote_backup_m.Server.Connection.Writes.Served.{reading, run-Serves}
use remote_backup_m.Server.Connection.Faults.{unknown_type, waiting, react-Fault}
use remote_backup_m.Server.Connection.Isolated.{Isolated, react-Isolated}
use remote_backup_m.Tests.Toy.{toy}
use remote_backup_m.Tests.Runs

abbrev pub logger : Logger
logger = record { ofs = []; cout = []; now = λ n. 116 ∷ []; calls = 0 }

abbrev auth_segments : List Tlv
auth_segments =
    record { tag = 0; value = 117 ∷ [] }
    ∷ record { tag = 1; value = 112 ∷ 120 ∷ [] }
    ∷ record { tag = 3; value = [] }
    ∷ []

auth_segments-Readable : All (Readable toy) auth_segments
auth_segments-Readable = (
  record {
    known = omega arith;
    sign = λ e. absurd (omega arith);
    code = λ e. absurd (omega arith);
  },
  (
    record {
      known = omega arith;
      sign = λ e. absurd (omega arith);
      code = λ e. absurd (omega arith);
    },
    (
      record {
        known = omega arith;
        sign = λ e. absurd (omega arith);
        code = λ e. absurd (omega arith);
      },
      tt,
    ),
  ),
)

log_message-Readable_example :
    (name : Bytes) × (lines : Bytes) × (name_in msg_names 5 ≡ ok name)
    × (log_message toy Runs.stranger Runs.auth_request logger
        ≡ ok (record logger { cout = ascii ":" ++ name ++ ascii "\n" ++ lines }))
log_message-Readable_example =
    log_message-Readable toy Runs.stranger Runs.auth_request logger 5 auth_segments refl
      (omega arith) auth_segments-Readable

handle_request-Answered_example : Answered toy Runs.welcomed
handle_request-Answered_example =
    handle_request-Answered toy (114 ∷ []) (99 ∷ []) Runs.auth_request Runs.start Runs.welcomed
      Runs.auth-welcomed

abbrev opened : Connection toy
opened =
    start toy (114 ∷ []) (99 ∷ []) (49 ∷ []) (new_connection toy false false 0 logger Runs.disk [])

abbrev silent : Connection toy
silent = record opened { pending = some read_header; timer = true }

handshake-done : react toy (114 ∷ []) (99 ∷ []) handshake (handshaken false) opened ≡ ok silent
unfolding react read_request schedule_timeout start new_connection
handshake-done = refl

abbrev dropped : Connection toy
dropped = shutdown toy (record silent { timed_out = true })

timed-out : react toy (114 ∷ []) (99 ∷ []) read_header expired silent ≡ ok dropped
unfolding react
timed-out = refl

opened-handshake : opened.pending ≡ some handshake
unfolding start
opened-handshake = refl

silent-Sound : Sound toy dropped
silent-Sound =
    reached-Sound toy (114 ∷ []) (99 ∷ []) false false 0 logger Runs.disk [] (49 ∷ []) dropped (
      reacted silent dropped read_header expired
        (reacted opened silent handshake (handshaken false) begun opened-handshake handshake-done)
        refl timed-out)

-- A connection with a small buffer.
abbrev small : Connection toy
small = record {
  session = Runs.start;
  log = logger;
  header = 0;
  buffer = replicate 20 0;
  msg = record { raw = [] };
  timed_out = false;
  timer = true;
  pending = some read_header;
  sent = [];
  is_open = true;
}

reply-Readable : ReadableMessage toy (record { raw = 5 ∷ 4 ∷ 0 ∷ 0 ∷ 3 ∷ 0 ∷ 0 ∷ [] })
reply-Readable = record {
  type = 5;
  segments = record { tag = 4; value = [] } ∷ record { tag = 3; value = [] } ∷ [];
  framed = refl;
  known = omega arith;
  readable = (
    record {
      known = omega arith;
      sign = λ e. absurd (omega arith);
      code = λ e. absurd (omega arith);
    },
    (
      record {
        known = omega arith;
        sign = λ e. absurd (omega arith);
        code = λ e. absurd (omega arith);
      },
      tt,
    ),
  );
}

size-auth_request : size Runs.auth_request ≡ 13
unfolding size
size-auth_request = refl

run-Serves_example : Finished toy [] Runs.welcomed (
    run toy
      (114 ∷ [])
      (99 ∷ [])
      (body_read false Runs.auth_request.raw ∷ written Runs.welcomed.replies.msgs)
      (reading toy small Runs.auth_request))
run-Serves_example =
    run-Serves toy (114 ∷ []) (99 ∷ []) small Runs.auth_request Runs.welcomed ErrType.none
      (omega (arith, size-auth_request))
      (record {
        type = 5;
        segments = auth_segments;
        framed = refl;
        known = omega arith;
        readable = auth_segments-Readable;
      })
      Runs.auth-welcomed (reply-Readable, tt) (omega arith) refl

-- One byte, which is no type.
react-Fault_example :
    react toy (114 ∷ []) (99 ∷ []) read_body (body_read false (8 ∷ [])) (waiting toy 1 small)
    ≡ err undefined_behaviour
react-Fault_example =
    react-Fault toy (114 ∷ []) (99 ∷ []) 1 (8 ∷ []) small (omega arith)
      (unknown_type 8 [] refl (omega arith) (omega arith) (omega arith))

-- A client that has a stream open, beside another user's, and goes silent.
abbrev sharing : Connection toy
sharing = record silent {
  session = record silent.session {
    user = record silent.session.user { id = 117 ∷ [] };
    streams = (117 ∷ [], 97 ∷ []) ∷ (118 ∷ [], 98 ∷ []) ∷ [];
  };
}

sharing-expired :
    react toy (114 ∷ []) (99 ∷ []) read_header expired sharing
    ≡ ok (shutdown toy (record sharing { timed_out = true }))
unfolding react
sharing-expired = refl

react-Isolated_example : Isolated toy sharing (shutdown toy (record sharing { timed_out = true }))
react-Isolated_example =
    react-Isolated toy (114 ∷ []) (99 ∷ []) read_header expired sharing _ sharing-expired
