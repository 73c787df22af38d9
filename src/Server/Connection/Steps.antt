-- ===== src/Server/Connection/Steps.antt =====
-- The states that a connection reaches, and what holds in all of them.
pub mod Kept
pub mod Reached
use remote_backup_m.Prelude.{
  ◌≡◌, ◌≢◌, refl, ◌⊎◌, inl, inr, Bool, true, false, List, [], Bytes, Option, none, some, Outcome,
  ok, Eq,
}
use remote_backup_m.Shared.Platform.{Platform}
use remote_backup_m.Server.Streams.{Streams}
use remote_backup_m.Server.Logger.{Logger}
use remote_backup_m.Server.Queue.{Queue, empty}
use remote_backup_m.Server.Connection.{
  Operation, handshake, read_header, read_body, write_header, write_body, Event, Connection, start,
  react,
}

module _ (P : Platform) where
  -- Other connections, which may have changed files, streams and the log.
  abbrev pub disturbed : P.Disk → Streams P → Logger → Connection P → Connection P
  disturbed disk streams log c = record c {
    session = record c.session { disk = disk; streams = streams };
    log = log;
  }

  abbrev pub waits_for_client : Option Operation → Bool
  waits_for_client (some handshake) = true
  waits_for_client (some read_header) = true
  waits_for_client (some read_body) = true
  waits_for_client _ = false

  abbrev pub HasReply : Option Operation → Queue → Type 0
  HasReply (some write_header) q = q.msgs ≢ []
  HasReply (some (write_body false)) q = q.msgs ≢ []
  HasReply (some (write_body true)) q = q.msgs ≡ []
  HasReply _ q = Unit

  -- The queue has a reply where `write_response` is to send one, and none behind the last. A
  -- connection is open, or it waits for no more than one operation, whose handler will do nothing. One that is open has an operation under way, and the timer is on while it
  -- waits for the client.
  pub record Sound (c : Connection P) : Type 0 where
    pub replies : HasReply c.pending c.session.replies
    pub timed_out : c.timed_out ≡ true → c.is_open ≡ false
    pub closed : c.is_open ≡ false → (c.pending ≡ none) ⊎ (c.timed_out ≡ true)
    pub alive : c.is_open ≡ true → c.pending ≢ none
    pub watched : c.is_open ≡ true → waits_for_client c.pending ≡ true → c.timer ≡ true

module _ (P : Platform) ⦃e : Eq P.FsPath⦄ (root credentials : P.FsPath) where
  -- The states that a connection reaches from `c`. The timer's handler may also run where a wait
  -- ended before it was cancelled.
  pub data Reach (c : Connection P) : Connection P → Type 0 where
    begun : Reach c c
    reacted :
        (d d' : Connection P) (op : Operation) (event : Event)
        → Reach c d
        → d.pending ≡ some op
        → react P root credentials op event d ≡ ok d'
        → Reach c d'
    others :
        (d : Connection P) (disk : P.Disk) (streams : Streams P) (log : Logger)
        → Reach c d
        → Reach c (disturbed P disk streams log d)
