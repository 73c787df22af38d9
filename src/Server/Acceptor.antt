-- ===== src/Server/Acceptor.antt =====
-- server/core/server.cpp: the connections of a running server. They share the files, the streams and the
-- log. A handler is one step here, whichever thread of the pool runs it.
pub mod Served
use remote_backup_m.Prelude.{
  ℕ, Bool, true, false, List, [], ◌∷◌, ◌++◌, Bytes, ◌≡◌, Option, some, Outcome, ok, if◌then◌else◌,
  Eq,
}
use remote_backup_m.Shared.Platform.{Platform}
use remote_backup_m.Server.Streams.{Streams}
use remote_backup_m.Server.Logger.{Logger}
use remote_backup_m.Server.Connection.{Operation, Event, Connection, new_connection, start, react}
use remote_backup_m.Server.Connection.Steps.{disturbed}

-- What the members of a new connection hold that have no initialiser.
pub record Garbage : Type 0 where
  pub auth : Bool
  pub synced : Bool
  pub header : ℕ

module _ (P : Platform) where
  -- The files, streams and log of a connection in the list are out of date: those of the server count.
  pub record Server : Type 0 where
    pub disk : P.Disk
    pub streams : Streams P
    pub log : Logger
    pub new_connection_ptr : Connection P
    pub connections : List (Connection P)
    pub running : Bool

  -- The connection with what the server shares.
  abbrev pub seen : Server → Connection P → Connection P
  seen s c = disturbed P s.disk s.streams s.log c

  abbrev pub fresh_connection : Garbage → P.Disk → Streams P → Logger → Connection P
  fresh_connection g disk streams log = new_connection P g.auth g.synced g.header log disk streams

  unfoldable pub start_accept : Garbage → Server → Server
  start_accept g s = record s { new_connection_ptr = fresh_connection g s.disk s.streams s.log }

  -- The constructor.
  unfoldable pub new_server : Garbage → P.Disk → Logger → Server
  new_server g disk log = record {
    disk = disk;
    streams = [];
    log = log;
    new_connection_ptr = fresh_connection g disk [] log;
    connections = [];
    running = true;
  }

  unfoldable pub handle_stop : Server → Server
  handle_stop s = record s { running = false }

  -- A handler of this connection ran.
  abbrev pub replaced : List (Connection P) → Connection P → List (Connection P) → Server → Server
  replaced before c after s = record s {
    disk = c.session.disk;
    streams = c.session.streams;
    log = c.log;
    connections = before ++ (c ∷ after);
  }

module _ (P : Platform) ⦃e : Eq P.FsPath⦄ (root credentials : P.FsPath) where
  -- `ip` is the address of the client.
  unfoldable pub handle_accept : Bool → Bytes → Garbage → Server P → Server P
  handle_accept e ip g s =
      let started = start P root credentials ip (seen P s s.new_connection_ptr) in
      start_accept P g (if e then s else replaced P s.connections started [] s)

  -- The acceptor's operation ends, an operation of a connection ends, or a signal stops the server.
  pub data Step (s : Server P) : Server P → Type 0 where
    accepted :
        (e : Bool) (ip : Bytes) (g : Garbage) → s.running ≡ true → Step s (handle_accept e ip g s)
    handled :
        (before after : List (Connection P)) (c c' : Connection P) (op : Operation) (event : Event)
        → s.running ≡ true
        → s.connections ≡ before ++ (c ∷ after)
        → c.pending ≡ some op
        → react P root credentials op event (seen P s c) ≡ ok c'
        → Step s (replaced P before c' after s)
    stopped : Step s (handle_stop P s)

  pub data Runs (s : Server P) : Server P → Type 0 where
    booted : Runs s s
    stepped : (t t' : Server P) → Runs s t → Step t t' → Runs s t'
