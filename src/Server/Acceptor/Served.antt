-- ===== src/Server/Acceptor/Served.antt =====
-- Each connection of a running server goes through the states of a connection on its own.
use remote_backup_m.Prelude.{◌≡◌, refl, sym, subst, true, false, List, [], ◌∷◌, ◌++◌, Bytes, Eq}
use remote_backup_m.Shared.Platform.{Platform}
use remote_backup_m.Server.Streams.{Streams}
use remote_backup_m.Server.Logger.{Logger}
use remote_backup_m.Server.Connection.{Connection, new_connection, start}
use remote_backup_m.Server.Connection.Steps.{Reach, begun, reacted, others, Sound}
use remote_backup_m.Server.Connection.Steps.Reached.{reached-Sound}
use remote_backup_m.Server.Acceptor.{
  Garbage, Server, seen, fresh_connection, start_accept, new_server, handle_stop, replaced,
  handle_accept, Step, accepted, handled, stopped, Runs, booted, stepped,
}

module _ (P : Platform) ⦃e : Eq P.FsPath⦄ (root credentials : P.FsPath) where
  -- The connection, as the server sees it, is in a state that a new one reaches when it is started.
  pub record From (s : Server P) (c : Connection P) : Type 0 where
    pub garbage : Garbage
    pub disk : P.Disk
    pub streams : Streams P
    pub log : Logger
    pub ip : Bytes
    pub reach :
        Reach P root credentials
          (start P root credentials ip (fresh_connection P garbage disk streams log))
          (seen P s c)

  abbrev AllFrom : Server P → List (Connection P) → Type 0
  AllFrom s [] = Unit {0}
  AllFrom s (c ∷ cs) = From s c × AllFrom s cs

  -- The connection that waits for a client is new.
  record Waiting (c : Connection P) : Type 0 where
    garbage : Garbage
    disk : P.Disk
    streams : Streams P
    log : Logger
    made : c ≡ fresh_connection P garbage disk streams log

  record Serving (s : Server P) : Type 0 where
    waiting : Waiting s.new_connection_ptr
    connections : AllFrom s s.connections

  -- For the other connections, a step changes what is shared.
  From-other : (s t : Server P) (c : Connection P) → From s c → From t c
  From-other s t c f = record {
    garbage = f.garbage;
    disk = f.disk;
    streams = f.streams;
    log = f.log;
    ip = f.ip;
    reach = others (seen P s c) t.disk t.streams t.log f.reach;
  }

  AllFrom-other : (s t : Server P) (cs : List (Connection P)) → AllFrom s cs → AllFrom t cs
  AllFrom-other s t [] a = tt
  AllFrom-other s t (c ∷ cs) (f, a) = (From-other s t c f, AllFrom-other s t cs a)

  AllFrom-replace :
      (s t : Server P) (before after : List (Connection P)) (c c' : Connection P)
      → AllFrom s (before ++ (c ∷ after))
      → (From s c → From t c')
      → AllFrom t (before ++ (c' ∷ after))
  AllFrom-replace s t [] after c c' (f, a) h = (h f, AllFrom-other s t after a)
  AllFrom-replace s t (b ∷ before) after c c' (f, a) h =
      (From-other s t b f, AllFrom-replace s t before after c c' a h)

  AllFrom-last :
      (s t : Server P) (cs : List (Connection P)) (c : Connection P)
      → AllFrom s cs
      → From t c
      → AllFrom t (cs ++ (c ∷ []))
  AllFrom-last s t [] c a f = (f, tt)
  AllFrom-last s t (b ∷ cs) c (g, a) f = (From-other s t b g, AllFrom-last s t cs c a f)

  started-From :
      (s : Server P) (ip : Bytes) (g : Garbage)
      → Waiting s.new_connection_ptr
      → From
          (handle_accept P root credentials false ip g s)
          (start P root credentials ip (seen P s s.new_connection_ptr))
  unfolding handle_accept start_accept new_connection start
  started-From s ip g w = record {
    garbage = w.garbage;
    disk = s.disk;
    streams = s.streams;
    log = s.log;
    ip = ip;
    reach =
        subst
          (λ c.
            Reach P root credentials
              (start P root credentials ip (fresh_connection P w.garbage s.disk s.streams s.log))
              (start P root credentials ip (seen P s c)))
          (sym w.made) begun;
  }

  step-Serving : (s t : Server P) → Step P root credentials s t → Serving s → Serving t
  unfolding handle_accept start_accept handle_stop
  step-Serving s _ (accepted true ip g r) v = record {
    waiting = record { garbage = g; disk = s.disk; streams = s.streams; log = s.log; made = refl };
    connections = AllFrom-other s _ s.connections v.connections;
  }
  step-Serving s _ (accepted false ip g r) v = record {
    waiting = record { garbage = g; disk = _; streams = _; log = _; made = refl };
    connections =
        AllFrom-last s (handle_accept P root credentials false ip g s) s.connections _ v.connections
          (started-From s ip g v.waiting);
  }
  step-Serving s _ (handled before after c c' op event r at p h) v = record {
    waiting = v.waiting;
    connections =
        AllFrom-replace s (replaced P before c' after s) before after c c'
          (subst (AllFrom s) at v.connections)
          λ f. record {
            garbage = f.garbage;
            disk = f.disk;
            streams = f.streams;
            log = f.log;
            ip = f.ip;
            reach = reacted (seen P s c) c' op event f.reach p h;
          };
  }
  step-Serving s _ stopped v = record {
    waiting = v.waiting;
    connections = AllFrom-other s _ s.connections v.connections;
  }

  Runs-Serving : (s t : Server P) → Runs P root credentials s t → Serving s → Serving t
  Runs-Serving s _ booted v = v
  Runs-Serving s _ (stepped t t' r u) v = step-Serving t t' u (Runs-Serving s t r v)

  -- Each of these connections is sound, as the server sees it, and is in a state that one on its own
  -- reaches.
  abbrev pub AllSound : Server P → List (Connection P) → Type 0
  AllSound s [] = Unit {0}
  AllSound s (c ∷ cs) = (From s c × Sound P (seen P s c)) × AllSound s cs

  From-Sound : (s : Server P) (c : Connection P) → From s c → Sound P (seen P s c)
  From-Sound s c f =
      reached-Sound P root credentials f.garbage.auth f.garbage.synced f.garbage.header f.log f.disk
        f.streams f.ip (seen P s c) f.reach

  all-Sound : (s : Server P) (cs : List (Connection P)) → AllFrom s cs → AllSound s cs
  all-Sound s [] a = tt
  all-Sound s (c ∷ cs) (f, a) = ((f, From-Sound s c f), all-Sound s cs a)

  -- Every connection of a server that runs since its construction, whatever clients connect and send,
  -- whichever operations fail or time out, and in whatever order the handlers run, is, with the files,
  -- the streams and the log of the server, in a state that a new connection on its own reaches once it
  -- is started, where others may change files, streams and the log; and it is sound: it has a reply in
  -- the queue when one is to be written and none behind the last; if it is closed, it has no operation
  -- under way or one whose handler does nothing; and if it is open, it has an operation
  -- under way, and a timer while that waits for the client.
  pub Runs-AllSound :
      (g : Garbage) (disk : P.Disk) (log : Logger) (s : Server P)
      → Runs P root credentials (new_server P g disk log) s
      → AllSound s s.connections
  unfolding new_server
  Runs-AllSound g disk log s r =
      all-Sound s s.connections
        (Runs-Serving (new_server P g disk log) s r (record {
          waiting = record { garbage = g; disk = disk; streams = []; log = log; made = refl };
          connections = tt;
        })).connections
