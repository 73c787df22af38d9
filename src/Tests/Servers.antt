-- ===== src/Tests/Servers.antt =====
-- A server with two clients.
use remote_backup_m.Prelude.{◌≡◌, refl, false, [], ◌∷◌, ok, bytes_eq, some}
use remote_backup_m.Server.Connection.{
  Connection, handshake, read_header, handshaken, new_connection, start, react, read_request,
  schedule_timeout,
}
use remote_backup_m.Server.Acceptor.{
  Garbage, Server, seen, new_server, start_accept, handle_accept, handle_stop, replaced, accepted,
  handled, stopped, booted, stepped,
}
use remote_backup_m.Server.Acceptor.Served.{AllSound, Runs-AllSound}
use remote_backup_m.Tests.Toy.{toy}
use remote_backup_m.Tests.Runs
use remote_backup_m.Tests.Connections.{logger}

abbrev garbage : Garbage
garbage = record { auth = false; synced = false; header = 0 }

abbrev booted_server : Server toy
booted_server = new_server toy garbage Runs.disk logger

abbrev one_client : Server toy
one_client = handle_accept toy (114 ∷ []) (99 ∷ []) false (49 ∷ []) garbage booted_server

abbrev first : Connection toy
first =
    start toy (114 ∷ []) (99 ∷ []) (49 ∷ [])
      (seen toy booted_server booted_server.new_connection_ptr)

abbrev two_clients : Server toy
two_clients = handle_accept toy (114 ∷ []) (99 ∷ []) false (50 ∷ []) garbage one_client

abbrev second : Connection toy
second =
    start toy (114 ∷ []) (99 ∷ []) (50 ∷ []) (seen toy one_client one_client.new_connection_ptr)

abbrev reading : Connection toy
reading =
    record (schedule_timeout toy
      (record (seen toy two_clients first) { pending = some read_header })) {
        pending = some read_header;
      }

first-reads :
    react toy (114 ∷ []) (99 ∷ []) handshake (handshaken false) (seen toy two_clients first)
    ≡ ok reading
unfolding react read_request schedule_timeout start new_connection new_server handle_accept
    start_accept
first-reads = refl

Runs-AllSound_example :
    AllSound toy
      (114 ∷ [])
      (99 ∷ [])
      (handle_stop toy (replaced toy [] reading (second ∷ []) two_clients))
      (reading ∷ second ∷ [])
unfolding new_server handle_accept start_accept start new_connection handle_stop
Runs-AllSound_example =
    Runs-AllSound toy (114 ∷ []) (99 ∷ []) garbage Runs.disk logger
      (handle_stop toy (replaced toy [] reading (second ∷ []) two_clients))
      (stepped _ _
        (stepped two_clients _
          (stepped one_client _
            (stepped booted_server _ booted (accepted false (49 ∷ []) garbage refl))
            (accepted false (50 ∷ []) garbage refl))
          (handled [] (second ∷ []) first reading handshake (handshaken false) refl refl refl
            first-reads))
        stopped)
