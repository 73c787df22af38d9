-- ===== src/Lib.antt =====
-- The remote backup of this repository: a client that watches a directory and a server that
-- keeps a copy of its files. They exchange messages, each a type byte and a sequence of segments
-- (type, length in two bytes, value). The server answers a request with a queue of messages,
-- which end with OK or ERROR and END, or which carry a file and end with END.
--
-- Parts of the program and files of this library:
-- - Prelude: names of the libraries, lists, and `Outcome`, which is how a call ends. An
--   exception that nothing catches, undefined behaviour and std::exit are values of `Failure`.
-- - Shared.Types: shared/communication/types.h.
-- - Shared.Message: shared/communication/message.cpp, with a description of the wire format
--   (`Tlv`, `encode_all`) that does not use the code.
-- - Shared.View: shared/communication/tlv_view.cpp. `walk` is the loop over next_tlv that every
--   reader of a message has; `segments` runs it on a whole message.
-- - Shared.Decimal: std::to_string and std::stoi, by which error codes travel.
-- - Shared.Platform: the file system, the streams, the hashes and the regular expressions, which
--   are parameters.
-- - Shared.Tools: shared/utilities/tools.cpp.
-- - Shared.Dir: shared/directory/dir.cpp.
-- - Shared.Chunks: shared/communication/f_message.cpp, a file in messages of CHUNK_SIZE bytes.
-- - Server.Resource, Server.User, Server.Streams, Server.Queue: server/directory/s_resource.cpp,
--   server/core/user.cpp, server/core/open_streams.cpp and
--   server/communication/message_queue.cpp.
-- - Server.Session: the state that a request may change (disk, open streams, user, replies), and
--   close_response.
-- - Server.Handler: server/core/request_handler.cpp. `handle_request` reads the type, makes the
--   queue of replies and hands the request to `dispatch`, which asks what the user has done so
--   far; the handlers stand in Auth (handle_auth, handle_list), Upload (handle_create,
--   handle_update) and Remove (handle_erase, handle_retrieve).
-- - Client.Resource, Client.Replies, Client.Retrieve, Client.Tasks, Client.Sync:
--   client/directory/c_resource.cpp and client/core/scheduler.cpp: what a reply does to the
--   client, the retrieval of a file, the requests that are posted, and the comparison with the
--   list of the server.
-- - Server.Logger: server/utilities/logger.cpp.
-- - Server.Delivery: the messages that the client makes of a file, served one after the other:
--   from shared/communication/f_message.cpp to handle_create of server/core/request_handler.cpp.
--   Laws is what that relies on of the file system.
-- - Server.Connection: server/core/connection.cpp. `react` is the handler that runs at the end
--   of an operation (`Operation`, `Event`) and `run` a sequence of them; Steps has the relation
--   of the states that are reached, in which other connections and the timer may intervene. A
--   request goes from the body that was read through Server.Handler to the writes of the
--   replies.
-- - Server.Acceptor: server/core/server.cpp: connections are accepted and their handlers run in
--   any order, a relation of the states of the server.
-- - Client.Incoming: read of client/core/connection.cpp, which puts the messages of a reply
--   together.
-- - Client.Posting: the writes, sync_post, async_post, connect and the keep-alive timer of
--   client/core/connection.cpp. The network is a `Socket` with a script of what it does next;
--   the handler of a reconnection is a parameter.
-- - Client.Login, Client.Listing: client/core/auth_data.cpp and login, auth, reconnect, restore
--   and sync of client/core/scheduler.cpp.
-- - Client.Main: client/main.cpp: the login, and then the restore or the start of the threads
--   that work while the directory is watched.
-- - Client.Watcher: client/core/file_watcher.cpp: what a pass over the directory schedules.
-- - Client.Rounds: the client at work, a relation of its states: the comparison with the list of
--   the server while no request waits, passes of the watcher, the functions that they post, and
--   the handlers of the replies.
-- - Backup: client and server together. Created: a task of the client, the messages that it
--   posts, the server that serves them, and what the client makes of the replies. Restored: a
--   request for a file, what the server replies, and the file that the client stores.
-- - Tests: the theorems at concrete inputs, on a platform whose disk is a list of files.
--
-- Words: a byte is a number, and the code that writes one takes it `% 256`. A size_t is a number
-- below 2 ^ 64, and its differences wrap (`sub64`). An int is `ℤ` with the range checks of
-- std::stoi.
--
-- Fuel: `segments` runs `walk` for one round more than the message has bytes, and each round
-- consumes three at least. `send_file` runs `all_chunks` for two rounds more than the file has
-- bytes. The loops of the client over a reply (`find_end`, `copy_contents`, `items_from`) and
-- the logger over a message (`log_segments`) run for one round more than the message has bytes.
-- `post_chunks` runs for a given number of chunks, and `sync_answer` for one of lost
-- connections. `remove_empty` runs for one round more than the path above the erased file has
-- bytes.
--
-- Not modelled: the set-up of sockets and of TLS, the thread pools (a handler is one step) and
-- what the network library does with a socket or a timer (what it reports is an argument), a
-- failure to set a timer, the terminal output but for that of the logger, the command lines,
-- what other threads of the client do during a pass of the watcher, and the comparison with the
-- list of the server that runs when the connection is lost while a request waits. What is read
-- from the buffer of a destroyed string, the text of an error code in close_response, is a
-- parameter of which nothing is assumed. The mutexes of `dir` and `open_streams` make each of
-- their calls one step. Hash tables are lists of entries.
pub mod Prelude
pub mod Shared
pub mod Server
pub mod Client
pub mod Backup
pub mod Tests
