-- ===== src/Backup.antt =====
-- Client and server together: what client/core/connection.cpp sends for a file is what
-- server/core/request_handler.cpp serves, and its replies are what the client reads.
pub mod Exchanges
pub mod Requested
pub mod Created
pub mod Restored
use remote_backup_m.Prelude.{List, [], ◌∷◌, ◌++◌}
use remote_backup_m.Shared.Message.{Message}
use remote_backup_m.Client.Posting.{WriteEnd, done}

-- All replies, in order.
abbrev pub flatten : List (List Message) → List Message
flatten [] = []
flatten (ms ∷ replies) = ms ++ flatten replies

-- A write that ends well for each message.
abbrev pub all_done : List Message → List WriteEnd → List WriteEnd
all_done [] ends = ends
all_done (m ∷ ms) ends = done ∷ all_done ms ends
