-- ===== src/Server/Delivery.antt =====
-- A whole upload: the messages of a file, served by server/core/request_handler.cpp one after the
-- other.
pub mod Laws
pub mod Chunk
pub mod Middle
pub mod Last
pub mod Reply
pub mod Request
pub mod Served
pub mod Whole
use remote_backup_m.Prelude.{List, [], ◌∷◌, Outcome, ok, ◌>>=◌, Eq}
use remote_backup_m.Shared.Message.{Message}
use remote_backup_m.Shared.Platform.{Platform}
use remote_backup_m.Server.Session.{Session}
use remote_backup_m.Server.Handler.{handle_request}

module _ (P : Platform) ⦃e : Eq P.FsPath⦄ (backup_root credentials_path : P.FsPath) where
  -- The replies to each message, and the session behind the last.
  unfoldable pub serve_all : List Message → Session P → Outcome (List (List Message) × Session P)
  serve_all [] s = ok ([], s)
  serve_all (m ∷ ms) s = do
    s' ← handle_request P backup_root credentials_path m s
    r ← serve_all ms s'
    ok (s'.replies.msgs ∷ r.0, r.1)
