-- ===== src/Client/Listing.antt =====
-- `restore` of client/core/scheduler.cpp, and `sync` up to the reply that it works on.
pub mod Asked
use remote_backup_m.Prelude.{
  ℕ, zero, suc, Bool, List, [], ◌∷◌, Bytes, Option, none, some, Outcome, ok, err, exit_failure,
  out_of_fuel, ◌>>=◌, deref, if◌then◌else◌,
}
use remote_backup_m.Shared.Message.{Message}
use remote_backup_m.Shared.Platform.{Platform}
use remote_backup_m.Client.Resource.{yes, no, indeterminate}
use remote_backup_m.Client.Incoming.{Answer}
use remote_backup_m.Client.Posting.{Socket, sync_post}
use remote_backup_m.Client.Retrieve.{retrieve}
use remote_backup_m.Client.Sync.{list_request, listed_signs}
use remote_backup_m.Client.Login.{Scheduler, reconnect}

module _ (P : Platform) where
  -- Each file of the server's, whether the one before was retrieved or not.
  unfoldable pub retrieve_all : P.FsPath → List Bytes → Socket → P.Disk → Outcome (Socket × P.Disk)
  retrieve_all root [] socket disk = ok (socket, disk)
  retrieve_all root (sign ∷ signs) socket disk =
      retrieve P root sign socket disk >>= λ r. retrieve_all root signs r.0 r.1

  abbrev pub listed_reply : Answer → Outcome Message
  listed_reply (yes, m) = deref m
  listed_reply (_, m) = err exit_failure

  unfoldable pub restore : P.FsPath → Socket → P.Disk → Outcome (Socket × P.Disk)
  restore root socket disk = do
    response ← sync_post list_request socket
    m ← listed_reply response.0
    signs ← listed_signs m
    retrieve_all root signs response.1 disk

module _ (matches : Bytes → Bytes → Bool) where
  -- The reply that `sync` works on. Where the connection is lost, `reconnect` may call `sync` again,
  -- a round for each time, and `none` is that it does not.
  unfoldable pub sync_answer : ℕ → Scheduler → Outcome (Option Message × Scheduler)
  sync_answer zero s = err out_of_fuel
  sync_answer (suc fuel) s =
      let again : Scheduler → Outcome (Option Message × Scheduler) = λ s'. sync_answer fuel s' in
      sync_post list_request s.socket >>= λ response. elim response.0.0 [
        | no ↦ err exit_failure
        | yes ↦ (deref response.0.1 >>= λ m. ok (some m, record s { socket = response.1 }))
        | indeterminate ↦
            (reconnect matches (record s { socket = response.1 }) >>= λ r.
            if r.1 then again r.0 else ok (none, r.0))
      ]
