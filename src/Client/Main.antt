-- ===== src/Client/Main.antt =====
-- client/main.cpp, from the options' values on: the number of threads, and `main` up to the end of a
-- restore or to the start of the threads that work while the directory is watched. What the command line says is parsed by a library.
pub mod Entered
use remote_backup_m.Prelude.{
  ℕ, Bool, true, false, List, Bytes, Outcome, ok, err, exit_failure, ◌>>=◌, ◌==◌, ltb,
  if◌then◌else◌, Eq,
}
use remote_backup_m.Shared.Platform.{Platform}
use remote_backup_m.Shared.Dir.{Dir, get_instance}
use remote_backup_m.Server.Handler.Remove.{is_exception}
use remote_backup_m.Client.Resource.{CResource}
use remote_backup_m.Client.Posting.{Socket, connect}
use remote_backup_m.Client.Login.{Scheduler, login}
use remote_backup_m.Client.Listing.{restore}
use remote_backup_m.Client.Watcher.{scan}

-- The value of the option `threads`, as it is corrected.
unfoldable pub threads : ℕ → ℕ
threads threads_val = if threads_val == 0 then 1 else if ltb 16 threads_val then 16 else threads_val

-- The handlers of `main` for exceptions, which all end the program in the same way.
abbrev pub caught : {A : Type 0} → Outcome A → Outcome A
caught (ok a) = ok a
caught (err failure) = if is_exception failure then err exit_failure else err failure

-- How far `main` is followed: a restore is over, or the threads of the pool are started, this many. From
-- there they send what the timer of the connection and the watcher ask for.
pub data Stage (P : Platform) : Type 0 where
  restored : Socket → P.Disk → Stage P
  pooled : ℕ → Socket → Stage P

-- `matches` is `boost::regex_match`.
module _ (P : Platform) ⦃e : Eq P.FsPath⦄ (matches : Bytes → Bytes → Bool) where
  abbrev pub check_login : Bool × Scheduler → Outcome Scheduler
  check_login (true, s) = ok s
  check_login (false, s) = err exit_failure

  unfoldable pub connect_and_login : Scheduler → Outcome Scheduler
  connect_and_login s = do
    socket ← connect s.socket
    r ← login matches (record s { socket = socket })
    check_login r

  -- `true` is the option `restore`.
  abbrev pub after_login : Bool → ℕ → P.FsPath → P.Disk → Scheduler → Outcome (Stage P)
  after_login true threads_val path_to_watch disk s =
      caught (restore P path_to_watch s.socket disk) >>= λ r. ok (restored r.0 r.1)
  after_login false threads_val path_to_watch disk s = ok (pooled (threads threads_val) s.socket)

  -- `mode` is the option `restore`, and `threads_val` the option `threads`.
  unfoldable pub run_main : Bool → ℕ → P.FsPath → Scheduler → P.Disk → Outcome (Stage P)
  run_main mode threads_val path_to_watch s disk =
      caught (connect_and_login s) >>= after_login mode threads_val path_to_watch disk
