-- ===== src/Client/Rounds.antt =====
-- The client at work: the passes of client/core/file_watcher.cpp, the functions that
-- client/core/scheduler.cpp posts, and the replies that its handlers get, in any order.
pub mod Paths
pub mod Passed
pub mod Gone
pub mod Walked
pub mod Scheduled
pub mod Touched
pub mod Tracked
use remote_backup_m.Prelude.{List, [], ◌∷◌, ◌++◌, ◌≡◌, ◌≢◌, Option, Outcome, ok, ◌>>=◌, Eq}
use remote_backup_m.Shared.Types.{MsgType, msg_code, TlvType, tlv_code}
use remote_backup_m.Shared.Message.{Message, Tlv, encode_all}
use remote_backup_m.Shared.Platform.{Platform}
use remote_backup_m.Shared.Dir.{Dir}
use remote_backup_m.Client.Resource.{CResource}
use remote_backup_m.Client.Replies.{handle_create, handle_update, handle_erase}
use remote_backup_m.Client.Tasks.{Task, Posted, Client, run_task}
use remote_backup_m.Client.Watcher.{pass}
use remote_backup_m.Client.Sync.{SyncState, sync_reply}
use remote_backup_m.Client.Sync.Compared.{Pairs}
use remote_backup_m.Client.Sync.Listed.{items_of}
use remote_backup_m.Client.Sync.Decided.{split_signs}
use remote_backup_m.Shared.Dir.Entries.{NodupKeys}

module _ (P : Platform) ⦃e : Eq P.FsPath⦄ where
  -- The handler that was posted with a request.
  abbrev pub reply_to :
      MsgType
      → Posted P.FsPath
      → Option Message
      → Dir P.FsPath CResource
      → Outcome (Dir P.FsPath CResource)
  reply_to MsgType.create p response d = handle_create p.relative_path p.sign response d
  reply_to MsgType.update p response d = handle_update p.relative_path p.sign response d
  reply_to _ p response d = handle_erase p.relative_path p.sign response d

  unfoldable pub run_tasks : List (Task P.FsPath) → Client P → Outcome (Client P)
  run_tasks [] c = ok c
  run_tasks (task ∷ tasks) c = run_task P task c >>= λ c'. run_tasks tasks c'

  -- The reply to a LIST with these files: it does not begin with an ERROR, its signs are split, and no
  -- path is in it twice.
  pub record Lists (m : Message) : Type 0 where
    pub head : Tlv
    pub rest : List Tlv
    pub files : Pairs P
    pub written : m.raw ≡ msg_code MsgType.list ∷ encode_all (head ∷ rest)
    pub no_error : head.tag ≢ tlv_code TlvType.error
    pub split : split_signs P (items_of (head ∷ rest)) ≡ ok files
    pub once : NodupKeys files

  -- `sync` gets its reply, at the start or behind a connection that was lost, while no request waits,
  -- and the functions that it posts run. Something changes the files, the watcher makes a pass and the functions that it posts run, or the
  -- handler of one of the requests is called, with any reply or with none. A connection that is lost while
  -- a request waits makes `sync` run before the handler of that request; that is left out.
  pub data Turn (c : Client P) : Client P → Type 0 where
    synced :
        (s_path : P.FsPath) (m : Message) (s : SyncState P) (c' : Client P)
        → c.posted ≡ []
        → Lists m
        → sync_reply P s_path m c.dir ≡ ok s
        → run_tasks s.tasks (record c { dir = s.dir }) ≡ ok c'
        → Turn c c'
    changed : (disk : P.Disk) → Turn c (record c { disk = disk })
    passed :
        (tasks : List (Task P.FsPath)) (c' : Client P)
        → pass P c.dir c.disk ≡ ok tasks
        → run_tasks tasks c ≡ ok c'
        → Turn c c'
    replied :
        (before after : List (Posted P.FsPath)) (p : Posted P.FsPath) (response : Option Message)
        (dir : Dir P.FsPath CResource)
        → c.posted ≡ before ++ (p ∷ after)
        → reply_to p.kind p response c.dir ≡ ok dir
        → Turn c (record c { posted = before ++ after; dir = dir })

  pub data Reached (c : Client P) : Client P → Type 0 where
    start : Reached c c
    next : (c' c'' : Client P) → Reached c c' → Turn c' c'' → Reached c c''
