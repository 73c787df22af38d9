-- ===== src/Client/Watcher.antt =====
-- client/core/file_watcher.cpp: the first scan of the directory, and one pass of the loop in `start`.
pub mod Pending
pub mod Quiet
use remote_backup_m.Prelude.{
  ℕ, Bool, true, false, not, List, [], ◌∷◌, ◌++◌, Bytes, length, Option, none, some, Outcome, ok,
  err, runtime_error, length_error, ◌>>=◌, ◌=?◌, bytes_eq, if◌then◌else◌, Eq,
}
use remote_backup_m.Shared.Platform.{Platform}
use remote_backup_m.Shared.Tools.{Digest, hashed, too_long, filesystem_error, md5_file}
use remote_backup_m.Shared.Dir.{Dir, rsrc, insert_or_assign, for_each}
use remote_backup_m.Server.Handler.Auth.{relative_to}
use remote_backup_m.Client.Resource.{Tribool, yes, no, indeterminate, CResource}
use remote_backup_m.Client.Tasks.{Task, create, update, erase, pending}

abbrev pub is_indeterminate : Tribool → Bool
is_indeterminate indeterminate = true
is_indeterminate _ = false

module _ (P : Platform) ⦃e : Eq P.FsPath⦄ where
  -- The digest of a file. A `filesystem_error` is not caught.
  unfoldable pub file_digest : P.FsPath → P.FsPath → P.Disk → Outcome Bytes
  file_digest absolute_path relative_path disk =
      elim (md5_file P absolute_path relative_path disk) [
        | hashed digest ↦ ok digest
        | too_long ↦ err length_error
        | filesystem_error ↦ err runtime_error
      ]

  -- The files below the directory, with their digests.
  unfoldable pub digests : ℕ → Bool → List P.FsPath → P.Disk → Outcome (List (P.FsPath × Bytes))
  digests n fails [] disk = if fails then err runtime_error else ok []
  digests n fails (absolute_path ∷ files) disk = do
    relative_path ← relative_to P n absolute_path
    digest ← file_digest absolute_path relative_path disk
    rest ← digests n fails files disk
    ok ((relative_path, digest) ∷ rest)

  unfoldable pub walk_files : P.FsPath → P.Disk → Outcome (List (P.FsPath × Bytes))
  walk_files root disk = do
    let files = P.regular_files root disk
    digests (length (P.string root)) files.1 files.0 disk

  abbrev pub scan_files : List (P.FsPath × Bytes) → Dir P.FsPath CResource → Dir P.FsPath CResource
  scan_files [] d = d
  scan_files ((relative_path, digest) ∷ files) d =
      scan_files files (insert_or_assign relative_path (pending P false digest) d).0

  -- The constructor.
  unfoldable pub scan : Dir P.FsPath CResource → P.Disk → Outcome (Dir P.FsPath CResource)
  scan d disk = walk_files d.path disk >>= λ files. ok (scan_files files d)

  -- A path that has an entry: erased, if the file is gone and the server has it.
  unfoldable pub check_missing : P.FsPath → P.Disk → P.FsPath × CResource → List (Task P.FsPath)
  check_missing root disk (relative_path, r) =
      if P.exists (P.join root relative_path) disk
      then []
      else if is_indeterminate r.synced
      then []
      else if r.exist_on_server
      then erase relative_path r.digest ∷ []
      else []

  unfoldable pub check_synced : P.FsPath → Bytes → CResource → Tribool → List (Task P.FsPath)
  check_synced relative_path digest r yes =
      if r.digest =? digest then [] else update relative_path digest ∷ []
  check_synced relative_path digest r no =
      if r.exist_on_server
      then update relative_path digest ∷ []
      else create relative_path digest ∷ []
  check_synced relative_path digest r indeterminate = []

  -- A file that is there.
  unfoldable pub check_file : Dir P.FsPath CResource → P.FsPath → Bytes → List (Task P.FsPath)
  check_file d relative_path digest = elim (rsrc relative_path d) [
    | none ↦ create relative_path digest ∷ []
    | some r ↦ check_synced relative_path digest r r.synced
  ]

  abbrev pub check_files : Dir P.FsPath CResource → List (P.FsPath × Bytes) → List (Task P.FsPath)
  check_files d [] = []
  check_files d ((relative_path, digest) ∷ files) =
      check_file d relative_path digest ++ check_files d files

  unfoldable pub missing : Dir P.FsPath CResource → P.Disk → List (Task P.FsPath)
  missing d disk = for_each (λ entry tasks. tasks ++ check_missing d.path disk entry) d []

  -- One pass. The tasks are posted, and none of them runs before the pass has ended here.
  unfoldable pub pass : Dir P.FsPath CResource → P.Disk → Outcome (List (Task P.FsPath))
  pass d disk = walk_files d.path disk >>= λ files. ok (missing d disk ++ check_files d files)
