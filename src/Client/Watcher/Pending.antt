-- ===== src/Client/Watcher/Pending.antt =====
-- A file whose request waits for the server is left alone.
use remote_backup_m.Prelude.{
  ◌≡◌, refl, ap, ◌∙◌, Bool, true, false, [], Bytes, some, ok, Eq, Post, Post-ok, Post-bind,
  bytes_eq, Bool-cases, inl, inr,
}
use remote_backup_m.Shared.Platform.{Platform}
use remote_backup_m.Shared.Types.{MsgType}
use remote_backup_m.Shared.Chunks.{open_f_message}
use remote_backup_m.Shared.Dir.{rsrc}
use remote_backup_m.Shared.Dir.Entries.{NodupKeys, insert_or_assign_lem, beq_refl}
use remote_backup_m.Client.Resource.{indeterminate, CResource}
use remote_backup_m.Client.Tasks.{
  Task, create, update, erase, Client, pending, enter, post_file, run_task,
}
use remote_backup_m.Client.Watcher.{check_missing, check_synced, check_file}

module _ (P : Platform) ⦃e : Eq P.FsPath⦄ where
  abbrev pub path_of : Task P.FsPath → P.FsPath
  path_of (create k digest) = k
  path_of (update k digest) = k
  path_of (erase k digest) = k

  -- The entry of a path is one that waits, and a pass schedules nothing for the path, whatever the
  -- file's digest is and whether it is there.
  pub record Waits (k : P.FsPath) (c : Client P) : Type 0 where
    pub entry : CResource
    pub entered : rsrc k c.dir ≡ some entry
    pub waiting : entry.synced ≡ indeterminate
    pub no_file_task : (digest : Bytes) → check_file P c.dir k digest ≡ []
    pub no_missing_task :
        (root : P.FsPath) (disk : P.Disk) → check_missing P root disk (k, entry) ≡ []

  Waits-pending :
      (k : P.FsPath) (c : Client P) (exist : Bool) (digest : Bytes)
      → rsrc k c.dir ≡ some (pending P exist digest)
      → Waits k c
  unfolding check_file check_synced check_missing
  Waits-pending k c exist digest h = record {
    entry = pending P exist digest;
    entered = h;
    waiting = refl;
    no_file_task = λ d. rw (h, check_file);
    no_missing_task = λ root disk. elim (Bool-cases (P.exists (P.join root k) disk)) [
      | inl b ↦ rw b
      | inr b ↦ rw b
    ];
  }

  enter-entry :
      (k : P.FsPath) (r : CResource) (c : Client P)
      → NodupKeys c.dir.content
      → rsrc k (enter P k r c).dir ≡ some r
  enter-entry k r c u = (insert_or_assign_lem k k r c.dir u).0 ∙ rw (beq_refl k)

  post_file-dir :
      (kind : MsgType) (k : P.FsPath) (digest : Bytes) (c : Client P)
      → Post (λ c'. c'.dir ≡ c.dir) (post_file P kind k digest c)
  unfolding post_file
  post_file-dir kind k digest c = Post-bind (open_f_message _ _ _) λ f _. Post-ok refl

  posted-Waits :
      (kind : MsgType) (k : P.FsPath) (exist : Bool) (digest : Bytes) (c : Client P)
      → NodupKeys c.dir.content
      → Post (Waits k) (post_file P kind k digest (enter P k (pending P exist digest) c))
  posted-Waits kind k exist digest c u = record {
    get = λ c' h.
        let same = (post_file-dir kind k digest (enter P k (pending P exist digest) c)).get c' h in
        Waits-pending k c' exist digest
          (ap (rsrc k) same ∙ enter-entry k (pending P exist digest) c u);
  }

  run_task-Post :
      (task : Task P.FsPath) (c : Client P)
      → NodupKeys c.dir.content
      → Post (Waits (path_of task)) (run_task P task c)
  unfolding run_task
  run_task-Post (create k digest) c u = posted-Waits MsgType.create k false digest c u
  run_task-Post (update k digest) c u = posted-Waits MsgType.update k true digest c u
  run_task-Post (erase k digest) c u =
      Post-ok (Waits-pending k _ true digest (enter-entry k (pending P true digest) c u))

  -- Where a task of the scheduler has posted its request, on a directory in which no path has two
  -- entries, the entry of its path waits for the server, and until it changes a pass of the watcher
  -- schedules nothing for the path, whatever happened to the file.
  pub run_task-Waits :
      (task : Task P.FsPath) (c c' : Client P)
      → NodupKeys c.dir.content
      → run_task P task c ≡ ok c'
      → Waits (path_of task) c'
  run_task-Waits task c c' u h = (run_task-Post task c u).get c' h
