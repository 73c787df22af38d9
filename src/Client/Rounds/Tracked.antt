-- ===== src/Client/Rounds/Tracked.antt =====
-- The handler of a reply finds the entry of its file.
use remote_backup_m.Prelude.{
  ◌≡◌, refl, sym, ◌∙◌, ap, true, false, List, [], ◌∷◌, ◌++◌, append_assoc, append-nil, some, ok, Eq,
  Post, Post-ok, Post-bind, Post-bind-on, subst,
}
use remote_backup_m.Shared.Platform.{Platform}
use remote_backup_m.Shared.Chunks.{open_f_message}
use remote_backup_m.Shared.Dir.{Dir, find, rsrc, insert_or_assign}
use remote_backup_m.Shared.Dir.Entries.{NodupKeys, insert_or_assign_lem, beq_refl}
use remote_backup_m.Client.Resource.{indeterminate, CResource}
use remote_backup_m.Client.Tasks.{
  Task, create, update, erase, Posted, Client, pending, post_file, run_task,
}
use remote_backup_m.Client.Watcher.Pending.{path_of}
use remote_backup_m.Client.Rounds.{
  run_tasks, Turn, synced, changed, passed, replied, Reached, start, next,
}
use remote_backup_m.Client.Rounds.Touched.{Elsewhere, Touched, assigned-Touched, reply_to-Touched}
use remote_backup_m.Client.Rounds.Paths.{
  NotIn, Distinct, Apart, Distinct-append, Distinct-middle, NotIn-left,
}
use remote_backup_m.Client.Rounds.Passed.{paths}
use remote_backup_m.Client.Rounds.Scheduled.{AtMostOne, tasks_for-Distinct, scheduled-AtMostOne}
use remote_backup_m.Client.Sync.{SyncState}
use remote_backup_m.Client.Sync.Compared.{tasks_for}
use remote_backup_m.Client.Sync.Decided.{sync_reply-Decided}
use remote_backup_m.Client.Rounds.Walked.{Listed, Planned, pass-Planned}

module _ (P : Platform) ⦃e : Eq P.FsPath⦄ where
  -- The paths of the requests that wait for a reply.
  abbrev pub waiting : List (Posted P.FsPath) → List P.FsPath
  waiting [] = []
  waiting (p ∷ ps) = p.relative_path ∷ waiting ps

  waiting-append : (xs ys : List (Posted P.FsPath)) → waiting (xs ++ ys) ≡ waiting xs ++ waiting ys
  waiting-append [] ys = refl
  waiting-append (x ∷ xs) ys = ap (◌∷◌ x.relative_path) (waiting-append xs ys)

  -- Each of these paths has an entry that waits for the server.
  abbrev pub Entered : Dir P.FsPath CResource → List P.FsPath → Type 0
  Entered d [] = Unit {0}
  Entered d (k ∷ ks) =
      ((r : CResource) × (rsrc k d ≡ some r) × (r.synced ≡ indeterminate)) × Entered d ks

  Entered-append :
      (d : Dir P.FsPath CResource) (xs ys : List P.FsPath)
      → Entered d xs
      → Entered d ys
      → Entered d (xs ++ ys)
  Entered-append d [] ys a b = b
  Entered-append d (x ∷ xs) ys (h, a) b = (h, Entered-append d xs ys a b)

  Entered-Elsewhere :
      (k : P.FsPath) (d d' : Dir P.FsPath CResource) (ks : List P.FsPath)
      → Elsewhere P k d d'
      → NotIn k ks
      → Entered d ks
      → Entered d' ks
  Entered-Elsewhere k d d' [] h n a = tt
  Entered-Elsewhere k d d' (j ∷ ks) h (m, n) ((r, p, q), a) =
      ((r, h j m ∙ p, q), Entered-Elsewhere k d d' ks h n a)

  -- No path has two entries, no two requests that wait for a reply are for the same path, and the entry
  -- of each one's path is there and waits.
  pub record Tracked (c : Client P) : Type 0 where
    pub entries : NodupKeys c.dir.content
    pub distinct : Distinct (waiting c.posted)
    pub entered : Entered c.dir (waiting c.posted)

  -- What the function of a task leaves.
  record Ran (task : Task P.FsPath) (c c' : Client P) : Type 0 where
    touched : Touched P (path_of P task) c.dir c'.dir
    posted : waiting c'.posted ≡ waiting c.posted ++ (path_of P task ∷ [])
    entry : (r : CResource) × (rsrc (path_of P task) c'.dir ≡ some r) × (r.synced ≡ indeterminate)

  entered-pending :
      (k : P.FsPath) (r : CResource) (d : Dir P.FsPath CResource)
      → NodupKeys d.content
      → rsrc k (insert_or_assign k r d).0 ≡ some r
  entered-pending k r d u = (insert_or_assign_lem k k r d u).0 ∙ rw (beq_refl k)

  run_task-Ran :
      (task : Task P.FsPath) (c : Client P)
      → NodupKeys c.dir.content
      → Post (Ran task c) (run_task P task c)
  unfolding run_task post_file
  run_task-Ran (create k digest) c u = Post-bind (open_f_message _ _ _) λ f _. Post-ok (record {
    touched = assigned-Touched P k _ c.dir u;
    posted = waiting-append c.posted _;
    entry = (pending P false digest, entered-pending k _ c.dir u, refl);
  })
  run_task-Ran (update k digest) c u = Post-bind (open_f_message _ _ _) λ f _. Post-ok (record {
    touched = assigned-Touched P k _ c.dir u;
    posted = waiting-append c.posted _;
    entry = (pending P true digest, entered-pending k _ c.dir u, refl);
  })
  run_task-Ran (erase k digest) c u = Post-ok (record {
    touched = assigned-Touched P k _ c.dir u;
    posted = waiting-append c.posted _;
    entry = (pending P true digest, entered-pending k _ c.dir u, refl);
  })

  run_tasks-Tracked :
      (tasks : List (Task P.FsPath)) (c : Client P)
      → NodupKeys c.dir.content
      → Distinct (waiting c.posted ++ paths P tasks)
      → Entered c.dir (waiting c.posted)
      → Post Tracked (run_tasks P tasks c)
  unfolding run_tasks
  run_tasks-Tracked [] c u n a = Post-ok (record {
    entries = u;
    distinct = subst (λ x. Distinct x) (append-nil (waiting c.posted)) n;
    entered = a;
  })
  run_tasks-Tracked (task ∷ tasks) c u n a = Post-bind-on (run_task-Ran task c u) λ c' r.
      run_tasks-Tracked tasks c' r.touched.entries
        (subst (λ x. Distinct x)
          (sym (append_assoc (waiting c.posted) (path_of P task ∷ []) (paths P tasks))
            ∙ ap (λ x. x ++ paths P tasks) (sym r.posted))
          n)
        (subst (λ x. Entered c'.dir x) (sym r.posted)
          (Entered-append c'.dir (waiting c.posted) (path_of P task ∷ [])
            (Entered-Elsewhere (path_of P task) c.dir c'.dir (waiting c.posted) r.touched.elsewhere
              (NotIn-left (path_of P task) (waiting c.posted) (paths P tasks)
                (Distinct-middle (path_of P task) (waiting c.posted) (paths P tasks) n).0)
              a)
            (r.entry, tt)))

  Entered-Apart :
      (d : Dir P.FsPath CResource) (tasks : List (Task P.FsPath)) (ks : List P.FsPath)
      → Planned P d tasks
      → Entered d ks
      → Apart ks (paths P tasks)
  Entered-Apart d tasks [] n a = tt
  Entered-Apart d tasks (k ∷ ks) n ((r, p, q), a) = (n.idle k r p q, Entered-Apart d tasks ks n a)

  Entered-middle :
      (d : Dir P.FsPath CResource) (k : P.FsPath) (xs ys : List P.FsPath)
      → Entered d (xs ++ (k ∷ ys))
      → Entered d (xs ++ ys)
  Entered-middle d k [] ys (h, a) = a
  Entered-middle d k (x ∷ xs) ys (h, a) = (h, Entered-middle d k xs ys a)

  module _
      (files : (root : P.FsPath) (disk : P.Disk)
        → Listed P root disk (P.regular_files root disk).0) where
    turn-Tracked : (c c' : Client P) → Turn P c c' → Tracked c → Tracked c'
    turn-Tracked c _ (synced s_path m s c' idle l h q) t =
        let d =
          sync_reply-Decided P s_path c.dir l.files l.once t.entries m l.head l.rest l.written
            l.no_error l.split in
        (run_tasks-Tracked s.tasks (record c { dir = s.dir })
            (subst (λ x. NodupKeys x.dir.content) (same d.after (sym d.synced ∙ h)) d.distinct)
            (rw idle (
              tasks_for-Distinct P s.tasks λ k.
                subst AtMostOne
                  (sym (d.tasks k)
                    ∙ ap (λ x. tasks_for P k x.tasks) (same d.after (sym d.synced ∙ h)))
                  (scheduled-AtMostOne P k (find k l.files) (rsrc k c.dir))))
            (rw idle tt)).get
          c' q
      where
        same : (a : SyncState P) → ok a ≡ ok s → a ≡ s
        same a p = cc
    turn-Tracked c _ (changed disk) t = record {
      entries = t.entries;
      distinct = t.distinct;
      entered = t.entered;
    }
    turn-Tracked c _ (passed tasks c' p q) t =
        let plan = (pass-Planned P c.dir c.disk t.entries (files c.dir.path c.disk)).get tasks p in
        (run_tasks-Tracked tasks c t.entries
            (Distinct-append (waiting c.posted) (paths P tasks) t.distinct plan.distinct
              (Entered-Apart c.dir tasks (waiting c.posted) plan t.entered))
            t.entered).get
          c' q
    turn-Tracked c _ (replied before after p response dir q h) t =
        let whole : waiting c.posted ≡ waiting before ++ (p.relative_path ∷ waiting after) =
          ap waiting q ∙ waiting-append before (p ∷ after) in
        let touched = (reply_to-Touched P p.kind p response c.dir t.entries).get dir h in
        let (apart, distinct) =
          Distinct-middle p.relative_path (waiting before) (waiting after)
            (subst (λ x. Distinct x) whole t.distinct) in
        record {
          entries = touched.entries;
          distinct = subst (λ x. Distinct x) (sym (waiting-append before after)) distinct;
          entered =
              subst (λ x. Entered dir x) (sym (waiting-append before after))
                (Entered-Elsewhere p.relative_path c.dir dir (waiting before ++ waiting after)
                  touched.elsewhere apart
                  (Entered-middle c.dir p.relative_path (waiting before) (waiting after)
                    (subst (λ x. Entered c.dir x) whole t.entered)));
        }

    reached-Tracked-from : (c c' : Client P) → Reached P c c' → Tracked c → Tracked c'
    reached-Tracked-from c _ start t = t
    reached-Tracked-from c _ (next c' c'' r s) t =
        turn-Tracked c' c'' s (reached-Tracked-from c c' r t)

    -- The client starts with no request and a directory in which no path has two entries. Then it lists
    -- the server's files and compares them, whenever no request waits, the files change, the watcher
    -- makes its passes, and the handlers of the replies run, each with any reply or with none, in any
    -- order in which the functions that a comparison or a pass posts run before what follows, as long
    -- as the connection is not lost while a request waits. Then no path has two entries, no two requests
    -- that wait for a reply are for the same path, and each of them has an entry that waits, which the
    -- handler of the reply finds. It relies on lists of the server's files that do not begin with
    -- an ERROR, whose signs are split and that have no path twice, and on a listing of a directory that
    -- has each file once, which exists, and whose path is the directory's with the rest of the file's
    -- text.
    pub rounds-Tracked :
        (c c' : Client P) → c.posted ≡ [] → NodupKeys c.dir.content → Reached P c c' → Tracked c'
    rounds-Tracked c c' idle u r =
        reached-Tracked-from c c' r
          (record { entries = u; distinct = rw idle tt; entered = rw idle tt })
