-- ===== src/Client/Sync/Compared.antt =====
-- What `sync` decides for each path.
use remote_backup_m.Prelude.{
  ◌≡◌, refl, sym, ap, ◌∙◌, true, List, [], ◌∷◌, ◌++◌, append-nil, Bytes, Option, none, some,
  Bool-cases, inl, inr, ◌=?◌, bytes_eq, if◌then◌else◌, Eq,
}
use remote_backup_m.Shared.Platform.{Platform}
use remote_backup_m.Shared.Dir.{Dir, find, is_some, rsrc, contains, insert_or_assign}
use remote_backup_m.Shared.Dir.Entries.{NodupKeys, insert_or_assign_lem}
use remote_backup_m.Client.Resource.{yes, CResource}
use remote_backup_m.Client.Tasks.{Task, update, erase}
use remote_backup_m.Client.Watcher.Pending.{path_of}
use remote_backup_m.Client.Sync.{SyncState, listed_resource, compare_entry, sync_item}

module _ (P : Platform) ⦃e : Eq P.FsPath⦄ where
  abbrev pub Pairs : Type 0
  Pairs = List (P.FsPath × Bytes)

  -- The tasks of one path, in order.
  unfoldable pub tasks_for : P.FsPath → List (Task P.FsPath) → List (Task P.FsPath)
  tasks_for k [] = []
  tasks_for k (t ∷ ts) = if path_of P t =? k then t ∷ tasks_for k ts else tasks_for k ts

  pub tasks_for-append :
      (k : P.FsPath) (ts us : List (Task P.FsPath))
      → tasks_for k (ts ++ us) ≡ tasks_for k ts ++ tasks_for k us
  unfolding tasks_for
  tasks_for-append k [] us = refl
  tasks_for-append k (t ∷ ts) us = elim (Bool-cases (path_of P t =? k)) [
    | inl b ↦ rw (b, tasks_for-append k ts us)
    | inr b ↦ rw (b, tasks_for-append k ts us)
  ]

  -- The entry of a path after the comparison with what the server listed for it.
  abbrev pub marked : Option Bytes → Option CResource → Option CResource
  marked none r = r
  marked (some x) none = none
  marked (some x) (some r) =
      if r.digest =? x then some (record r { synced = yes; exist_on_server = true }) else some r

  -- The tasks that the comparison makes.
  abbrev pub due : P.FsPath → Option Bytes → Option CResource → List (Task P.FsPath)
  due k none r = []
  due k (some x) none = erase k x ∷ []
  due k (some x) (some r) = if r.digest =? x then [] else update k r.digest ∷ []

  -- One of the server's files.
  record Step (j k : P.FsPath) (x : Bytes) (s s' : SyncState P) : Type 0 where
    entry : rsrc k s'.dir ≡ (if j =? k then marked (some x) (rsrc j s.dir) else rsrc k s.dir)
    tasks :
        tasks_for k s'.tasks
        ≡ tasks_for k s.tasks ++ (if j =? k then due j (some x) (rsrc j s.dir) else [])
    distinct : NodupKeys s'.dir.content

  -- A task is added, and the entries stay.
  task-Step :
      (j k : P.FsPath) (x : Bytes) (r : Option CResource) (t : Task P.FsPath) (s : SyncState P)
      → NodupKeys s.dir.content
      → rsrc j s.dir ≡ r
      → path_of P t ≡ j
      → marked (some x) r ≡ r
      → due j (some x) r ≡ t ∷ []
      → Step j k x s (record s { tasks = s.tasks ++ (t ∷ []) })
  unfolding tasks_for
  task-Step j k x r t s u h p m q = elim (Bool-cases (j =? k)) [
    | inl b ↦ record {
      entry = rw (b, h, m) (ap (λ i. rsrc i s.dir) (sym ((e.beq_iff j k).0 b)) ∙ h);
      tasks = rw (b, h, q) (tasks_for-append k s.tasks (t ∷ []) ∙ rw (p, b));
      distinct = u;
    }
    | inr b ↦ record {
      entry = rw b;
      tasks = rw b (tasks_for-append k s.tasks (t ∷ []) ∙ rw (p, b));
      distinct = u;
    }
  ]

  -- The entry is marked, and no task is added.
  mark-Step :
      (j k : P.FsPath) (x : Bytes) (r r' : CResource) (s : SyncState P)
      → NodupKeys s.dir.content
      → rsrc j s.dir ≡ some r
      → marked (some x) (some r) ≡ some r'
      → due j (some x) (some r) ≡ []
      → Step j k x s (record s { dir = (insert_or_assign j r' s.dir).0 })
  mark-Step j k x r r' s u h m q =
      let l = insert_or_assign_lem j k r' s.dir u in
      elim (Bool-cases (j =? k)) [
        | inl b ↦ record {
          entry = rw (b, h, m) (l.0 ∙ rw b);
          tasks = rw (b, h, q) (sym (append-nil (tasks_for k s.tasks)));
          distinct = l.2;
        }
        | inr b ↦ record {
          entry = rw b (l.0 ∙ rw b);
          tasks = rw b (sym (append-nil (tasks_for k s.tasks)));
          distinct = l.2;
        }
      ]

  compare_entry-Step :
      (j k : P.FsPath) (x : Bytes) (r : Option CResource) (s : SyncState P)
      → NodupKeys s.dir.content
      → rsrc j s.dir ≡ r
      → Step j k x s (compare_entry P j x r s)
  unfolding compare_entry
  compare_entry-Step j k x none s u h = task-Step j k x none (erase j x) s u h refl refl refl
  compare_entry-Step j k x (some r) s u h = elim (Bool-cases (r.digest =? x)) [
    | inl c ↦
        rw c (
          mark-Step j k x r (record r { synced = yes; exist_on_server = true }) s u h (rw c) (rw c))
    | inr c ↦ rw c (task-Step j k x (some r) (update j r.digest) s u h refl (rw c) (rw c))
  ]

  sync_item-Step :
      (j k : P.FsPath) (x : Bytes) (s : SyncState P)
      → NodupKeys s.dir.content
      → Step j k x s (sync_item P j x s)
  unfolding sync_item
  sync_item-Step j k x s u =
      let step =
        compare_entry-Step j k x (rsrc j s.dir)
          (record s { s_dir = (insert_or_assign j (listed_resource P x) s.s_dir).0 }) u refl in
      record { entry = step.entry; tasks = step.tasks; distinct = step.distinct }

  compare_entry-s_dir :
      (j : P.FsPath) (x : Bytes) (r : Option CResource) (s : SyncState P)
      → (compare_entry P j x r s).s_dir ≡ s.s_dir
  unfolding compare_entry
  compare_entry-s_dir j x none s = refl
  compare_entry-s_dir j x (some r) s = elim (Bool-cases (r.digest =? x)) [
    | inl c ↦ rw c
    | inr c ↦ rw c
  ]

  -- The server's files as far as they were read.
  sync_item-s_dir :
      (j : P.FsPath) (x : Bytes) (s : SyncState P)
      → (sync_item P j x s).s_dir ≡ (insert_or_assign j (listed_resource P x) s.s_dir).0
  unfolding sync_item
  sync_item-s_dir j x s = compare_entry-s_dir j x (rsrc j s.dir) _

  pub contains-rsrc :
      (k : P.FsPath) (d : Dir P.FsPath CResource) → contains k d ≡ is_some (rsrc k d)
  unfolding contains rsrc
  contains-rsrc k d = refl

  sync_item-listed :
      (j k : P.FsPath) (x : Bytes) (s : SyncState P)
      → NodupKeys s.s_dir.content
      → contains k (sync_item P j x s).s_dir ≡ (if j =? k then true else contains k s.s_dir)
  sync_item-listed j k x s w =
      let l = insert_or_assign_lem j k (listed_resource P x) s.s_dir w in
      ap (contains k) (sync_item-s_dir j x s)
      ∙ contains-rsrc k (insert_or_assign j (listed_resource P x) s.s_dir).0
      ∙ ap is_some l.0
      ∙ (elim (Bool-cases (j =? k)) [ inl b ↦ rw b | inr b ↦ rw b (sym (contains-rsrc k s.s_dir)) ])

  -- All of the server's files.
  abbrev pub sync_pairs : Pairs → SyncState P → SyncState P
  sync_pairs [] s = s
  sync_pairs ((j, x) ∷ pairs) s = sync_pairs pairs (sync_item P j x s)

  pub record Synced (pairs : Pairs) (k : P.FsPath) (s s' : SyncState P) : Type 0 where
    pub entry : rsrc k s'.dir ≡ marked (find k pairs) (rsrc k s.dir)
    pub tasks : tasks_for k s'.tasks ≡ tasks_for k s.tasks ++ due k (find k pairs) (rsrc k s.dir)
    pub distinct : NodupKeys s'.dir.content
    pub listed : contains k s'.s_dir ≡ (if is_some (find k pairs) then true else contains k s.s_dir)
    pub listed_distinct : NodupKeys s'.s_dir.content

  pub sync_pairs-Synced :
      (pairs : Pairs) (k : P.FsPath) (s : SyncState P)
      → NodupKeys pairs
      → NodupKeys s.dir.content
      → NodupKeys s.s_dir.content
      → Synced pairs k s (sync_pairs pairs s)
  unfolding find
  sync_pairs-Synced [] k s n u w = record {
    entry = refl;
    tasks = sym (append-nil (tasks_for k s.tasks));
    distinct = u;
    listed = refl;
    listed_distinct = w;
  }
  sync_pairs-Synced ((j, x) ∷ pairs) k s n u w =
      let step = sync_item-Step j k x s u in
      let l = insert_or_assign_lem j k (listed_resource P x) s.s_dir w in
      let sd = sync_item-s_dir j x s in
      let rest = sync_pairs-Synced pairs k (sync_item P j x s) n.1 step.distinct (rw sd l.2) in
      let li = sync_item-listed j k x s w in
      elim (Bool-cases (j =? k)) [
        | inl b ↦
            let jk : j ≡ k = (e.beq_iff j k).0 b in
            let gone : find k pairs ≡ none = rw (← jk) n.0 in
            record {
              entry = rw b (
                  rest.entry
                  ∙ rw gone (step.entry ∙ rw b (ap (λ i. marked (some x) (rsrc i s.dir)) jk)));
              tasks = rw b (
                  rest.tasks
                  ∙ rw gone (
                      append-nil (tasks_for k (sync_item P j x s).tasks)
                      ∙ step.tasks
                      ∙ rw b (ap (λ i. tasks_for k s.tasks ++ due i (some x) (rsrc i s.dir)) jk)));
              distinct = rest.distinct;
              listed = rw b (rest.listed ∙ rw gone (li ∙ rw b));
              listed_distinct = rest.listed_distinct;
            }
        | inr b ↦
            let q : rsrc k (sync_item P j x s).dir ≡ rsrc k s.dir = step.entry ∙ rw b in
            let t : tasks_for k (sync_item P j x s).tasks ≡ tasks_for k s.tasks =
              step.tasks ∙ rw b (append-nil (tasks_for k s.tasks)) in
            let c : contains k (sync_item P j x s).s_dir ≡ contains k s.s_dir = li ∙ rw b in
            record {
              entry = rw b (rest.entry ∙ ap (marked (find k pairs)) q);
              tasks = rw b (rest.tasks ∙ rw (t, q));
              distinct = rest.distinct;
              listed = rw b (rest.listed ∙ rw c);
              listed_distinct = rest.listed_distinct;
            }
      ]
