-- ===== src/Client/Sync/Decided.antt =====
-- What `sync` schedules for each path.
use remote_backup_m.Prelude.{
  ◌≡◌, ◌≢◌, refl, sym, ap, ◌∙◌, Bool, true, false, List, [], ◌∷◌, ◌++◌, append-nil, Bytes, Option,
  none, some, Bool-cases, inl, inr, Outcome, ok, err, ◌>>=◌, ◌=?◌, bytes_eq, if◌then◌else◌, Eq,
}
use remote_backup_m.Shared.Message.{Message, Tlv, encode_all}
use remote_backup_m.Shared.Platform.{Platform}
use remote_backup_m.Shared.Tools.{split_sign}
use remote_backup_m.Shared.Dir.{Dir, find, is_some, rsrc, contains, for_each, each, get_instance}
use remote_backup_m.Shared.Dir.Entries.{NodupKeys}
use remote_backup_m.Client.Resource.{CResource}
use remote_backup_m.Client.Tasks.{Task, create, update, erase}
use remote_backup_m.Client.Sync.{SyncState, sync_item, sync_items, create_missing, sync_reply}
use remote_backup_m.Client.Sync.Compared.{
  Pairs, tasks_for, tasks_for-append, marked, due, sync_pairs, Synced, sync_pairs-Synced,
}
use remote_backup_m.Client.Sync.Listed.{items_of, listed_signs-items_of}

module _ (P : Platform) ⦃e : Eq P.FsPath⦄ where
  -- The task for a file that the server did not list.
  abbrev missing_due : P.FsPath → Option CResource → Bool → List (Task P.FsPath)
  missing_due k none listed = []
  missing_due k (some r) true = []
  missing_due k (some r) false = create k r.digest ∷ []

  create_missing-due :
      (s_dir : Dir P.FsPath CResource) (j k : P.FsPath) (r : CResource)
      (tasks : List (Task P.FsPath))
      → tasks_for P k (create_missing P s_dir (j, r) tasks)
        ≡ tasks_for P k tasks ++ (if j =? k then missing_due j (some r) (contains j s_dir) else [])
  unfolding create_missing tasks_for
  create_missing-due s_dir j k r tasks = elim (Bool-cases (contains j s_dir)) [
    | inl c ↦ elim (Bool-cases (j =? k)) [
      | inl b ↦ rw (c, b) (sym (append-nil (tasks_for P k tasks)))
      | inr b ↦ rw (c, b) (sym (append-nil (tasks_for P k tasks)))
    ]
    | inr c ↦ elim (Bool-cases (j =? k)) [
      | inl b ↦ rw (c, b) (tasks_for-append P k tasks (create j r.digest ∷ []) ∙ rw b)
      | inr b ↦ rw (c, b) (tasks_for-append P k tasks (create j r.digest ∷ []) ∙ rw b)
    ]
  ]

  each-due :
      (s_dir : Dir P.FsPath CResource) (k : P.FsPath) (m : List (P.FsPath × CResource))
      (tasks : List (Task P.FsPath))
      → NodupKeys m
      → tasks_for P k (each (create_missing P s_dir) m tasks)
        ≡ tasks_for P k tasks ++ missing_due k (find k m) (contains k s_dir)
  unfolding find
  each-due s_dir k [] tasks n = sym (append-nil (tasks_for P k tasks))
  each-due s_dir k ((j, r) ∷ m) tasks n =
      let step = create_missing-due s_dir j k r tasks in
      let rest = each-due s_dir k m (create_missing P s_dir (j, r) tasks) n.1 in
      elim (Bool-cases (j =? k)) [
        | inl b ↦
            let jk : j ≡ k = (e.beq_iff j k).0 b in
            let gone : find k m ≡ none = rw (← jk) n.0 in
            rw b (
              rest
              ∙ rw gone (
                  append-nil (tasks_for P k (create_missing P s_dir (j, r) tasks))
                  ∙ step
                  ∙ rw b (
                      ap (λ i. tasks_for P k tasks ++ missing_due i (some r) (contains i s_dir))
                        jk)))
        | inr b ↦
            let t : tasks_for P k (create_missing P s_dir (j, r) tasks) ≡ tasks_for P k tasks =
              step ∙ rw b (append-nil (tasks_for P k tasks)) in
            rw b (rest ∙ rw t)
      ]

  -- What is scheduled for a path, by what the server listed for it and the client's entry.
  abbrev pub scheduled : P.FsPath → Option Bytes → Option CResource → List (Task P.FsPath)
  scheduled k none none = []
  scheduled k none (some r) = create k r.digest ∷ []
  scheduled k (some x) none = erase k x ∷ []
  scheduled k (some x) (some r) = if r.digest =? x then [] else update k r.digest ∷ []

  due-missing :
      (k : P.FsPath) (x : Option Bytes) (r : Option CResource)
      → due P k x r ++ missing_due k (marked P x r) (is_some x) ≡ scheduled k x r
  due-missing k none none = refl
  due-missing k none (some r) = refl
  due-missing k (some x) none = refl
  due-missing k (some x) (some r) = elim (Bool-cases (r.digest =? x)) [
    | inl c ↦ rw c
    | inr c ↦ rw c
  ]

  abbrev pub split_signs : List Bytes → Outcome (Pairs P)
  split_signs [] = ok []
  split_signs (s ∷ signs) =
      split_sign P s >>= λ c. split_signs signs >>= λ rest. ok ((c.0, c.1) ∷ rest)

  sync_items-pairs :
      (signs : List Bytes) (s : SyncState P)
      → sync_items P signs s ≡ (split_signs signs >>= λ pairs. ok (sync_pairs P pairs s))
  unfolding sync_items
  sync_items-pairs [] s = refl
  sync_items-pairs (s_sign ∷ signs) s = head (sync_items-pairs signs) (split_sign P s_sign)
    where
      tail :
          (c : P.FsPath × Bytes) (r : Outcome (Pairs P))
          → (r >>= λ pairs. ok (sync_pairs P pairs (sync_item P c.0 c.1 s)))
            ≡ ((r >>= λ rest. ok ((c.0, c.1) ∷ rest)) >>= λ pairs. ok (sync_pairs P pairs s))
      tail c (ok pairs) = refl
      tail c (err failure) = refl

      head :
          ((t : SyncState P)
            → sync_items P signs t ≡ (split_signs signs >>= λ pairs. ok (sync_pairs P pairs t)))
          → (r : Outcome (P.FsPath × Bytes))
          → (r >>= λ c. sync_items P signs (sync_item P c.0 c.1 s)) ≡ (
              (r >>= λ c. split_signs signs >>= λ rest. ok ((c.0, c.1) ∷ rest)) >>= λ pairs.
              ok (sync_pairs P pairs s))
      head ih (ok c) = ih (sync_item P c.0 c.1 s) ∙ tail c (split_signs signs)
      head ih (err failure) = refl

  -- The outcome of `sync` against the two directories: the server's, as pairs, and the client's.
  pub record Decided (s_path : P.FsPath) (m : Message) (d : Dir P.FsPath CResource)
      (pairs : Pairs P) : Type 0 where
    pub after : SyncState P
    pub synced : sync_reply P s_path m d ≡ ok after
    pub entry : (k : P.FsPath) → rsrc k after.dir ≡ marked P (find k pairs) (rsrc k d)
    pub tasks : (k : P.FsPath) → tasks_for P k after.tasks ≡ scheduled k (find k pairs) (rsrc k d)
    pub distinct : NodupKeys after.dir.content

  module _ (s_path : P.FsPath) (d : Dir P.FsPath CResource) (pairs : Pairs P) (n : NodupKeys pairs)
      (u : NodupKeys d.content) where
    start : SyncState P
    start = record { dir = d; s_dir = get_instance s_path false; tasks = [] }

    all_read : SyncState P
    all_read = sync_pairs P pairs start

    read-Synced : (k : P.FsPath) → Synced P pairs k start all_read
    unfolding start all_read get_instance
    read-Synced k = sync_pairs-Synced P pairs k start n u tt

    read-tasks : (k : P.FsPath) → tasks_for P k all_read.tasks ≡ due P k (find k pairs) (rsrc k d)
    unfolding start tasks_for
    read-tasks k = (read-Synced k).tasks

    read-entry : (k : P.FsPath) → rsrc k all_read.dir ≡ marked P (find k pairs) (rsrc k d)
    unfolding start
    read-entry k = (read-Synced k).entry

    read-content : (k : P.FsPath) → find k all_read.dir.content ≡ marked P (find k pairs) (rsrc k d)
    unfolding rsrc
    read-content k = read-entry k

    read-listed : (k : P.FsPath) → contains k all_read.s_dir ≡ is_some (find k pairs)
    unfolding start get_instance
    read-listed k = (read-Synced k).listed ∙ listed (is_some (find k pairs))
      where
        nothing : contains k (get_instance {R = CResource} s_path false) ≡ false
        nothing = unfold contains find get_instance in refl

        listed :
            (b : Bool)
            → (if b then true else contains k (get_instance {R = CResource} s_path false)) ≡ b
        listed true = refl
        listed false = nothing

    created :
        (k : P.FsPath)
        → tasks_for P k (for_each (create_missing P all_read.s_dir) all_read.dir all_read.tasks)
          ≡ scheduled k (find k pairs) (rsrc k d)
    unfolding for_each
    created k =
        each-due all_read.s_dir k all_read.dir.content all_read.tasks (read-Synced k).distinct
        ∙ rw (read-tasks k, read-content k, read-listed k) (due-missing k (find k pairs) (rsrc k d))

    -- `sync` on a reply that lists files and does not begin with an ERROR, if every sign in it is split
    -- and no path is listed twice nor has two entries: a path that only the server has is erased, one
    -- that only the client has is created, one with two digests is updated, and one with the same
    -- digest is marked as synced and has no task. No other entry changes and nothing else is scheduled.
    pub sync_reply-Decided :
        (m : Message) (t : Tlv) (ts : List Tlv)
        → m.raw ≡ 4 ∷ encode_all (t ∷ ts)
        → t.tag ≢ 5
        → split_signs (items_of (t ∷ ts)) ≡ ok pairs
        → Decided s_path m d pairs
    unfolding sync_reply
    sync_reply-Decided m t ts w x h = record {
      after = record all_read {
        tasks = for_each (create_missing P all_read.s_dir) all_read.dir all_read.tasks;
      };
      synced = rw (listed_signs-items_of m t ts w x, items);
      entry = read-entry;
      tasks = created;
      distinct = (read-Synced s_path).distinct;
    }
      where
        items :
            sync_items P
              (items_of (t ∷ ts))
              (record { dir = d; s_dir = get_instance s_path false; tasks = [] })
            ≡ ok all_read
        items = unfold start all_read in sync_items-pairs (items_of (t ∷ ts)) start ∙ rw h
