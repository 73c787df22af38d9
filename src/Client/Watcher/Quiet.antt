-- ===== src/Client/Watcher/Quiet.antt =====
-- When a pass schedules nothing.
use remote_backup_m.Prelude.{
  ◌≡◌, refl, sym, ◌∙◌, ap, ◌⊎◌, inl, inr, Bool, true, false, List, [], ◌∷◌, ◌++◌, Bytes, Option,
  none, some, ok, Eq, ◌=?◌, bytes_eq, bytes_beq_iff, Bool-cases, if◌then◌else◌,
}
use remote_backup_m.Shared.Platform.{Platform}
use remote_backup_m.Shared.Dir.{Dir, rsrc, for_each, each}
use remote_backup_m.Client.Resource.{Tribool, yes, no, indeterminate, CResource}
use remote_backup_m.Client.Tasks.{Task, erase}
use remote_backup_m.Client.Watcher.{
  is_indeterminate, walk_files, check_missing, check_synced, check_file, check_files, missing, pass,
}

module _ (P : Platform) ⦃e : Eq P.FsPath⦄ where
  -- A file that is there: its request waits for the server, or the server has it with this digest.
  pub record FileSettled (d : Dir P.FsPath CResource) (k : P.FsPath) (digest : Bytes) : Type 0 where
    pub entry : CResource
    pub entered : rsrc k d ≡ some entry
    pub settled : (entry.synced ≡ indeterminate) ⊎ ((entry.synced ≡ yes) × (entry.digest ≡ digest))

  -- An entry: its file is there, its request waits for the server, or the server does not have it.
  abbrev pub EntrySettled : P.FsPath → P.Disk → P.FsPath × CResource → Type 0
  EntrySettled root disk (k, r) =
      (P.exists (P.join root k) disk ≡ true)
      ⊎ (r.synced ≡ indeterminate)
      ⊎ (r.exist_on_server ≡ false)

  abbrev pub FilesSettled : Dir P.FsPath CResource → List (P.FsPath × Bytes) → Type 0
  FilesSettled d [] = Unit
  FilesSettled d ((k, digest) ∷ files) = FileSettled d k digest × FilesSettled d files

  abbrev pub EntriesSettled : P.FsPath → P.Disk → List (P.FsPath × CResource) → Type 0
  EntriesSettled root disk [] = Unit
  EntriesSettled root disk (x ∷ xs) = EntrySettled root disk x × EntriesSettled root disk xs

  append-nothing : (xs ys : List (Task P.FsPath)) → xs ++ ys ≡ [] → (xs ≡ []) × (ys ≡ [])
  append-nothing [] ys h = (refl, h)
  append-nothing (x ∷ xs) ys h = absurd (cc)

  check_synced-nothing :
      (k : P.FsPath) (digest : Bytes) (r : CResource) (t : Tribool)
      → check_synced P k digest r t ≡ []
      → (t ≡ indeterminate) ⊎ ((t ≡ yes) × (r.digest ≡ digest))
  unfolding check_synced
  check_synced-nothing k digest r yes h = elim (Bool-cases (r.digest =? digest)) [
    | inl b ↦ inr (refl, (bytes_beq_iff r.digest digest).0 b)
    | inr b ↦ absurd (cc)
  ]
  check_synced-nothing k digest r no h = elim (Bool-cases r.exist_on_server) [
    | inl b ↦ absurd (cc)
    | inr b ↦ absurd (cc)
  ]
  check_synced-nothing k digest r indeterminate h = inl refl

  nothing-check_synced :
      (k : P.FsPath) (digest : Bytes) (r : CResource) (t : Tribool)
      → (t ≡ indeterminate) ⊎ ((t ≡ yes) × (r.digest ≡ digest))
      → check_synced P k digest r t ≡ []
  unfolding check_synced
  nothing-check_synced k digest r t (inl h) = rw (h, check_synced)
  nothing-check_synced k digest r t (inr (h, s)) =
      rw (h, check_synced, s, (bytes_beq_iff digest digest).1 refl)

  check_missing-nothing :
      (root : P.FsPath) (disk : P.Disk) (x : P.FsPath × CResource)
      → check_missing P root disk x ≡ []
      → EntrySettled root disk x
  unfolding check_missing
  check_missing-nothing root disk (k, r) h = elim (Bool-cases (P.exists (P.join root k) disk)) [
    | inl b ↦ inl b
    | inr b ↦ inr (within r.synced r.exist_on_server refl refl (sym (rw b) ∙ h))
  ]
    where
      within :
          (t : Tribool) (x : Bool)
          → r.synced ≡ t
          → r.exist_on_server ≡ x
          → (if is_indeterminate r.synced
              then []
              else if r.exist_on_server
              then erase k r.digest ∷ []
              else [])
            ≡ []
          → (r.synced ≡ indeterminate) ⊎ (r.exist_on_server ≡ false)
      within t false p q h = inr q
      within indeterminate true p q h = inl p
      within yes true p q h = absurd (cc)
      within no true p q h = absurd (cc)

  nothing-check_missing :
      (root : P.FsPath) (disk : P.Disk) (x : P.FsPath × CResource)
      → EntrySettled root disk x
      → check_missing P root disk x ≡ []
  unfolding check_missing
  nothing-check_missing root disk (k, r) (inl h) = rw h
  nothing-check_missing root disk (k, r) (inr (inl h)) =
      elim (Bool-cases (P.exists (P.join root k) disk)) [ inl b ↦ rw b | inr b ↦ rw (b, h) ]
  nothing-check_missing root disk (k, r) (inr (inr h)) =
      elim (Bool-cases (P.exists (P.join root k) disk)) [
        | inl b ↦ rw b
        | inr b ↦ rw (b, h, if-same (is_indeterminate r.synced) [])
      ]
    where
      if-same : (b : Bool) (xs : List (Task P.FsPath)) → (if b then xs else xs) ≡ xs
      if-same true xs = refl
      if-same false xs = refl

  check_file-nothing :
      (d : Dir P.FsPath CResource) (k : P.FsPath) (digest : Bytes)
      → check_file P d k digest ≡ []
      → FileSettled d k digest
  unfolding check_file
  check_file-nothing d k digest h = within (rsrc k d) refl
    where
      within : (o : Option CResource) → rsrc k d ≡ o → FileSettled d k digest
      within none p = absurd (cc)
      within (some r) p = record {
        entry = r;
        entered = p;
        settled = check_synced-nothing k digest r r.synced (sym (rw (check_file, p)) ∙ h);
      }

  nothing-check_file :
      (d : Dir P.FsPath CResource) (k : P.FsPath) (digest : Bytes)
      → FileSettled d k digest
      → check_file P d k digest ≡ []
  unfolding check_file
  nothing-check_file d k digest s =
      rw (check_file, s.entered) (nothing-check_synced k digest s.entry s.entry.synced s.settled)

  check_files-nothing :
      (d : Dir P.FsPath CResource) (files : List (P.FsPath × Bytes))
      → check_files P d files ≡ []
      → FilesSettled d files
  check_files-nothing d [] h = tt
  check_files-nothing d ((k, digest) ∷ files) h =
      let (one, others) = append-nothing (check_file P d k digest) (check_files P d files) h in
      (check_file-nothing d k digest one, check_files-nothing d files others)

  nothing-check_files :
      (d : Dir P.FsPath CResource) (files : List (P.FsPath × Bytes))
      → FilesSettled d files
      → check_files P d files ≡ []
  nothing-check_files d [] h = refl
  nothing-check_files d ((k, digest) ∷ files) (one, others) =
      rw (nothing-check_file d k digest one) (nothing-check_files d files others)

  module _ (root : P.FsPath) (disk : P.Disk) where
    abbrev gather : P.FsPath × CResource → List (Task P.FsPath) → List (Task P.FsPath)
    gather entry tasks = tasks ++ check_missing P root disk entry

    each-nothing :
        (xs : List (P.FsPath × CResource)) (tasks : List (Task P.FsPath))
        → each gather xs tasks ≡ []
        → (tasks ≡ []) × EntriesSettled root disk xs
    each-nothing [] tasks h = (h, tt)
    each-nothing (x ∷ xs) tasks h =
        let (before, others) = each-nothing xs (tasks ++ check_missing P root disk x) h in
        let (earlier, one) = append-nothing tasks (check_missing P root disk x) before in
        (earlier, (check_missing-nothing root disk x one, others))

    nothing-each :
        (xs : List (P.FsPath × CResource)) → EntriesSettled root disk xs → each gather xs [] ≡ []
    nothing-each [] h = refl
    nothing-each (x ∷ xs) (one, others) =
        ap (each gather xs) (nothing-check_missing root disk x one) ∙ nothing-each xs others

  -- What the directory is like where nothing is to be done.
  abbrev pub Quiet : Dir P.FsPath CResource → P.Disk → List (P.FsPath × Bytes) → Type 0
  Quiet d disk files = EntriesSettled d.path disk d.content × FilesSettled d files

  -- Where the files of the watched directory can be listed and hashed, a pass of the watcher schedules
  -- nothing if and only if each of these files has an entry that waits for the server or that the
  -- server has with the file's digest, and each entry without a file waits for the server or is none
  -- that the server has.
  pub pass-Quiet :
      (d : Dir P.FsPath CResource) (disk : P.Disk) (files : List (P.FsPath × Bytes))
      → walk_files P d.path disk ≡ ok files
      → ((pass P d disk ≡ ok []) → Quiet d disk files)
        × (Quiet d disk files → pass P d disk ≡ ok [])
  unfolding pass missing for_each
  pass-Quiet d disk files w = (forth, back)
    where
      forth : pass P d disk ≡ ok [] → Quiet d disk files
      forth h =
          let (entries, listed) =
            append-nothing (missing P d disk) (check_files P d files)
              (ok-nothing _ (sym (rw w) ∙ h)) in
          ((each-nothing d.path disk d.content [] entries).1, check_files-nothing d files listed)
        where
          ok-nothing : (xs : List (Task P.FsPath)) → ok xs ≡ ok [] → xs ≡ []
          ok-nothing xs h = cc

      back : Quiet d disk files → pass P d disk ≡ ok []
      back (entries, listed) =
          rw (w, nothing-each d.path disk d.content entries, nothing-check_files d files listed)
