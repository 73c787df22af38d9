-- ===== src/Client/Rounds/Walked.antt =====
-- The files that a pass finds, and all of its tasks.
use remote_backup_m.Prelude.{
  ℕ, ◌≡◌, refl, sym, ◌∙◌, ap, Bool, true, false, List, [], ◌∷◌, ◌++◌, Bytes, length, drop, leb,
  some, Eq, ◌=?◌, Post, Post-ok, Post-err, Post-bind, Post-bind-on, Post-if,
}
use remote_backup_m.Shared.Platform.{Platform}
use remote_backup_m.Shared.Dir.{Dir, rsrc, for_each}
use remote_backup_m.Shared.Dir.Entries.{NodupKeys}
use remote_backup_m.Server.Handler.Auth.{relative_to}
use remote_backup_m.Client.Resource.{indeterminate, CResource}
use remote_backup_m.Client.Tasks.{Task}
use remote_backup_m.Client.Watcher.{
  file_digest, digests, walk_files, check_file, check_synced, check_files, missing, pass,
}
use remote_backup_m.Client.Rounds.Paths.{NotIn, Distinct, differ, Distinct-append, NotIn-append}
use remote_backup_m.Client.Rounds.Passed.{
  paths, paths-append, keys, check_files-Distinct, check_files-Waiting,
}
use remote_backup_m.Client.Rounds.Gone.{
  gone, each-gone, gone-Distinct, gone-Waiting, gone-Apart, Present,
}

module _ (P : Platform) ⦃e : Eq P.FsPath⦄ where
  -- Files below a directory: each exists, is listed once, and is what the directory and the rest of
  -- its text name.
  abbrev pub Listed : P.FsPath → P.Disk → List P.FsPath → Type 0
  Listed root disk [] = Unit {0}
  Listed root disk (a ∷ found_files) =
      (P.exists a disk ≡ true)
      × (P.join root (P.path (drop (length (P.string root)) (P.string a))) ≡ a)
      × NotIn a found_files
      × Listed root disk found_files

  module _ (root : P.FsPath) (disk : P.Disk) where
    -- What is found of such files.
    record Found (found_files : List P.FsPath) (files : List (P.FsPath × Bytes)) : Type 0 where
      distinct : Distinct (keys P files)
      present : Present P root disk (keys P files)
      other : (a k : P.FsPath) → NotIn a found_files → P.join root k ≡ a → NotIn k (keys P files)

    relative_to-path :
        (n : ℕ) (a : P.FsPath) → Post (λ k. k ≡ P.path (drop n (P.string a))) (relative_to P n a)
    unfolding relative_to
    relative_to-path n a = Post-if (leb n (length (P.string a))) (λ _. Post-ok refl) (λ _. Post-err)

    digests-Found :
        (fails : Bool) (found_files : List P.FsPath)
        → Listed root disk found_files
        → Post (Found found_files) (digests P (length (P.string root)) fails found_files disk)
    unfolding digests
    digests-Found fails [] l =
        Post-if fails (λ _. Post-err)
          (λ _. Post-ok (record { distinct = tt; present = tt; other = λ a k n p. tt }))
    digests-Found fails (a ∷ found_files) (x, j, n, l) =
        Post-bind-on (relative_to-path (length (P.string root)) a) λ k q.
          Post-bind (file_digest P a k disk) λ dg _.
            Post-bind-on (digests-Found fails found_files l)
              λ files f. Post-ok (found k dg files (ap (P.join root) q ∙ j) f)
      where
        found :
            (k : P.FsPath) (dg : Bytes) (files : List (P.FsPath × Bytes))
            → P.join root k ≡ a
            → Found found_files files
            → Found (a ∷ found_files) ((k, dg) ∷ files)
        found k dg files p f = record {
          distinct = (f.other a k n p, f.distinct);
          present = (ap (λ z. P.exists z disk) p ∙ x, f.present);
          other = λ b i (h, m) q.
              (differ i k (λ r. clash b h (sym q ∙ ap (P.join root) r ∙ p)), f.other b i m q);
        }
          where
            clash : (b : P.FsPath) → (b =? a) ≡ false → b ≡ a → ⊥
            clash b h r = not_both (b =? a) ((e.beq_iff b a).1 r) h
              where
                not_both : (b : Bool) → b ≡ true → b ≡ false → ⊥
                not_both b p q = cc

    walk_files-Found :
        Listed root disk (P.regular_files root disk).0
        → Post (Found (P.regular_files root disk).0) (walk_files P root disk)
    unfolding walk_files
    walk_files-Found l = digests-Found (P.regular_files root disk).1 (P.regular_files root disk).0 l

  -- The tasks of a pass are for different paths, and none is for a path whose entry waits.
  pub record Planned (d : Dir P.FsPath CResource) (tasks : List (Task P.FsPath)) : Type 0 where
    pub distinct : Distinct (paths P tasks)
    pub idle :
        (k : P.FsPath) (r : CResource)
        → rsrc k d ≡ some r
        → r.synced ≡ indeterminate
        → NotIn k (paths P tasks)

  unscheduled :
      (d : Dir P.FsPath CResource) (k : P.FsPath) (r : CResource)
      → rsrc k d ≡ some r
      → r.synced ≡ indeterminate
      → (digest : Bytes) → check_file P d k digest ≡ []
  unfolding check_file check_synced
  unscheduled d k r h w digest = rw (check_file, h, w)

  pub pass-Planned :
      (d : Dir P.FsPath CResource) (disk : P.Disk)
      → NodupKeys d.content
      → Listed d.path disk (P.regular_files d.path disk).0
      → Post (Planned d) (pass P d disk)
  unfolding pass missing for_each rsrc
  pass-Planned d disk u l =
      Post-bind-on (walk_files-Found d.path disk l)
        λ files f. Post-ok (record { distinct = distinct files f; idle = idle files f })
    where
      whole :
          (files : List (P.FsPath × Bytes))
          → paths P (missing P d disk ++ check_files P d files)
            ≡ paths P (gone P d.path disk d.content) ++ paths P (check_files P d files)
      whole files =
          ap (λ x. paths P (x ++ check_files P d files)) (each-gone P d.path disk d.content [])
          ∙ paths-append P (gone P d.path disk d.content) (check_files P d files)

      distinct :
          (files : List (P.FsPath × Bytes))
          → Found d.path disk (P.regular_files d.path disk).0 files
          → Distinct (paths P (missing P d disk ++ check_files P d files))
      distinct files f = rw (whole files) (
          Distinct-append (paths P (gone P d.path disk d.content)) (paths P (check_files P d files))
            (gone-Distinct P d.path disk d.content u) (check_files-Distinct P d files f.distinct)
            (gone-Apart P d.path disk d files d.content f.present))

      idle :
          (files : List (P.FsPath × Bytes))
          → Found d.path disk (P.regular_files d.path disk).0 files
          → (k : P.FsPath) (r : CResource) → rsrc k d ≡ some r
          → r.synced ≡ indeterminate
          → NotIn k (paths P (missing P d disk ++ check_files P d files))
      idle files f k r h w = rw (whole files) (
          NotIn-append k (paths P (gone P d.path disk d.content)) (paths P (check_files P d files))
            (gone-Waiting P d.path disk k r d.content u h w)
            (check_files-Waiting P d k files (unscheduled d k r h w)))
