-- ===== src/Client/Rounds/Passed.antt =====
-- The tasks of one pass.
use remote_backup_m.Prelude.{
  ◌≡◌, refl, ◌∙◌, ap, ◌⊎◌, inl, inr, false, List, [], ◌∷◌, ◌++◌, Bytes, Option, none, some, Eq,
  ◌=?◌, bytes_eq, Bool-cases, map,
}
use remote_backup_m.Shared.Platform.{Platform}
use remote_backup_m.Shared.Dir.{Dir, rsrc}
use remote_backup_m.Client.Resource.{Tribool, yes, no, indeterminate, CResource}
use remote_backup_m.Client.Tasks.{Task, create, update, erase}
use remote_backup_m.Client.Watcher.{
  is_indeterminate, check_missing, check_synced, check_file, check_files,
}
use remote_backup_m.Client.Watcher.Pending.{path_of}
use remote_backup_m.Client.Rounds.Paths.{NotIn, Distinct, Apart, NotIn-append, Distinct-append}

module _ (P : Platform) ⦃e : Eq P.FsPath⦄ where
  abbrev pub paths : List (Task P.FsPath) → List P.FsPath
  paths ts = map (path_of P) ts

  pub paths-append : (xs ys : List (Task P.FsPath)) → paths (xs ++ ys) ≡ paths xs ++ paths ys
  paths-append [] ys = refl
  paths-append (x ∷ xs) ys = ap (◌∷◌ (path_of P x)) (paths-append xs ys)

  -- One task at most, and for this path.
  abbrev pub Only : P.FsPath → List (Task P.FsPath) → Type 0
  Only k ts = (ts ≡ []) ⊎ ((t : Task P.FsPath) × (ts ≡ t ∷ []) × (path_of P t ≡ k))

  check_synced-Only :
      (k : P.FsPath) (digest : Bytes) (r : CResource) (t : Tribool)
      → Only k (check_synced P k digest r t)
  unfolding check_synced
  check_synced-Only k digest r yes = elim (Bool-cases (r.digest =? digest)) [
    | inl b ↦ inl (rw b)
    | inr b ↦ inr (update k digest, rw b, refl)
  ]
  check_synced-Only k digest r no = elim (Bool-cases r.exist_on_server) [
    | inl b ↦ inr (update k digest, rw b, refl)
    | inr b ↦ inr (create k digest, rw b, refl)
  ]
  check_synced-Only k digest r indeterminate = inl refl

  check_file-Only :
      (d : Dir P.FsPath CResource) (k : P.FsPath) (digest : Bytes)
      → Only k (check_file P d k digest)
  unfolding check_file
  check_file-Only d k digest = within (rsrc k d)
    where
      within :
          (o : Option CResource)
          → Only k
              (elim o [ none ↦ create k digest ∷ [] | some r ↦ check_synced P k digest r r.synced ])
      within none = inr (create k digest, refl, refl)
      within (some r) = check_synced-Only k digest r r.synced

  -- An entry without a file, that the server has and for which nothing waits, or no task.
  pub check_missing-Only :
      (root : P.FsPath) (disk : P.Disk) (k : P.FsPath) (r : CResource)
      → (check_missing P root disk (k, r) ≡ [])
        ⊎ ((check_missing P root disk (k, r) ≡ erase k r.digest ∷ [])
            × (P.exists (P.join root k) disk ≡ false))
  unfolding check_missing
  check_missing-Only root disk k r = elim (Bool-cases (P.exists (P.join root k) disk)) [
    | inl b ↦ inl (rw b)
    | inr b ↦ elim (Bool-cases (is_indeterminate r.synced)) [
      | inl c ↦ inl (rw (b, c))
      | inr c ↦ elim (Bool-cases r.exist_on_server) [
        | inl x ↦ inr (rw (b, c, x), b)
        | inr x ↦ inl (rw (b, c, x))
      ]
    ]
  ]

  pub Only-NotIn :
      (k j : P.FsPath) (ts : List (Task P.FsPath))
      → (k =? j) ≡ false
      → Only j ts
      → NotIn k (paths ts)
  Only-NotIn k j ts h (inl n) = rw n tt
  Only-NotIn k j ts h (inr (t, n, p)) = rw n (ap (λ x. k =? x) p ∙ h, tt)

  pub Only-Distinct : (j : P.FsPath) (ts : List (Task P.FsPath)) → Only j ts → Distinct (paths ts)
  Only-Distinct j ts (inl n) = rw n tt
  Only-Distinct j ts (inr (t, n, p)) = rw n (tt, tt)

  pub Only-Apart :
      (j : P.FsPath) (ts : List (Task P.FsPath)) (ks : List P.FsPath)
      → Only j ts
      → NotIn j ks
      → Apart (paths ts) ks
  Only-Apart j ts ks (inl n) h = rw n tt
  Only-Apart j ts ks (inr (t, n, p)) h = rw (n, p) (h, tt)

  abbrev pub keys : List (P.FsPath × Bytes) → List P.FsPath
  keys [] = []
  keys ((k, digest) ∷ files) = k ∷ keys files

  -- The tasks for files: for none that is not listed, and one at most for each.
  pub check_files-NotIn :
      (d : Dir P.FsPath CResource) (k : P.FsPath) (files : List (P.FsPath × Bytes))
      → NotIn k (keys files)
      → NotIn k (paths (check_files P d files))
  check_files-NotIn d k [] h = tt
  check_files-NotIn d k ((j, digest) ∷ files) (n, h) =
      rw (paths-append (check_file P d j digest) (check_files P d files)) (
        NotIn-append k (paths (check_file P d j digest)) (paths (check_files P d files))
          (Only-NotIn k j (check_file P d j digest) n (check_file-Only d j digest))
          (check_files-NotIn d k files h))

  pub check_files-Distinct :
      (d : Dir P.FsPath CResource) (files : List (P.FsPath × Bytes))
      → Distinct (keys files)
      → Distinct (paths (check_files P d files))
  check_files-Distinct d [] h = tt
  check_files-Distinct d ((j, digest) ∷ files) (n, h) =
      rw (paths-append (check_file P d j digest) (check_files P d files)) (
        Distinct-append (paths (check_file P d j digest)) (paths (check_files P d files))
          (Only-Distinct j (check_file P d j digest) (check_file-Only d j digest))
          (check_files-Distinct d files h)
          (Only-Apart j (check_file P d j digest) (paths (check_files P d files))
            (check_file-Only d j digest) (check_files-NotIn d j files n)))

  -- Nothing for a path that waits.
  pub check_files-Waiting :
      (d : Dir P.FsPath CResource) (k : P.FsPath) (files : List (P.FsPath × Bytes))
      → ((digest : Bytes) → check_file P d k digest ≡ [])
      → NotIn k (paths (check_files P d files))
  check_files-Waiting d k [] h = tt
  check_files-Waiting d k ((j, digest) ∷ files) h =
      rw (paths-append (check_file P d j digest) (check_files P d files)) (
        NotIn-append k (paths (check_file P d j digest)) (paths (check_files P d files))
          (elim (Bool-cases (k =? j)) [
            | inl b ↦ same ((e.beq_iff k j).0 b)
            | inr b ↦ Only-NotIn k j (check_file P d j digest) b (check_file-Only d j digest)
          ])
          (check_files-Waiting d k files h))
    where
      same : k ≡ j → NotIn k (paths (check_file P d j digest))
      same p = rw (← p, h digest) tt
