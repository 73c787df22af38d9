-- ===== src/Client/Rounds/Gone.antt =====
-- The erasures of one pass.
use remote_backup_m.Prelude.{
  Bytes, ◌≡◌, refl, sym, ◌∙◌, ap, inl, inr, Bool, true, false, List, [], ◌∷◌, ◌++◌, append_assoc,
  append-nil, none, some, Eq, ◌=?◌, Bool-cases,
}
use remote_backup_m.Shared.Platform.{Platform}
use remote_backup_m.Shared.Dir.{Dir, find, each}
use remote_backup_m.Shared.Dir.Entries.{NodupKeys}
use remote_backup_m.Client.Resource.{indeterminate, CResource}
use remote_backup_m.Client.Tasks.{Task, erase}
use remote_backup_m.Client.Watcher.{check_missing, check_files}
use remote_backup_m.Client.Rounds.Paths.{
  NotIn, Distinct, Apart, differ, differ_sym, NotIn-append, Distinct-append,
}
use remote_backup_m.Client.Rounds.Passed.{
  paths, paths-append, Only, Only-NotIn, Only-Distinct, Only-Apart, check_missing-Only, keys,
  check_files-NotIn,
}

module _ (P : Platform) ⦃e : Eq P.FsPath⦄ (root : P.FsPath) (disk : P.Disk) where
  abbrev pub gone : List (P.FsPath × CResource) → List (Task P.FsPath)
  gone [] = []
  gone (x ∷ xs) = check_missing P root disk x ++ gone xs

  abbrev gather : P.FsPath × CResource → List (Task P.FsPath) → List (Task P.FsPath)
  gather entry tasks = tasks ++ check_missing P root disk entry

  pub each-gone :
      (xs : List (P.FsPath × CResource)) (tasks : List (Task P.FsPath))
      → each gather xs tasks ≡ tasks ++ gone xs
  each-gone [] tasks = sym (append-nil tasks)
  each-gone (x ∷ xs) tasks =
      each-gone xs (tasks ++ check_missing P root disk x)
      ∙ append_assoc tasks (check_missing P root disk x) (gone xs)

  check_missing-OnlyOne :
      (k : P.FsPath) (r : CResource) → Only P k (check_missing P root disk (k, r))
  check_missing-OnlyOne k r = elim (check_missing-Only P root disk k r) [
    | inl n ↦ inl n
    | inr (n, x) ↦ inr (erase k r.digest, n, refl)
  ]

  find-NotIn :
      (k : P.FsPath) (xs : List (P.FsPath × CResource))
      → find k xs ≡ none
      → NotIn k (paths P (gone xs))
  unfolding find
  find-NotIn k [] h = tt
  find-NotIn k ((j, r) ∷ xs) h = elim (Bool-cases (j =? k)) [
    | inl b ↦ absurd (other b)
    | inr b ↦ rw (paths-append P (check_missing P root disk (j, r)) (gone xs)) (
        NotIn-append k (paths P (check_missing P root disk (j, r))) (paths P (gone xs))
          (Only-NotIn P k j (check_missing P root disk (j, r)) (differ k j λ p. clash p b)
            (check_missing-OnlyOne j r))
          (find-NotIn k xs (sym (rw b) ∙ h)))
  ]
    where
      other : (j =? k) ≡ true → ⊥
      other b = none_some (sym h ∙ rw b)
        where
          none_some : none ≡ some r → ⊥
          none_some p = cc

      clash : k ≡ j → (j =? k) ≡ false → ⊥
      clash p b = not_both (j =? k) ((e.beq_iff j k).1 (sym p)) b
        where
          not_both : (b : Bool) → b ≡ true → b ≡ false → ⊥
          not_both b p q = cc

  pub gone-Distinct :
      (xs : List (P.FsPath × CResource)) → NodupKeys xs → Distinct (paths P (gone xs))
  gone-Distinct [] u = tt
  gone-Distinct ((j, r) ∷ xs) (n, u) =
      rw (paths-append P (check_missing P root disk (j, r)) (gone xs)) (
        Distinct-append (paths P (check_missing P root disk (j, r))) (paths P (gone xs))
          (Only-Distinct P j (check_missing P root disk (j, r)) (check_missing-OnlyOne j r))
          (gone-Distinct xs u)
          (Only-Apart P j (check_missing P root disk (j, r)) (paths P (gone xs))
            (check_missing-OnlyOne j r) (find-NotIn j xs n)))

  -- Nothing for a path whose entry waits.
  pub gone-Waiting :
      (k : P.FsPath) (r : CResource) (xs : List (P.FsPath × CResource))
      → NodupKeys xs
      → find k xs ≡ some r
      → r.synced ≡ indeterminate
      → NotIn k (paths P (gone xs))
  unfolding find check_missing
  gone-Waiting k r [] u h w = tt
  gone-Waiting k r ((j, s) ∷ xs) (n, u) h w = elim (Bool-cases (j =? k)) [
    | inl b ↦ here ((e.beq_iff j k).0 b) (some_inj s r (sym (rw b) ∙ h))
    | inr b ↦ rw (paths-append P (check_missing P root disk (j, s)) (gone xs)) (
        NotIn-append k (paths P (check_missing P root disk (j, s))) (paths P (gone xs))
          (Only-NotIn P k j (check_missing P root disk (j, s)) (differ_sym j k b)
            (check_missing-OnlyOne j s))
          (gone-Waiting k r xs u (sym (rw b) ∙ h) w))
  ]
    where
      some_inj : (s r : CResource) → some s ≡ some r → s ≡ r
      some_inj s r p = cc

      here : j ≡ k → s ≡ r → NotIn k (paths P (check_missing P root disk (j, s) ++ gone xs))
      here p q = rw (nothing q) (find-NotIn k xs (ap (λ x. find x xs) (sym p) ∙ n))
        where
          nothing : s ≡ r → check_missing P root disk (j, s) ≡ []
          nothing q = elim (Bool-cases (P.exists (P.join root j) disk)) [
            | inl b ↦ rw b
            | inr b ↦ rw (b, ap (λ x. x.synced) q ∙ w)
          ]

  -- A list of paths that all exist has none for which there is an erasure.
  abbrev pub Present : List P.FsPath → Type 0
  Present [] = Unit {0}
  Present (k ∷ ks) = (P.exists (P.join root k) disk ≡ true) × Present ks

  Present-NotIn :
      (k : P.FsPath) (ks : List P.FsPath)
      → P.exists (P.join root k) disk ≡ false
      → Present ks
      → NotIn k ks
  Present-NotIn k [] h p = tt
  Present-NotIn k (j ∷ ks) h (x, p) = (
    differ k j (λ q.
        not_both (P.exists (P.join root j) disk) x
          (ap (λ z. P.exists (P.join root z) disk) (sym q) ∙ h)),
    Present-NotIn k ks h p,
  )
    where
      not_both : (b : Bool) → b ≡ true → b ≡ false → ⊥
      not_both b p q = cc

  pub gone-Apart :
      (d : Dir P.FsPath CResource) (files : List (P.FsPath × Bytes))
      (xs : List (P.FsPath × CResource))
      → Present (keys P files)
      → Apart (paths P (gone xs)) (paths P (check_files P d files))
  gone-Apart d files [] p = tt
  gone-Apart d files ((j, s) ∷ xs) p = elim (check_missing-Only P root disk j s) [
    | inl n ↦ rw n (gone-Apart d files xs p)
    | inr (n, x) ↦ rw n (
      check_files-NotIn P d j files (Present-NotIn j (keys P files) x p),
      gone-Apart d files xs p,
    )
  ]
