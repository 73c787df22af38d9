-- ===== src/Server/Handler/Upload/Finish.antt =====
-- What is left of an upload whose last chunk was served.
use remote_backup_m.Prelude.{
  ◌≡◌, ◌⊎◌, inl, inr, refl, ap, ◌∙◌, true, false, Option-cases, Bytes, ok, Post, Post-err, Post-if,
  Post-bind, arith, Eq, ◌=?◌, bytes_eq, bytes_beq_iff, Option, none, some,
}
use remote_backup_m.Shared.Types.{ErrType}
use remote_backup_m.Shared.Platform.{Platform}
use remote_backup_m.Shared.Tools.{Digest, hashed, too_long, filesystem_error, md5_file}
use remote_backup_m.Shared.Dir.{Dir, rsrc, insert_or_assign, put}
use remote_backup_m.Shared.Dir
use remote_backup_m.Shared.Dir.Entries.{NodupKeys, insert_or_assign_lem, erase_lem, beq_refl}
use remote_backup_m.Server.Resource.{SResource}
use remote_backup_m.Server.User.{dir}
use remote_backup_m.Server.Session.{Session, accept, with_dir}
use remote_backup_m.Server.Session.Frame.{accept-Same, refuse-Same}
use remote_backup_m.Server.Handler.Upload.{discard, verify_upload}

module _ (P : Platform) ⦃e : Eq P.FsPath⦄ where
  -- The entry that the user's directory has for a path.
  abbrev pub entry_of : P.FsPath → Option (Dir P.FsPath SResource) → Option SResource
  entry_of k none = none
  entry_of k (some d) = rsrc k d

  abbrev pub Distinct : Option (Dir P.FsPath SResource) → Type 0
  Distinct none = Unit {0}
  Distinct (some d) = NodupKeys d.content

  -- A file that was received whole: its entry is synced, and the file that is stored hashes to the
  -- digest that came with it.
  pub record Stored (absolute_path relative_path : P.FsPath) (c_digest : Bytes) (s : Session P)
      : Type 0 where
    pub entry :
        entry_of relative_path s.user.dir_ptr ≡ some (record { synced = true; digest = c_digest })
    pub same_digest : md5_file P absolute_path relative_path s.disk ≡ hashed c_digest

  -- The end of an upload: the file is stored, or it has no entry any more.
  abbrev pub Finished : P.FsPath → P.FsPath → Bytes → Session P → Type 0
  Finished absolute_path relative_path c_digest s =
      Stored absolute_path relative_path c_digest s ⊎ (entry_of relative_path s.user.dir_ptr ≡ none)

  -- One path's entry may have changed, and no path has two.
  pub record Touches (k : P.FsPath) (s s' : Session P) : Type 0 where
    pub distinct : Distinct s'.user.dir_ptr
    pub others :
        (j : P.FsPath) → (k =? j) ≡ false → entry_of j s'.user.dir_ptr ≡ entry_of j s.user.dir_ptr

  pub Touches-trans :
      (k : P.FsPath) (s t u : Session P) → Touches k s t → Touches k t u → Touches k s u
  Touches-trans k s t u a b = record {
    distinct = b.distinct;
    others = λ j n. b.others j n ∙ a.others j n;
  }

  pub same_user-Touches :
      (k : P.FsPath) (s s' : Session P)
      → Distinct s.user.dir_ptr
      → s'.user ≡ s.user
      → Touches k s s'
  same_user-Touches k s s' u h = record { distinct = rw h u; others = λ j n. rw h }

  pub dir-some :
      (s : Session P) (d : Dir P.FsPath SResource) → dir s.user ≡ ok d → s.user.dir_ptr ≡ some d
  unfolding dir
  dir-some s d h = elim (Option-cases s.user.dir_ptr) [
    | inl e ↦ ground arith
    | inr (d', e) ↦ ground arith
  ]

  pub insert-Touches :
      (k : P.FsPath) (r : SResource) (d : Dir P.FsPath SResource) (s : Session P)
      → s.user.dir_ptr ≡ some d
      → NodupKeys d.content
      → Touches k s (with_dir P (insert_or_assign k r d).0 s)
  insert-Touches k r d s h u = record {
    distinct = (insert_or_assign_lem k k r d u).2;
    others = λ j n. (insert_or_assign_lem k j r d u).0 ∙ rw (n, h);
  }

  pub erase-Touches :
      (k : P.FsPath) (d : Dir P.FsPath SResource) (s : Session P)
      → s.user.dir_ptr ≡ some d
      → NodupKeys d.content
      → Touches k s (with_dir P (Dir.erase k d).0 s)
  erase-Touches k d s h u = record {
    distinct = (erase_lem k k d u).2;
    others = λ j n. (erase_lem k j d u).0 ∙ rw (n, h);
  }

  -- A file is discarded with its entry.
  discard-Finished :
      (absolute_path relative_path : P.FsPath) (c_digest : Bytes) (err_type : ErrType)
      (s : Session P)
      → Distinct s.user.dir_ptr
      → Post
          (λ s'. Touches relative_path s s' × Finished absolute_path relative_path c_digest s')
          (discard P absolute_path relative_path err_type s)
  unfolding discard
  discard-Finished absolute_path relative_path c_digest err_type s u =
      Post-if (P.remove absolute_path s.disk).1 (λ _. Post-err)
        (λ _. Post-bind (dir s.user) λ d h.
          let n : NodupKeys d.content = rw (dir-some s d h) at u in
          let gone : Session P =
            with_dir P (Dir.erase relative_path d).0
              (record s { disk = (P.remove absolute_path s.disk).0 }) in
          let t =
            erase-Touches relative_path d (record s { disk = (P.remove absolute_path s.disk).0 })
              (dir-some s d h) n in
          record {
            get = λ s' r.
                let same = ((refuse-Same P err_type gone).get s' r).user in
                (
                  Touches-trans relative_path s gone s'
                      (record { distinct = t.distinct; others = t.others })
                      (same_user-Touches relative_path gone s' t.distinct same),
                  inr (
                      ap (λ u. entry_of relative_path u.dir_ptr) same
                      ∙ (erase_lem relative_path relative_path d n).0
                      ∙ rw (beq_refl relative_path)),
                );
          })

  pub verify_upload-Finished :
      (absolute_path relative_path : P.FsPath) (c_digest : Bytes) (no_match failed : ErrType)
      (s : Session P)
      → Distinct s.user.dir_ptr
      → entry_of relative_path s.user.dir_ptr ≡ some (record { synced = true; digest = c_digest })
      → Post
          (λ s'. Touches relative_path s s' × Finished absolute_path relative_path c_digest s')
          (verify_upload P absolute_path relative_path c_digest no_match failed s)
  unfolding verify_upload
  verify_upload-Finished absolute_path relative_path c_digest no_match failed s u h =
      split (md5_file P absolute_path relative_path s.disk) refl
    where
      kept :
          (s_digest : Bytes)
          → md5_file P absolute_path relative_path s.disk ≡ hashed s_digest
          → s_digest ≡ c_digest
          → Post
              (λ s'. Touches relative_path s s' × Finished absolute_path relative_path c_digest s')
              (accept P s)
      kept s_digest e q = record {
        get = λ s' r.
            let same = (accept-Same P s).get s' r in
            (
              same_user-Touches relative_path s s' u same.user,
              inl (record { entry = rw same.user h; same_digest = rw (same.disk, e, q) }),
            );
      }

      split :
          (r : Digest)
          → md5_file P absolute_path relative_path s.disk ≡ r
          → Post
              (λ s'. Touches relative_path s s' × Finished absolute_path relative_path c_digest s')
              (verify_upload P absolute_path relative_path c_digest no_match failed s)
      split (hashed s_digest) e =
          rw (e, verify_upload)
            (Post-if (s_digest =? c_digest)
              (λ b. kept s_digest e ((bytes_beq_iff s_digest c_digest).0 b))
              (λ _. discard-Finished absolute_path relative_path c_digest no_match s u))
      split too_long e = rw (e, verify_upload) Post-err
      split filesystem_error e =
          rw (e, verify_upload) (discard-Finished absolute_path relative_path c_digest failed s u)
