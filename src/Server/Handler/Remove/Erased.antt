-- ===== src/Server/Handler/Remove/Erased.antt =====
-- What `handle_erase` does to the user's directory, and that its loop over the directories ends.
use remote_backup_m.Prelude.{
  ℕ, zero, suc, ◌<◌, ◌≡◌, inl, inr, sym, ap, ◌∙◌, Bool, true, false, not, ◌||◌, Bytes, length, ok,
  ◌=?◌, if◌then◌else◌, Eq, none, some, arith, Bool-cases, Post, Post-ok, Post-if, Post-bind,
}
use remote_backup_m.Shared.Types.{ErrType}
use remote_backup_m.Shared.Platform.{Platform}
use remote_backup_m.Shared.Dir.{Dir, rsrc}
use remote_backup_m.Shared.Dir
use remote_backup_m.Shared.Dir.Entries.{NodupKeys, erase_lem, beq_refl}
use remote_backup_m.Server.Resource.{SResource}
use remote_backup_m.Server.User.{dir}
use remote_backup_m.Server.Session.{Session, accept, refuse, with_dir}
use remote_backup_m.Server.Session.Frame.{Same, accept-Same, refuse-Same}
use remote_backup_m.Server.Handler.Upload.Finish.{
  entry_of, Distinct, Touches, Touches-trans, same_user-Touches, erase-Touches, dir-some,
}
use remote_backup_m.Server.Handler.Remove.{remove_empty, has_digest, erase_file}

-- What the loop relies on: a path that names an empty directory is longer than its parent's.
abbrev pub ParentsShorter : Platform → Type 0
ParentsShorter P =
    (p : P.FsPath) (disk : P.Disk)
    → P.is_empty p disk ≡ true
    → length (P.string (P.parent_path p)) < length (P.string p)

module _ (P : Platform) ⦃e : Eq P.FsPath⦄ where
  -- The loop that removes empty directories above an erased file ends with a disk, in as many rounds
  -- as the path has bytes and one more, if the path of an empty directory is longer than its parent's.
  pub remove_empty-ends :
      (fuel : ℕ) (root : P.FsPath) (failed : Bool) (tmp : P.FsPath) (disk : P.Disk)
      → ParentsShorter P
      → length (P.string tmp) < fuel
      → (swept : P.Disk) × (remove_empty P fuel root failed tmp disk ≡ ok swept)
  unfolding remove_empty
  remove_empty-ends zero root failed tmp disk S h = elim h [ ]
  remove_empty-ends (suc fuel) root failed tmp disk S h =
      elim (Bool-cases (failed || tmp =? root || not (P.is_empty tmp disk))) [
        | inl stop ↦ (disk, rw stop)
        | inr more ↦
            let empty : P.is_empty tmp disk ≡ true = ground arith in
            let r = P.remove tmp disk in
            let (swept, q) =
              remove_empty-ends fuel root r.1 (P.parent_path tmp) r.0 S
                (omega (arith, S tmp disk empty)) in
            (swept, rw more q)
      ]

  -- Whether the removal of the user's file at this path fails.
  abbrev pub Removal : P.FsPath → Session P → Bool → Type 0
  Removal relative_path s failed =
      (d : Dir P.FsPath SResource) × (s.user.dir_ptr ≡ some d)
      × ((P.remove (P.join d.path relative_path) s.disk).1 ≡ failed)

  -- How an ERASE was served: without a match nothing changed, where the file could not be removed the
  -- user is as he was, and where it was removed the entry of its path is gone and no other one changed.
  pub data Erases (relative_path : P.FsPath) (c_digest : Bytes) (s s' : Session P) : Type 0 where
    no_match :
        has_digest P c_digest (entry_of P relative_path s.user.dir_ptr) ≡ false
        → Same P s s'
        → Erases relative_path c_digest s s'
    not_removed :
        has_digest P c_digest (entry_of P relative_path s.user.dir_ptr) ≡ true
        → Removal relative_path s true
        → s'.user ≡ s.user
        → Erases relative_path c_digest s s'
    erased :
        has_digest P c_digest (entry_of P relative_path s.user.dir_ptr) ≡ true
        → Removal relative_path s false
        → Touches P relative_path s s'
        → entry_of P relative_path s'.user.dir_ptr ≡ none
        → Erases relative_path c_digest s s'

  module _ (relative_path : P.FsPath) (c_digest : Bytes) (s : Session P)
      (u : Distinct P s.user.dir_ptr) where
    refused_in :
        (err_type : ErrType) (disk : P.Disk)
        → has_digest P c_digest (entry_of P relative_path s.user.dir_ptr) ≡ true
        → Removal relative_path s true
        → Post (Erases relative_path c_digest s) (refuse P err_type (record s { disk = disk }))
    refused_in err_type disk h failed = record {
      get = λ s' r.
          not_removed h failed ((refuse-Same P err_type (record s { disk = disk })).get s' r).user;
    }

    erased_in :
        (d : Dir P.FsPath SResource) (disk : P.Disk)
        → s.user.dir_ptr ≡ some d
        → has_digest P c_digest (entry_of P relative_path s.user.dir_ptr) ≡ true
        → Removal relative_path s false
        → Post
            (Erases relative_path c_digest s)
            (accept P (with_dir P (Dir.erase relative_path d).0 (record s { disk = disk })))
    erased_in d disk q h removed =
        let n : NodupKeys d.content = rw q at u in
        let gone : Session P =
          with_dir P (Dir.erase relative_path d).0 (record s { disk = disk }) in
        let t = erase-Touches P relative_path d s q n in
        record {
          get = λ s' r.
              let same = ((accept-Same P gone).get s' r).user in
              erased h removed
                (Touches-trans P relative_path s gone s'
                  (record { distinct = t.distinct; others = t.others })
                  (same_user-Touches P relative_path gone s' t.distinct same))
                (ap (λ i. entry_of P relative_path i.dir_ptr) same
                  ∙ (erase_lem relative_path relative_path d n).0
                  ∙ rw (beq_refl relative_path));
        }

    swept_in :
        (closed : Session P) (disk : P.Disk)
        → has_digest P c_digest (entry_of P relative_path s.user.dir_ptr) ≡ true
        → Erases relative_path c_digest s closed
        → Erases relative_path c_digest s (record closed { disk = disk })
    swept_in closed disk h (no_match n same) = absurd (let q = sym h ∙ n in cc)
    swept_in closed disk h (not_removed _ f same) = not_removed h f same
    swept_in closed disk h (erased _ f t g) =
        erased h f (record { distinct = t.distinct; others = t.others }) g

    erase_file-Post : Post (Erases relative_path c_digest s) (erase_file P relative_path c_digest s)
    unfolding erase_file
    erase_file-Post = Post-bind (dir s.user) λ d k.
        let q = dir-some P s d k in
        let r = P.remove (P.join d.path relative_path) s.disk in
        let same_digest : has_digest P c_digest (entry_of P relative_path s.user.dir_ptr)
            ≡ has_digest P c_digest (rsrc relative_path d) =
          rw q in
        Post-if (not (has_digest P c_digest (rsrc relative_path d)))
          (λ b. record {
            get = λ s' h.
                no_match (same_digest ∙ ground arith)
                  ((refuse-Same P ErrType.erase_no_match s).get s' h);
          })
          (λ b.
            let h : has_digest P c_digest (entry_of P relative_path s.user.dir_ptr) ≡ true =
              same_digest ∙ ground arith in
            Post-bind
              (if r.1
                then refuse P ErrType.erase_failed (record s { disk = r.0 })
                else accept P (with_dir P (Dir.erase relative_path d).0 (record s { disk = r.0 })))
              λ closed c. Post-bind (remove_empty P _ d.path r.1 _ closed.disk) λ swept _. Post-ok (
                swept_in closed swept h (
                  (Post-if r.1 (λ x. refused_in ErrType.erase_failed r.0 h (d, q, x))
                      (λ x. erased_in d r.0 q h (d, q, x))).get
                    closed c)))

  -- An ERASE of a path, on a user's directory in which no path has two entries, that gets a reply
  -- changes nothing where the entry of the path does not have the digest of the request. Where it does:
  -- if the file is removed, the entry is gone and no other one changes, and if the removal fails, the
  -- user is as he was.
  pub erase_file-Erases :
      (relative_path : P.FsPath) (c_digest : Bytes) (s s' : Session P)
      → Distinct P s.user.dir_ptr
      → erase_file P relative_path c_digest s ≡ ok s'
      → Erases relative_path c_digest s s'
  erase_file-Erases relative_path c_digest s s' u h =
      (erase_file-Post relative_path c_digest s u).get s' h
