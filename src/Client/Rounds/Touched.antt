-- ===== src/Client/Rounds/Touched.antt =====
-- What the handler of a reply changes.
use remote_backup_m.Prelude.{
  ◌≡◌, ◌∙◌, Bool, true, false, Bytes, Option, none, some, Eq, ◌=?◌, if◌then◌else◌, Post, Post-ok,
  Post-bind,
}
use remote_backup_m.Shared.Types.{MsgType, ErrType}
use remote_backup_m.Shared.Message.{Message}
use remote_backup_m.Shared.Platform.{Platform}
use remote_backup_m.Shared.Dir.{Dir, rsrc, insert_or_assign}
use remote_backup_m.Shared.Dir
use remote_backup_m.Shared.Dir.Entries.{NodupKeys, insert_or_assign_lem, erase_lem}
use remote_backup_m.Client.Resource.{CResource}
use remote_backup_m.Client.Replies.{
  confirms, says_ok_or, says_ok, found, handle_create, handle_update, handle_erase,
}
use remote_backup_m.Client.Tasks.{Posted}
use remote_backup_m.Client.Rounds.{reply_to}

module _ (P : Platform) ⦃e : Eq P.FsPath⦄ where
  -- A change of the entry of another path.
  abbrev pub Elsewhere : P.FsPath → Dir P.FsPath CResource → Dir P.FsPath CResource → Type 0
  Elsewhere k d d' = (j : P.FsPath) → (k =? j) ≡ false → rsrc j d' ≡ rsrc j d

  -- The entry of this path alone may have changed.
  pub record Touched (k : P.FsPath) (d d' : Dir P.FsPath CResource) : Type 0 where
    pub entries : NodupKeys d'.content
    pub elsewhere : Elsewhere k d d'

  pub assigned-Touched :
      (k : P.FsPath) (r : CResource) (d : Dir P.FsPath CResource)
      → NodupKeys d.content
      → Touched k d (insert_or_assign k r d).0
  assigned-Touched k r d u = record {
    entries = (insert_or_assign_lem k k r d u).2;
    elsewhere = λ j h. (insert_or_assign_lem k j r d u).0 ∙ rw h;
  }

  erased-Touched :
      (k : P.FsPath) (d : Dir P.FsPath CResource)
      → NodupKeys d.content
      → Touched k d (Dir.erase k d).0
  erased-Touched k d u = record {
    entries = (erase_lem k k d u).2;
    elsewhere = λ j h. (erase_lem k j d u).0 ∙ rw h;
  }

  either-Touched :
      (k : P.FsPath) (b : Bool) (d x y : Dir P.FsPath CResource)
      → Touched k d x
      → Touched k d y
      → Touched k d (if b then x else y)
  either-Touched k true d x y p q = p
  either-Touched k false d x y p q = q

  handle_create-Touched :
      (k : P.FsPath) (sign : Bytes) (response : Option Message) (d : Dir P.FsPath CResource)
      → NodupKeys d.content
      → Post (Touched k d) (handle_create k sign response d)
  unfolding handle_create
  handle_create-Touched k sign none d u =
      Post-bind (found k d) λ r _. Post-ok (assigned-Touched k _ d u)
  handle_create-Touched k sign (some m) d u = Post-bind (found k d) λ r _.
      Post-bind (confirms MsgType.create (says_ok_or ErrType.create_already_exist) sign m) λ b _.
        Post-ok (either-Touched k b d _ _ (assigned-Touched k _ d u) (assigned-Touched k _ d u))

  handle_update-Touched :
      (k : P.FsPath) (sign : Bytes) (response : Option Message) (d : Dir P.FsPath CResource)
      → NodupKeys d.content
      → Post (Touched k d) (handle_update k sign response d)
  unfolding handle_update
  handle_update-Touched k sign none d u =
      Post-bind (found k d) λ r _. Post-ok (assigned-Touched k _ d u)
  handle_update-Touched k sign (some m) d u = Post-bind (found k d) λ r _.
      Post-bind (confirms MsgType.update (says_ok_or ErrType.update_already_updated) sign m) λ b _.
        Post-ok (either-Touched k b d _ _ (assigned-Touched k _ d u) (assigned-Touched k _ d u))

  handle_erase-Touched :
      (k : P.FsPath) (sign : Bytes) (response : Option Message) (d : Dir P.FsPath CResource)
      → NodupKeys d.content
      → Post (Touched k d) (handle_erase k sign response d)
  unfolding handle_erase
  handle_erase-Touched k sign none d u =
      Post-bind (found k d) λ r _. Post-ok (assigned-Touched k _ d u)
  handle_erase-Touched k sign (some m) d u = Post-bind (found k d) λ r _.
      Post-bind (confirms MsgType.erase says_ok sign m)
        λ b _. Post-ok (either-Touched k b d _ _ (erased-Touched k d u) (assigned-Touched k _ d u))

  pub reply_to-Touched :
      (t : MsgType) (p : Posted P.FsPath) (response : Option Message) (d : Dir P.FsPath CResource)
      → NodupKeys d.content
      → Post (Touched p.relative_path d) (reply_to P t p response d)
  reply_to-Touched MsgType.create p response d u =
      handle_create-Touched p.relative_path p.sign response d u
  reply_to-Touched MsgType.update p response d u =
      handle_update-Touched p.relative_path p.sign response d u
  reply_to-Touched MsgType.none p response d u =
      handle_erase-Touched p.relative_path p.sign response d u
  reply_to-Touched MsgType.erase p response d u =
      handle_erase-Touched p.relative_path p.sign response d u
  reply_to-Touched MsgType.list p response d u =
      handle_erase-Touched p.relative_path p.sign response d u
  reply_to-Touched MsgType.auth p response d u =
      handle_erase-Touched p.relative_path p.sign response d u
  reply_to-Touched MsgType.retrieve p response d u =
      handle_erase-Touched p.relative_path p.sign response d u
  reply_to-Touched MsgType.keep_alive p response d u =
      handle_erase-Touched p.relative_path p.sign response d u
