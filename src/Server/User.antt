-- ===== src/Server/User.antt =====
-- server/core/user.cpp. `dir_ptr_` is null until a directory is set. The setters are `record u { … }`.
use remote_backup_m.Prelude.{
  Bool, false, Bytes, [], Option, none, some, Outcome, deref, ◌=?◌, bytes_eq,
}
use remote_backup_m.Shared.Dir.{Dir, get_instance}
use remote_backup_m.Server.Resource.{SResource}

pub record User (K : Type 0) : Type 0 where
  pub id : Bytes
  pub username : Bytes
  pub ip : Bytes
  pub auth : Bool
  pub synced : Bool
  pub dir_ptr : Option (Dir K SResource)

module _ {K : Type 0} where
  -- A user as a connection makes it. The class has no constructor and its flags no initialiser, so
  -- they are whatever the memory holds.
  unfoldable pub fresh_user : Bool → Bool → User K
  fresh_user auth synced = record {
    id = [];
    username = [];
    ip = [];
    auth = auth;
    synced = synced;
    dir_ptr = none;
  }

  unfoldable pub set_dir : K → User K → User K
  unfolding get_instance
  set_dir absolute_path u = record u { dir_ptr = some (get_instance absolute_path false) }

  -- `user_dir->…`, through a pointer that may be null.
  unfoldable pub dir : User K → Outcome (Dir K SResource)
  dir u = deref u.dir_ptr

  unfoldable pub same_user : User K → User K → Bool
  same_user u other = u.id =? other.id
