-- ===== src/Client/Resource.antt =====
-- client/directory/c_resource.cpp. The setters are `record r { … }`.
use remote_backup_m.Prelude.{Bool, Bytes}

-- `boost::logic::tribool`.
pub data Tribool : Type 0 where
  no yes indeterminate : Tribool

pub record CResource : Type 0 where
  pub synced : Tribool
  pub exist_on_server : Bool
  pub digest : Bytes
