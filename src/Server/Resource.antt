-- ===== src/Server/Resource.antt =====
-- server/directory/s_resource.cpp. The setters are `record r { … }`.
use remote_backup_m.Prelude.{Bool, Bytes}

pub record SResource : Type 0 where
  pub synced : Bool
  pub digest : Bytes
