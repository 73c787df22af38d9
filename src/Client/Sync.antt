-- ===== src/Client/Sync.antt =====
-- `sync` and `restore` of client/core/scheduler.cpp, from the server's reply on.
pub mod Compared
pub mod Listed
pub mod Decided
use remote_backup_m.Prelude.{
  ℕ, zero, suc, true, false, not, List, [], ◌∷◌, ◌++◌, Bytes, length, Option, none, some, Outcome,
  ok, err, exit_failure, out_of_fuel, ◌>>=◌, ◌==◌, ◌=?◌, bytes_eq, if◌then◌else◌, Eq,
}
use remote_backup_m.Shared.Types.{MsgType, msg_code, TlvType, tlv_code}
use remote_backup_m.Shared.Message.{Message, new_message, add_tlv, msg_type}
use remote_backup_m.Shared.View.{View, view_of, next_tlv, tlv_type, value}
use remote_backup_m.Shared.Platform.{Platform}
use remote_backup_m.Shared.Tools.{split_sign}
use remote_backup_m.Shared.Dir.{Dir, rsrc, contains, insert_or_assign, for_each, get_instance}
use remote_backup_m.Client.Resource.{yes, indeterminate, CResource}
use remote_backup_m.Client.Tasks.{Task, create, update, erase}

-- LIST and END.
unfoldable pub list_request : Message
list_request = add_tlv (tlv_code TlvType.end) 0 [] (new_message (msg_code MsgType.list))

-- The view on the first segment of a LIST reply that is no ERROR; any other reply ends the client.
unfoldable pub list_view : Message → Outcome View
list_view m = do
  t ← msg_type m
  if not (t == msg_code MsgType.list)
      then err exit_failure
      else (next_tlv (view_of m) >>= λ r.
          if not r.1
          then err exit_failure
          else (tlv_type r.0 >>= λ tag.
              if tag == tlv_code TlvType.error then err exit_failure else ok r.0))

-- `do … while (view.next_tlv())`, for a body that looks at the ITEM segments.
unfoldable pub items_from : ℕ → View → Outcome (List Bytes)
items_from zero v = err out_of_fuel
items_from (suc fuel) v = do
  t ← tlv_type v
  let more : Outcome (List Bytes) = next_tlv v >>= λ r. if r.1 then items_from fuel r.0 else ok []
  if t == tlv_code TlvType.item then (value v >>= λ x. more >>= λ rest. ok (x ∷ rest)) else more

-- A round consumes three bytes at least.
unfoldable pub listed_signs : Message → Outcome (List Bytes)
listed_signs m = list_view m >>= items_from (suc (length m.raw))

module _ (P : Platform) ⦃e : Eq P.FsPath⦄ where
  -- The client's directory, the server's files as far as they were read, and the calls of the
  -- scheduler.
  pub record SyncState : Type 0 where
    pub dir : Dir P.FsPath CResource
    pub s_dir : Dir P.FsPath CResource
    pub tasks : List (Task P.FsPath)

  abbrev pub listed_resource : Bytes → CResource
  listed_resource s_digest = record {
    synced = indeterminate;
    exist_on_server = true;
    digest = s_digest;
  }

  -- A file of the server's against the client's entry.
  unfoldable pub compare_entry : P.FsPath → Bytes → Option CResource → SyncState → SyncState
  compare_entry relative_path s_digest none s = record s {
    tasks = s.tasks ++ (erase relative_path s_digest ∷ []);
  }
  compare_entry relative_path s_digest (some r) s =
      if not (r.digest =? s_digest)
      then record s { tasks = s.tasks ++ (update relative_path r.digest ∷ []) }
      else record s {
        dir =
            (insert_or_assign relative_path (record r { synced = yes; exist_on_server = true })
              s.dir).0;
      }

  unfoldable pub sync_item : P.FsPath → Bytes → SyncState → SyncState
  sync_item relative_path s_digest s =
      compare_entry relative_path s_digest (rsrc relative_path s.dir)
        (record s { s_dir = (insert_or_assign relative_path (listed_resource s_digest) s.s_dir).0 })

  unfoldable pub sync_items : List Bytes → SyncState → Outcome SyncState
  sync_items [] s = ok s
  sync_items (s_sign ∷ signs) s =
      split_sign P s_sign >>= λ c. sync_items signs (sync_item c.0 c.1 s)

  -- A file of the client's that the server did not list.
  unfoldable pub create_missing :
      Dir P.FsPath CResource → P.FsPath × CResource → List (Task P.FsPath) → List (Task P.FsPath)
  create_missing s_dir (relative_path, r) tasks =
      if contains relative_path s_dir then tasks else tasks ++ (create relative_path r.digest ∷ [])

  unfoldable pub sync_reply : P.FsPath → Message → Dir P.FsPath CResource → Outcome SyncState
  sync_reply s_path m d = do
    signs ← listed_signs m
    s ← sync_items signs (record { dir = d; s_dir = get_instance s_path false; tasks = [] })
    ok (record s { tasks = for_each (create_missing s.s_dir) s.dir s.tasks })
