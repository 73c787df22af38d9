-- ===== src/Client/Replies.antt =====
-- `handle_create`, `handle_update` and `handle_erase` of client/core/scheduler.cpp: what a reply does
-- to the client's view of its directory. `response` is `none` where no reply came.
pub mod Closing
use remote_backup_m.Prelude.{
  ℕ, Bool, true, false, not, List, [], ◌∷◌, Bytes, Option, none, some, Outcome, ok, err,
  exit_failure, ◌>>=◌, ◌==◌, ◌=?◌, bytes_eq, if◌then◌else◌, Eq,
}
use remote_backup_m.Shared.Types.{MsgType, msg_code, TlvType, tlv_code, ErrType, err_code}
use remote_backup_m.Shared.Message.{Message, msg_type}
use remote_backup_m.Shared.View.{View, view_of, next_tlv, next_is, tlv_type, value}
use remote_backup_m.Shared.Decimal.{stoi, is_code}
use remote_backup_m.Shared.Dir.{Dir, rsrc, insert_or_assign}
use remote_backup_m.Shared.Dir
use remote_backup_m.Client.Resource.{Tribool, yes, no, CResource}

-- An ITEM with this sign, and a segment behind it.
unfoldable pub next_item : Bytes → View → Outcome (View × Bool)
next_item sign v = do
  r ← next_is TlvType.item v
  if not r.1 then ok r else (value r.0 >>= λ x. if sign =? x then next_tlv r.0 else ok (r.0, false))

-- Whether a message is a reply to this request, and the view on what it says.
unfoldable pub answers : MsgType → Bytes → Message → Outcome (View × Bool)
answers t sign m = do
  c ← msg_type m
  if c == msg_code t then next_item sign (view_of m) else ok (view_of m, false)

-- OK, or this error.
unfoldable pub says_ok_or : ErrType → View → Outcome Bool
says_ok_or err_type v = do
  t ← tlv_type v
  if t == tlv_code TlvType.ok
      then ok true
      else (value v >>= λ x. stoi x >>= λ code. ok (is_code code (err_code err_type)))

unfoldable pub says_ok : View → Outcome Bool
says_ok v = tlv_type v >>= λ t. ok (t == tlv_code TlvType.ok)

unfoldable pub confirms : MsgType → (View → Outcome Bool) → Bytes → Message → Outcome Bool
confirms t says sign m = do r ← answers t sign m; if r.1 then says r.0 else ok false

module _ {K : Type 0} ⦃e : Eq K⦄ where
  abbrev pub unsynced : K → CResource → Dir K CResource → Dir K CResource
  unsynced relative_path r d = (insert_or_assign relative_path (record r { synced = no }) d).0

  -- Without an entry for the path, the client ends.
  unfoldable pub found : K → Dir K CResource → Outcome CResource
  found relative_path d = elim (rsrc relative_path d) [ none ↦ err exit_failure | some r ↦ ok r ]

  unfoldable pub handle_create :
      K → Bytes → Option Message → Dir K CResource → Outcome (Dir K CResource)
  handle_create relative_path sign none d = do
    r ← found relative_path d
    ok (unsynced relative_path r d)
  handle_create relative_path sign (some response) d = do
    r ← found relative_path d
    done ← confirms MsgType.create (says_ok_or ErrType.create_already_exist) sign response
    ok (
        if done
        then (insert_or_assign relative_path (record r { synced = yes; exist_on_server = true })
            d).0
        else unsynced relative_path r d)

  unfoldable pub handle_update :
      K → Bytes → Option Message → Dir K CResource → Outcome (Dir K CResource)
  handle_update relative_path sign none d = do
    r ← found relative_path d
    ok (unsynced relative_path r d)
  handle_update relative_path sign (some response) d = do
    r ← found relative_path d
    done ← confirms MsgType.update (says_ok_or ErrType.update_already_updated) sign response
    ok (
        if done
        then (insert_or_assign relative_path (record r { synced = yes }) d).0
        else unsynced relative_path r d)

  unfoldable pub handle_erase :
      K → Bytes → Option Message → Dir K CResource → Outcome (Dir K CResource)
  handle_erase relative_path sign none d = do
    r ← found relative_path d
    ok (unsynced relative_path r d)
  handle_erase relative_path sign (some response) d = do
    r ← found relative_path d
    done ← confirms MsgType.erase says_ok sign response
    ok (if done then (Dir.erase relative_path d).0 else unsynced relative_path r d)
