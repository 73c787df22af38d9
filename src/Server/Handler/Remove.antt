-- ===== src/Server/Handler/Remove.antt =====
-- `handle_erase` and `handle_retrieve` of server/core/request_handler.cpp.
pub mod Erased
use remote_backup_m.Prelude.{
  ℕ, zero, suc, ◌+◌, Bool, true, false, not, ◌||◌, List, [], ◌∷◌, Bytes, length, Outcome, ok, err,
  Failure, undefined_behaviour, exit_failure, blocked, out_of_fuel, ◌>>=◌, ◌==◌, ◌=?◌, bytes_eq,
  if◌then◌else◌, Option, none, some, Eq,
}
use remote_backup_m.Shared.Types.{MsgType, msg_code, TlvType, tlv_code, ErrType}
use remote_backup_m.Shared.Message.{Message}
use remote_backup_m.Shared.View.{View, tlv_type, value}
use remote_backup_m.Shared.Platform.{Platform, FileRead, contents, unopened, raised}
use remote_backup_m.Shared.Tools.{split_sign}
use remote_backup_m.Shared.Chunks.{FMessage, open_f_message, all_chunks, file_bytes}
use remote_backup_m.Shared.Dir.{Dir, rsrc}
use remote_backup_m.Shared.Dir
use remote_backup_m.Server.Resource.{SResource}
use remote_backup_m.Server.User.{dir}
use remote_backup_m.Server.Queue.{Queue, new_queue, add_message}
use remote_backup_m.Server.Session.{Session, accept, refuse, reply_tlv, with_dir}

module _ (P : Platform) ⦃e : Eq P.FsPath⦄ where
  -- `while (!ec && tmp != root && is_empty(tmp, ec))`: empty directories above an erased file go
  -- too. `failed` is whether `ec` is set.
  unfoldable pub remove_empty : ℕ → P.FsPath → Bool → P.FsPath → P.Disk → Outcome P.Disk
  remove_empty zero root failed tmp disk = err out_of_fuel
  remove_empty (suc fuel) root failed tmp disk =
      let (disk', failed') = P.remove tmp disk in
      let rest = remove_empty fuel root failed' (P.parent_path tmp) disk' in
      if failed || tmp =? root || not (P.is_empty tmp disk) then ok disk else rest

  abbrev pub has_digest : Bytes → Option SResource → Bool
  has_digest c_digest none = false
  has_digest c_digest (some r) = r.digest =? c_digest

  unfoldable pub erase_file : P.FsPath → Bytes → Session P → Outcome (Session P)
  erase_file relative_path c_digest s = do
    d ← dir s.user
    if not (has_digest c_digest (rsrc relative_path d))
        then refuse P ErrType.erase_no_match s
        else do
          let absolute_path = P.join d.path relative_path
          let (disk, failed) = P.remove absolute_path s.disk
          let s' = record s { disk = disk }
          closed ←
              (if failed
                then refuse P ErrType.erase_failed s'
                else accept P (with_dir P (Dir.erase relative_path d).0 s'))
          let above = P.parent_path absolute_path
          swept ← remove_empty (suc (length (P.string above))) d.path failed above closed.disk
          ok (record closed { disk = swept })

  unfoldable pub handle_erase : View → Session P → Outcome (Session P)
  handle_erase v s = do
    t ← tlv_type v
    if not (t == tlv_code TlvType.item) then refuse P ErrType.erase_no_item s else do
      c_sign ← value v
      c ← split_sign P c_sign
      s' ← reply_tlv P TlvType.item c_sign s
      erase_file c.0 c.1 s'

abbrev pub file_of : FileRead → Option Bytes
file_of (contents bytes) = some bytes
file_of unopened = none
file_of raised = none

-- What `catch (std::exception &)` catches.
abbrev pub is_exception : Failure → Bool
is_exception undefined_behaviour = false
is_exception exit_failure = false
is_exception blocked = false
is_exception out_of_fuel = false
is_exception _ = true

abbrev pub add_messages : List Message → Queue → Queue
add_messages [] q = q
add_messages (m ∷ ms) q = add_messages ms (add_message m q)

module _ (P : Platform) where
  -- The file in messages, or an ERROR where an exception stops them: that one goes to a queue with
  -- no message.
  unfoldable pub retrieve_file : FMessage → ℕ → Session P → Outcome (Session P)
  retrieve_file f fuel s =
      let fresh = record s { replies = new_queue (msg_code MsgType.retrieve) } in
      elim (all_chunks fuel f) [
        | ok ms ↦ ok (record fresh { replies = add_messages ms fresh.replies })
        | err failure ↦
            if is_exception failure then refuse P ErrType.retrieve_failed fresh else err failure
      ]

  unfoldable pub handle_retrieve : View → Session P → Outcome (Session P)
  handle_retrieve v s = do
    t ← tlv_type v
    if not (t == tlv_code TlvType.item) then refuse P ErrType.erase_no_item s else do
      c_sign ← value v
      c ← split_sign P c_sign
      d ← dir s.user
      let file = file_of (P.read_file (P.join d.path c.0) s.disk)
      f ← open_f_message (msg_code MsgType.retrieve) file c_sign
      retrieve_file f (length (file_bytes file) + 2) s
