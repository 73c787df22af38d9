-- ===== src/Client/Tasks.antt =====
-- `create`, `update` and `erase` of client/core/scheduler.cpp. A call posts a function to the
-- executor: the call is a `Task`, and `run_task` is what the function does.
use remote_backup_m.Prelude.{
  Bool, true, false, List, [], ◌∷◌, ◌++◌, Bytes, length, Outcome, ok, ◌>>=◌, Eq,
}
use remote_backup_m.Shared.Types.{MsgType, msg_code, TlvType, tlv_code}
use remote_backup_m.Shared.Message.{Message, new_message, add_tlv}
use remote_backup_m.Shared.Platform.{Platform}
use remote_backup_m.Shared.Tools.{create_sign}
use remote_backup_m.Shared.Dir.{Dir, insert_or_assign}
use remote_backup_m.Shared.Chunks.{FMessage, open_f_message}
use remote_backup_m.Server.Handler.Remove.{file_of}
use remote_backup_m.Client.Resource.{indeterminate, CResource}

pub data Task (K : Type 0) : Type 0 where
  create update erase : K → Bytes → Task K

-- What is handed to the connection, with the arguments of the function that handles the reply.
pub data Body : Type 0 where
  file : FMessage → Body
  plain : Message → Body

pub record Posted (K : Type 0) : Type 0 where
  pub kind : MsgType
  pub relative_path : K
  pub sign : Bytes
  pub body : Body

unfoldable pub erase_request : Bytes → Message
erase_request sign =
    add_tlv (tlv_code TlvType.end) 0 []
      (add_tlv (tlv_code TlvType.item) (length sign) sign (new_message (msg_code MsgType.erase)))

module _ (P : Platform) where
  open P use {FsPath, Disk}

  pub record Client : Type 0 where
    pub dir : Dir FsPath CResource
    pub posted : List (Posted FsPath)
    pub disk : Disk

module _ (P : Platform) ⦃e : Eq P.FsPath⦄ where
  -- The entry of a file that waits for the server.
  abbrev pub pending : Bool → Bytes → CResource
  pending exist_on_server digest = record {
    synced = indeterminate;
    exist_on_server = exist_on_server;
    digest = digest;
  }

  abbrev pub enter : P.FsPath → CResource → Client P → Client P
  enter relative_path r c = record c { dir = (insert_or_assign relative_path r c.dir).0 }

  abbrev pub post : MsgType → P.FsPath → Bytes → Body → Client P → Client P
  post kind relative_path sign body c = record c {
    posted =
        c.posted
        ++ (record { kind = kind; relative_path = relative_path; sign = sign; body = body } ∷ []);
  }

  unfoldable pub post_file : MsgType → P.FsPath → Bytes → Client P → Outcome (Client P)
  post_file kind relative_path digest c = do
    let sign = create_sign P relative_path digest
    let bytes = file_of (P.read_file (P.join c.dir.path relative_path) c.disk)
    f ← open_f_message (msg_code kind) bytes sign
    ok (post kind relative_path sign (file f) c)

  unfoldable pub run_task : Task P.FsPath → Client P → Outcome (Client P)
  run_task (create relative_path digest) c =
      post_file MsgType.create relative_path digest (enter relative_path (pending false digest) c)
  run_task (update relative_path digest) c =
      post_file MsgType.update relative_path digest (enter relative_path (pending true digest) c)
  run_task (erase relative_path digest) c =
      let sign = create_sign P relative_path digest in
      ok (
        post MsgType.erase relative_path sign (plain (erase_request sign))
          (enter relative_path (pending true digest) c))
