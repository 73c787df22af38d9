-- ===== src/Tests/Answers.antt =====
-- The client's side at concrete inputs.
use remote_backup_m.Prelude.{
  ◌++◌, ℕ, ◌≡◌, refl, true, false, List, [], ◌∷◌, Bytes, Option, some, none, ok, bytes_eq,
  bytes_beq, arith,
}
use remote_backup_m.Shared.Types.{MsgType, ErrType}
use remote_backup_m.Shared.Message.{Message, encode_all}
use remote_backup_m.Shared.Dir.{Dir, find, rsrc}
use remote_backup_m.Shared.Dir.Entries.{NodupKeys}
use remote_backup_m.Shared.Chunks.Transfer.{frames, header, concat, send_file}
use remote_backup_m.Client.Resource.{yes, no, indeterminate, CResource}
use remote_backup_m.Client.Replies.{handle_create, handle_update, handle_erase}
use remote_backup_m.Client.Replies.Closing.{
  Leaves, reply_closing, handle_create-Leaves, handle_update-Leaves, handle_erase-Leaves,
}
use remote_backup_m.Shared.Tools.{create_sign, split_sign}
use remote_backup_m.Client.Sync.Decided.{Decided, split_signs, sync_reply-Decided}
use remote_backup_m.Shared.Message.{Tlv}
use remote_backup_m.Client.Tasks.{
  Task, Client, run_task, post, enter, pending, plain, erase_request,
}
use remote_backup_m.Client.Watcher.Pending.{Waits, run_task-Waits}
use remote_backup_m.Tests.Toy.{toy}
use remote_backup_m.Client.Incoming.{read, lost}
use remote_backup_m.Client.Incoming.Joined.{item, arrivals, file_tlvs, read-frames}
use remote_backup_m.Client.Retrieve.Whole.{Retrieved, send_file-Retrieved}

abbrev pub waiting : CResource
waiting = record { synced = indeterminate; exist_on_server = false; digest = 120 ∷ [] }

abbrev pub watched : Dir Bytes CResource
watched = record { path = []; content = (97 ∷ [], waiting) ∷ []; concurrent_accessed = true }

pub watched-NodupKeys : NodupKeys watched.content
unfolding find
watched-NodupKeys = (refl, tt)

pub watched-entry : rsrc (97 ∷ []) watched ≡ some waiting
unfolding rsrc bytes_beq
watched-entry = refl

abbrev sign : Bytes
sign = 97 ∷ 0 ∷ 120 ∷ []

abbrev reply : ℕ → Option ErrType → Message
reply t closed = record { raw = t ∷ encode_all (item sign ∷ reply_closing closed) }

handle_create-Leaves_example :
    Leaves
      (97 ∷ [])
      sign
      none
      (reply 1 none)
      waiting
      watched
      (handle_create (97 ∷ []) sign (some (reply 1 none)) watched)
      (some (record waiting { synced = yes; exist_on_server = true }))
handle_create-Leaves_example =
    handle_create-Leaves (97 ∷ []) sign none (reply 1 none) waiting watched watched-NodupKeys
      watched-entry tt refl

handle_update-Leaves_example :
    Leaves
      (97 ∷ [])
      sign
      (some ErrType.update_failed)
      (reply 2 (some ErrType.update_failed))
      waiting
      watched
      (handle_update (97 ∷ []) sign (some (reply 2 (some ErrType.update_failed))) watched)
      (some (record waiting { synced = no }))
handle_update-Leaves_example =
    handle_update-Leaves (97 ∷ []) sign (some ErrType.update_failed)
      (reply 2 (some ErrType.update_failed)) waiting watched watched-NodupKeys watched-entry
      (omega arith) refl

handle_erase-Leaves_example :
    Leaves
      (97 ∷ [])
      sign
      none
      (reply 3 none)
      waiting
      watched
      (handle_erase (97 ∷ []) sign (some (reply 3 none)) watched)
      none
handle_erase-Leaves_example =
    handle_erase-Leaves (97 ∷ []) sign none (reply 3 none) waiting watched watched-NodupKeys
      watched-entry refl

read-frames_example :
    read (arrivals (frames (header 6 sign) ((7 ∷ []) ∷ (8 ∷ []) ∷ [])) ++ (lost ∷ []))
    ≡ ok (
      (yes, some (record { raw = 6 ∷ encode_all (file_tlvs sign ((7 ∷ []) ∷ (8 ∷ []) ∷ [])) })),
      lost ∷ [],
    )
read-frames_example = read-frames 6 sign ((7 ∷ []) ∷ (8 ∷ []) ∷ []) (lost ∷ []) (λ p. cc)

two_bytes-Retrieved :
    (sent : List Message) × (send_file 4 6 (some (7 ∷ 8 ∷ [])) sign ≡ ok sent)
    × (pieces : List Bytes) × (concat pieces ≡ 7 ∷ 8 ∷ [])
    × Retrieved sign sent pieces
two_bytes-Retrieved =
    send_file-Retrieved (7 ∷ 8 ∷ []) sign (omega arith) (omega arith) (omega arith)

abbrev idle : Client toy
idle = record { dir = watched; posted = []; disk = [] }

abbrev erasing : Client toy
erasing =
    post toy MsgType.erase (97 ∷ []) sign (plain (erase_request sign))
      (enter toy (97 ∷ []) (pending toy true (120 ∷ [])) idle)

idle-erasing : run_task toy (Task.erase (97 ∷ []) (120 ∷ [])) idle ≡ ok erasing
unfolding run_task create_sign
idle-erasing = refl

erasing-Waits : Waits toy (97 ∷ []) erasing
erasing-Waits =
    run_task-Waits toy (Task.erase (97 ∷ []) (120 ∷ [])) idle erasing watched-NodupKeys idle-erasing

-- The server lists "a" with the client's digest, and "b".
abbrev in_sync : Tlv
in_sync = record { tag = 2; value = sign }

abbrev server_only : Tlv
server_only = record { tag = 2; value = 98 ∷ 0 ∷ 121 ∷ [] }

abbrev list_reply : Message
list_reply = record {
  raw =
      4
      ∷ encode_all (
          in_sync
          ∷ server_only
          ∷ record { tag = 4; value = [] }
          ∷ record { tag = 3; value = [] }
          ∷ []);
}

abbrev listed : List (Bytes × Bytes)
listed = (97 ∷ [], 120 ∷ []) ∷ (98 ∷ [], 121 ∷ []) ∷ []

listed-NodupKeys : NodupKeys listed
unfolding find bytes_beq
listed-NodupKeys = (refl, (refl, tt))

listed-split : split_signs toy (sign ∷ server_only.value ∷ []) ≡ ok listed
unfolding split_sign
listed-split = refl

sync_reply-Decided_example : Decided toy (83 ∷ []) list_reply watched listed
sync_reply-Decided_example =
    sync_reply-Decided toy (83 ∷ []) watched listed listed-NodupKeys watched-NodupKeys list_reply
      in_sync (server_only ∷ record { tag = 4; value = [] } ∷ record { tag = 3; value = [] } ∷ [])
      refl (omega arith) listed-split
