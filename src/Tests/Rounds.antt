-- ===== src/Tests/Rounds.antt =====
-- A client that erases a file on the server, and gets no reply.
use remote_backup_m.Prelude.{
  ◌≡◌, refl, ap, true, false, List, [], ◌∷◌, ◌++◌, Bytes, Option, none, some, drop-append, ok,
  bytes_eq, bytes_beq, arith,
}
use remote_backup_m.Shared.Platform.{Platform}
use remote_backup_m.Shared.Dir.{
  is_some, find, put, rsrc, contains, for_each, insert_or_assign, get_instance,
}
use remote_backup_m.Client.Resource.{yes}
use remote_backup_m.Client.Tasks.{
  Task, Client, Posted, Body, enter, pending, post, erase_request, run_task,
}
use remote_backup_m.Client.Watcher.{pass, walk_files, digests, missing, check_missing}
use remote_backup_m.Client.Replies.{unsynced, handle_erase, found}
use remote_backup_m.Shared.Types.{MsgType}
use remote_backup_m.Shared.Tools.{create_sign, split_sign, match_and_parse}
use remote_backup_m.Client.Rounds.{Lists, run_tasks, reply_to, start, next, synced, passed, replied}
use remote_backup_m.Client.Sync.{
  SyncState, listed_resource, sync_reply, listed_signs, list_view, items_from, sync_items,
  sync_item, compare_entry, create_missing,
}
use remote_backup_m.Shared.Message.{Message, encode_all, msg_type}
use remote_backup_m.Shared.View.{view_of, next_tlv, tlv_type, value}
use remote_backup_m.Client.Rounds.Walked.{Listed}
use remote_backup_m.Client.Rounds.Tracked.{Tracked, rounds-Tracked}
use remote_backup_m.Tests.Toy.{Files, toy}

-- A path is appended to a directory's as it is, and a directory has one file at most, "/a".
abbrev file : Bytes → Bytes
file root = root ++ (47 ∷ 97 ∷ [])

abbrev one_file : Bytes → Option Bytes → List Bytes
one_file root none = []
one_file root (some bytes) = file root ∷ []

abbrev plain : Platform
plain = record toy {
  join = λ p q. p ++ q;
  regular_files = λ root disk. (one_file root (find (file root) disk), false);
}

plain-Listed :
    (root : Bytes) (disk : Files) → Listed plain root disk (plain.regular_files root disk).0
plain-Listed root disk = within (find (file root) disk) refl
  where
    within :
        (o : Option Bytes) → find (file root) disk ≡ o → Listed plain root disk (one_file root o)
    within none h = tt
    within (some bytes) h =
        (ap is_some h, ap (λ x. root ++ x) (drop-append root (47 ∷ 97 ∷ [])), tt, tt)

abbrev watched : Client plain
watched = record {
  dir = record {
    path = 114 ∷ [];
    content =
        (47 ∷ 98 ∷ [], record { synced = yes; exist_on_server = true; digest = 120 ∷ [] }) ∷ [];
    concurrent_accessed = true;
  };
  posted = [];
  disk = [];
}

abbrev sign : Bytes
sign = 47 ∷ 98 ∷ 0 ∷ 120 ∷ []

abbrev gone : List (Task Bytes)
gone = Task.erase (47 ∷ 98 ∷ []) (120 ∷ []) ∷ []

-- The request waits for its reply.
abbrev asked : Client plain
asked =
    enter plain (47 ∷ 98 ∷ []) (pending plain true (120 ∷ []))
      (post plain MsgType.erase (47 ∷ 98 ∷ []) sign (Body.plain (erase_request sign)) watched)

abbrev request : Posted Bytes
request = record {
  kind = MsgType.erase;
  relative_path = 47 ∷ 98 ∷ [];
  sign = sign;
  body = Body.plain (erase_request sign);
}

abbrev unanswered : Client plain
unanswered = record asked {
  dir = unsynced (47 ∷ 98 ∷ []) (pending plain true (120 ∷ [])) asked.dir;
  posted = [];
}

-- The server has "/b" with this digest.
abbrev listed : Message
listed = record {
  raw =
      4
      ∷ encode_all (
          record { tag = 2; value = sign }
          ∷ record { tag = 4; value = [] }
          ∷ record { tag = 3; value = [] }
          ∷ []);
}

listed-Lists : Lists plain listed
unfolding split_sign match_and_parse find
listed-Lists = record {
  head = record { tag = 2; value = sign };
  rest = record { tag = 4; value = [] } ∷ record { tag = 3; value = [] } ∷ [];
  files = (47 ∷ 98 ∷ [], 120 ∷ []) ∷ [];
  written = refl;
  no_error = omega arith;
  split = refl;
  once = (refl, tt);
}

abbrev compared : SyncState plain
compared = record {
  dir = watched.dir;
  s_dir = record {
    path = 83 ∷ [];
    content = (47 ∷ 98 ∷ [], listed_resource plain (120 ∷ [])) ∷ [];
    concurrent_accessed = false;
  };
  tasks = [];
}

listed-compared : sync_reply plain (83 ∷ []) listed watched.dir ≡ ok compared
unfolding sync_reply listed_signs list_view items_from sync_items sync_item compare_entry
    create_missing msg_type view_of next_tlv tlv_type value split_sign match_and_parse rsrc contains
    insert_or_assign for_each get_instance find put bytes_beq
listed-compared = refl

compared-watched : run_tasks plain [] watched ≡ ok watched
unfolding run_tasks
compared-watched = refl

watched-gone : pass plain watched.dir watched.disk ≡ ok gone
unfolding pass walk_files digests missing for_each check_missing find bytes_beq
watched-gone = refl

gone-asked : run_tasks plain gone watched ≡ ok asked
unfolding run_tasks run_task create_sign insert_or_assign
gone-asked = refl

asked-unanswered : reply_to plain MsgType.erase request none asked.dir ≡ ok unanswered.dir
unfolding handle_erase found rsrc find insert_or_assign put bytes_beq
asked-unanswered = refl

rounds-Tracked_example : Tracked plain unanswered
unfolding find
rounds-Tracked_example =
    rounds-Tracked plain plain-Listed watched unanswered refl (refl, tt)
      (next asked unanswered
        (next watched asked
          (next watched watched start (
            synced (83 ∷ []) listed compared watched refl listed-Lists listed-compared
              compared-watched))
          (passed gone asked watched-gone gone-asked))
        (replied [] [] request none unanswered.dir refl asked-unanswered))
