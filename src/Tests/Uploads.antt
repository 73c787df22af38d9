-- ===== src/Tests/Uploads.antt =====
-- Uploads on the toy platform.
use remote_backup_m.Prelude.{
  ◌≡◌, refl, true, false, List, [], ◌∷◌, Bytes, some, ok, bytes_eq, bytes_beq,
}
use remote_backup_m.Shared.Message.{Message, new_message, size}
use remote_backup_m.Shared.Message
use remote_backup_m.Shared.View.{View, value, verify_end}
use remote_backup_m.Shared.Dir.{find, put, without, rsrc, insert_or_assign}
use remote_backup_m.Shared.Tools.{md5_file, md5_hash}
use remote_backup_m.Server.Resource.{SResource}
use remote_backup_m.Server.User.{dir}
use remote_backup_m.Server.Streams.{get_stream, erase_stream}
use remote_backup_m.Server.Queue.{new_queue, add_tlv, push_tlv, note_error}
use remote_backup_m.Server.Session.{Session, accept, close_response, error_text}
use remote_backup_m.Server.Handler.Upload.{
  create_content, create_stream, create_write, update_content, update_found, update_stream,
  update_write, note_chunk, close_stream, verify_upload, replace_file, temp_digest,
}
use remote_backup_m.Server.Handler.Upload.Finish.{Distinct}
use remote_backup_m.Server.Handler.Upload.Contents.{
  InDir, create_content-Served, Updates, update_content-Updates,
}
use remote_backup_m.Tests.Toy.{toy, Files}
use remote_backup_m.Tests.Runs.{replied}

-- The view on the content "xy" of a message that ends with END.
abbrev content_view : View
content_view = record {
  tag = 6;
  len = 2;
  raw = 1 ∷ 2 ∷ 0 ∷ 1 ∷ 97 ∷ 6 ∷ 0 ∷ 2 ∷ 120 ∷ 121 ∷ 3 ∷ 0 ∷ 0 ∷ [];
  data_begin = 8;
  data_end = 10;
  valid = true;
  finished = false;
}

abbrev pub session : Files → List (Bytes × SResource) → Session toy
session files entries = record {
  disk = files;
  streams = [];
  user = record {
    id = 117 ∷ [];
    username = 117 ∷ [];
    ip = [];
    auth = true;
    synced = true;
    dir_ptr = some (record { path = 114 ∷ []; content = entries; concurrent_accessed = false });
  };
  replies = new_queue 1;
}

-- The file "a" in the directory "r", with the content "xy".
abbrev stored : Session toy
stored =
    record (session ((114 ∷ 47 ∷ 97 ∷ [], 120 ∷ 121 ∷ []) ∷ [])
      ((97 ∷ [], record { synced = true; digest = 97 ∷ 120 ∷ 121 ∷ [] }) ∷ [])) {
        replies = replied 1 (1 ∷ 4 ∷ 0 ∷ 0 ∷ 3 ∷ 0 ∷ 0 ∷ []) 0;
      }

create-stored :
    create_content toy (97 ∷ []) (97 ∷ 120 ∷ 121 ∷ []) content_view (session [] []) ≡ ok stored
unfolding create_content create_stream create_write note_chunk close_stream verify_upload dir rsrc
    find put without insert_or_assign get_stream erase_stream value verify_end md5_file md5_hash
    bytes_beq accept close_response error_text add_tlv push_tlv note_error new_queue new_message
    size Message.add_tlv
create-stored = refl

create_content-Served_example :
    InDir toy (97 ∷ []) (97 ∷ 120 ∷ 121 ∷ []) content_view temp_digest (session [] []) stored
create_content-Served_example =
    create_content-Served toy (97 ∷ []) (97 ∷ 120 ∷ 121 ∷ []) content_view (session [] []) stored tt
      create-stored

abbrev old : Session toy
old =
    session ((114 ∷ 47 ∷ 97 ∷ [], 5 ∷ []) ∷ [])
      ((97 ∷ [], record { synced = true; digest = 97 ∷ 5 ∷ [] }) ∷ [])

old-Distinct : Distinct toy old.user.dir_ptr
unfolding find
old-Distinct = (refl, tt)

update-stored : update_content toy (97 ∷ []) (97 ∷ 120 ∷ 121 ∷ []) content_view old ≡ ok stored
unfolding update_content update_found update_stream update_write replace_file note_chunk
    close_stream verify_upload dir rsrc find put without insert_or_assign get_stream erase_stream
    value verify_end md5_file md5_hash bytes_beq accept close_response error_text add_tlv push_tlv
    note_error new_queue new_message size Message.add_tlv
update-stored = refl

update_content-Updates_example : Updates toy (97 ∷ []) (97 ∷ 120 ∷ 121 ∷ []) content_view old stored
update_content-Updates_example =
    update_content-Updates toy (97 ∷ []) (97 ∷ 120 ∷ 121 ∷ []) content_view old stored old-Distinct
      update-stored
