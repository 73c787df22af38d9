-- ===== src/Tests/Backups.antt =====
-- A client's file that is backed up, on the toy platform.
use remote_backup_m.Prelude.{refl, true, false, [], ◌∷◌, bytes_eq, bytes_beq, arith}
use remote_backup_m.Shared.Dir.{find}
use remote_backup_m.Shared.Tools.{create_sign, md5_hash, md5_to_string}
use remote_backup_m.Server.Queue.{new_queue}
use remote_backup_m.Server.Delivery.Chunk.{session}
use remote_backup_m.Client.Tasks.{Client}
use remote_backup_m.Backup.Created.{BackedUp, create-BackedUp}
use remote_backup_m.Tests.Toy.{toy}
use remote_backup_m.Tests.Posts
use remote_backup_m.Tests.Deliveries.{upload, content, uploads, unended}

abbrev owner : Client toy
owner = record {
  dir = record { path = 99 ∷ []; content = []; concurrent_accessed = true };
  posted = [];
  disk = (99 ∷ 47 ∷ 97 ∷ [], content) ∷ [];
}

create-BackedUp_example :
    BackedUp toy
      (114 ∷ [])
      (99 ∷ [])
      upload
      (λ s. (s, false))
      content
      owner
      Posts.idle
      []
      []
      (session toy upload [] [] [] (new_queue 0))
unfolding create_sign md5_hash md5_to_string find bytes_beq
create-BackedUp_example =
    create-BackedUp toy (114 ∷ []) (99 ∷ []) upload (λ s. (s, false)) content owner Posts.idle [] []
      [] [] [] (new_queue 0) refl tt uploads refl (omega arith) (omega arith)
      (record {
        tidy = record { entries = tt; users = tt; others = λ j h. refl };
        no_entry = refl;
        no_stream = refl;
        fresh = refl;
      })
      unended
