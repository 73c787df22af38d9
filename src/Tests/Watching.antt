-- ===== src/Tests/Watching.antt =====
-- A client that watches a file that the server has.
use remote_backup_m.Prelude.{◌≡◌, refl, true, List, [], ◌∷◌, Bytes, ok, bytes_eq, bytes_beq}
use remote_backup_m.Shared.Dir.{Dir, find}
use remote_backup_m.Shared.Tools.{md5_file, md5_hash, md5_to_string}
use remote_backup_m.Server.Handler.Auth.{relative_to}
use remote_backup_m.Client.Resource.{yes, CResource}
use remote_backup_m.Client.Watcher.{walk_files, digests, file_digest, pass}
use remote_backup_m.Client.Watcher.Quiet.{Quiet, pass-Quiet}
use remote_backup_m.Tests.Toy.{Files, toy}

abbrev disk : Files
disk = (114 ∷ 47 ∷ 97 ∷ [], 7 ∷ []) ∷ []

abbrev listed : List (Bytes × Bytes)
listed = (47 ∷ 97 ∷ [], 47 ∷ 97 ∷ 7 ∷ []) ∷ []

abbrev watched : Dir Bytes CResource
watched = record {
  path = 114 ∷ [];
  content =
      (47 ∷ 97 ∷ [], record { synced = yes; exist_on_server = true; digest = 47 ∷ 97 ∷ 7 ∷ [] })
      ∷ [];
  concurrent_accessed = true;
}

disk-listed : walk_files toy (114 ∷ []) disk ≡ ok listed
unfolding walk_files digests file_digest relative_to md5_file md5_hash md5_to_string find bytes_beq
disk-listed = refl

pass-Quiet_example :
    ((pass toy watched disk ≡ ok []) → Quiet toy watched disk listed)
    × (Quiet toy watched disk listed → pass toy watched disk ≡ ok [])
pass-Quiet_example = pass-Quiet toy watched disk listed disk-listed
