-- ===== src/Tests/Restores.antt =====
-- A file of the server's that the client retrieves, on the toy platform.
use remote_backup_m.Prelude.{
  ◌≡◌, refl, ap, subst, sym, true, false, none, some, [], ◌∷◌, ◌++◌, Bytes, bytes_eq, bytes_beq,
  arith,
}
use remote_backup_m.Shared.Dir.{Dir, find, put}
use remote_backup_m.Shared.Tools.{md5_hash, md5_to_string, split_sign, match_and_parse}
use remote_backup_m.Server.Resource.{SResource}
use remote_backup_m.Server.Session.{Session}
use remote_backup_m.Server.Queue.{new_queue}
use remote_backup_m.Backup.Restored.{Truncates, Restored, retrieve-Restored}
use remote_backup_m.Tests.Toy.{toy, append_to}
use remote_backup_m.Tests.Toy
use remote_backup_m.Tests.Posts
use remote_backup_m.Tests.Deliveries.{content, uploader, find-put_same, append_to-some}

abbrev truncates : (path : Bytes) → Truncates toy path
truncates path = record {
  Fresh = λ d. find path d ≡ none;
  Written = λ s b d. (s ≡ path) × (find path d ≡ some b);
  absent = λ d h. rw (toy, h);
  dirs_fresh = λ d h. (d, refl, h);
  open_fresh = λ d h. (put path [] d, path, refl, (refl, find-put_same path [] d));
  good = λ s b d h. refl;
  write = λ s b chunk d h. (
    h.0,
    subst (λ p. find path (append_to p chunk d) ≡ some (b ++ chunk)) (sym h.0)
        (append_to-some path b chunk d h.1),
  );
  close = λ s b d h. ap Toy.read h.1;
}

abbrev sign : Bytes
sign = 97 ∷ 0 ∷ 97 ∷ 7 ∷ 8 ∷ []

abbrev listed : Dir Bytes SResource
listed = record {
  path = 114 ∷ [];
  content = (97 ∷ [], record { synced = true; digest = 97 ∷ 7 ∷ 8 ∷ [] }) ∷ [];
  concurrent_accessed = false;
}

abbrev serving : Session toy
serving = record {
  disk = (114 ∷ 47 ∷ 97 ∷ [], content) ∷ [];
  streams = [];
  user = record uploader { dir_ptr = some listed };
  replies = new_queue 0;
}

retrieve-Restored_example :
    Restored toy (114 ∷ []) (120 ∷ []) (99 ∷ []) (97 ∷ []) sign content serving Posts.idle [] [] []
unfolding md5_hash md5_to_string find bytes_beq split_sign match_and_parse
retrieve-Restored_example =
    retrieve-Restored toy (114 ∷ []) (120 ∷ []) content sign (97 ∷ 7 ∷ 8 ∷ []) (99 ∷ []) (97 ∷ [])
      listed serving Posts.idle [] [] [] (truncates (99 ∷ 47 ∷ 97 ∷ [])) refl refl refl refl refl
      refl (omega arith) (omega arith) (omega arith) refl
