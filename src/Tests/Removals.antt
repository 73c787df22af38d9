-- ===== src/Tests/Removals.antt =====
-- Files erased on the toy platform.
use remote_backup_m.Prelude.{
  Bool, suc, ℕ, ◌<◌, ◌≡◌, refl, true, false, [], ◌∷◌, Bytes, length, ok, bytes_eq, bytes_beq, arith,
}
use remote_backup_m.Shared.Message.{new_message, size}
use remote_backup_m.Shared.Message
use remote_backup_m.Shared.Tools.{starts_with}
use remote_backup_m.Shared.Dir.{find, without, rsrc}
use remote_backup_m.Shared.Dir
use remote_backup_m.Server.User.{dir}
use remote_backup_m.Server.Queue.{new_queue, add_tlv, push_tlv, note_error}
use remote_backup_m.Server.Session.{Session, accept, close_response, error_text}
use remote_backup_m.Server.Handler.Remove.{remove_empty, erase_file}
use remote_backup_m.Server.Handler.Remove.Erased.{
  ParentsShorter, remove_empty-ends, Erases, erase_file-Erases,
}
use remote_backup_m.Server.Handler.Upload.Finish.{Distinct}
use remote_backup_m.Tests.Toy.{toy, Files, parent_of, has_slash}
use remote_backup_m.Tests.Uploads.{session}
use remote_backup_m.Tests.Runs.{replied}

length-pick :
    (b : Bool) (c n : ℕ) (p : Bytes)
    → (b ≡ true → length p < n)
    → length (elim b [ true ↦ c ∷ p | false ↦ [] ]) < suc n
length-pick true c n p h = omega (arith, h refl)
length-pick false c n p h = omega arith

parent_of-shorter : (c : ℕ) (cs : Bytes) → length (parent_of (c ∷ cs)) < length (c ∷ cs)
parent_of-shorter c [] = length-pick (has_slash []) c 0 [] (λ q. cc)
parent_of-shorter c (d ∷ cs) =
    length-pick (has_slash (d ∷ cs)) c (length (d ∷ cs)) (parent_of (d ∷ cs))
      (λ q. parent_of-shorter d cs)

toy-ParentsShorter : ParentsShorter toy
unfolding bytes_beq
toy-ParentsShorter [] disk h = absurd (ground arith)
toy-ParentsShorter (c ∷ cs) disk h = parent_of-shorter c cs

remove_empty-ends_example :
    (swept : Files) × (remove_empty toy 4 (114 ∷ []) false (114 ∷ 47 ∷ 100 ∷ []) [] ≡ ok swept)
remove_empty-ends_example =
    remove_empty-ends toy 4 (114 ∷ []) false (114 ∷ 47 ∷ 100 ∷ []) [] toy-ParentsShorter
      (omega arith)

abbrev full : Session toy
full =
    session ((114 ∷ 47 ∷ 97 ∷ [], 5 ∷ []) ∷ [])
      ((97 ∷ [], record { synced = true; digest = 120 ∷ [] }) ∷ [])

full-Distinct : Distinct toy full.user.dir_ptr
unfolding find
full-Distinct = (refl, tt)

abbrev emptied : Session toy
emptied = record (session [] []) { replies = replied 1 (1 ∷ 4 ∷ 0 ∷ 0 ∷ 3 ∷ 0 ∷ 0 ∷ []) 0 }

full-emptied : erase_file toy (97 ∷ []) (120 ∷ []) full ≡ ok emptied
unfolding erase_file remove_empty starts_with dir rsrc find without Dir.erase bytes_beq accept
    close_response error_text add_tlv push_tlv note_error new_queue new_message size Message.add_tlv
full-emptied = refl

erase_file-Erases_example : Erases toy (97 ∷ []) (120 ∷ []) full emptied
erase_file-Erases_example =
    erase_file-Erases toy (97 ∷ []) (120 ∷ []) full emptied full-Distinct full-emptied
