-- ===== src/Tests/Wire.antt =====
-- Messages, views, signs and error codes at concrete inputs.
use remote_backup_m.Prelude.{
  ℕ, ◌≡◌, refl, true, false, not, ◌∷◌, [], Bytes, ok, err, some, undefined_behaviour, runtime_error,
  bytes_beq, arith, bytes_eq,
}
use remote_backup_m.Shared.Message.{Message, Tlv, new_message}
use remote_backup_m.Shared.View.{segments}
use remote_backup_m.Shared.View.Walk.{add_tlvs, segments-add_tlvs}
use remote_backup_m.Shared.View.Limits.{Shown, segments-Shown, segments-stub}
use remote_backup_m.Shared.Platform.{contents}
use remote_backup_m.Shared.Tools.{
  split_sign, create_sign, verify_password, sha512_hash, check_lines, lines,
}
use remote_backup_m.Shared.Tools.Sign.{split_sign-create_sign, split_sign-NoZero}
use remote_backup_m.Shared.Tools.Password.{Listed, verify_password-Listed, verify_password-last}
use remote_backup_m.Shared.Dir.{Dir, find, rsrc, insert_or_assign, erase, contains, is_some}
use remote_backup_m.Shared.Dir.Entries.{insert_or_assign_lem, erase_lem, NodupKeys}
use remote_backup_m.Tests.Toy.{toy, Files}
use remote_backup_m.Tests.Greedy.{toy-IsGreedy}

abbrev item : Tlv
item = record { tag = 2; value = 97 ∷ 0 ∷ 120 ∷ [] }

abbrev end : Tlv
end = record { tag = 3; value = [] }

segments-add_tlvs_example :
    segments (add_tlvs (item ∷ end ∷ []) (new_message 1)) ≡ ok (item ∷ end ∷ [])
segments-add_tlvs_example =
    segments-add_tlvs 1 (item ∷ end ∷ [])
      ((omega arith, omega arith), ((omega arith, omega arith), tt))

abbrev complete : Message
complete = record { raw = 1 ∷ 2 ∷ 0 ∷ 1 ∷ 7 ∷ 3 ∷ 0 ∷ 0 ∷ [] }

abbrev cut_off : Message
cut_off = record { raw = 1 ∷ 3 ∷ 0 ∷ 0 ∷ 2 ∷ [] }

segments-Shown_example : Shown complete
segments-Shown_example = segments-Shown complete 1 (2 ∷ 0 ∷ 1 ∷ 7 ∷ 3 ∷ 0 ∷ 0 ∷ []) refl (
  omega arith,
  (omega arith, (omega arith, (omega arith, (omega arith, (omega arith, (omega arith, tt)))))),
)

segments-stub_example : segments cut_off ≡ err undefined_behaviour
segments-stub_example = segments-stub cut_off 1 (end ∷ []) (2 ∷ []) refl (omega arith, omega arith)

split_sign-create_sign_example :
    split_sign toy (create_sign toy (97 ∷ 0 ∷ 98 ∷ []) (120 ∷ [])) ≡ ok (97 ∷ 0 ∷ 98 ∷ [], 120 ∷ [])
split_sign-create_sign_example =
    split_sign-create_sign toy (97 ∷ 0 ∷ 98 ∷ []) (120 ∷ []) toy-IsGreedy (omega arith, tt)

sign_without_zero : split_sign toy (97 ∷ 98 ∷ []) ≡ err runtime_error
sign_without_zero =
    split_sign-NoZero toy (97 ∷ 98 ∷ []) toy-IsGreedy (omega arith, (omega arith, tt))

-- "u\tp", the digest of a password "p" on the toy platform.
abbrev credentials : Bytes
credentials = 117 ∷ 9 ∷ 112 ∷ []

abbrev disk : Files
disk = (99 ∷ [], credentials) ∷ []

disk-credentials : toy.read_file (99 ∷ []) disk ≡ contents credentials
unfolding find bytes_beq
disk-credentials = refl

disk-accepts : verify_password toy (99 ∷ []) (117 ∷ []) (112 ∷ 120 ∷ []) disk ≡ ok true
unfolding verify_password find bytes_beq sha512_hash check_lines lines
disk-accepts = refl

verify_password-Listed_example : Listed (117 ∷ []) (112 ∷ []) (lines credentials)
verify_password-Listed_example =
    verify_password-Listed toy (99 ∷ []) (117 ∷ []) (112 ∷ []) 120 credentials disk disk-credentials
      disk-accepts

verify_password-last_example :
    verify_password toy (99 ∷ []) (117 ∷ []) (112 ∷ 120 ∷ []) []
    ≡ verify_password toy (99 ∷ []) (117 ∷ []) (112 ∷ 121 ∷ []) []
verify_password-last_example = verify_password-last toy (99 ∷ []) (117 ∷ []) (112 ∷ []) 120 121 []

abbrev one_entry : Dir Bytes ℕ
one_entry = record { path = []; content = (97 ∷ [], 7) ∷ []; concurrent_accessed = false }

one_entry-NodupKeys : NodupKeys one_entry.content
unfolding find
one_entry-NodupKeys = (refl, tt)

insert_or_assign_lem_example :
    (rsrc (97 ∷ []) (insert_or_assign (97 ∷ []) 8 one_entry).0 ≡ some 8)
    × ((insert_or_assign (97 ∷ []) 8 one_entry).1 ≡ not (contains (97 ∷ []) one_entry))
    × NodupKeys (insert_or_assign (97 ∷ []) 8 one_entry).0.content
unfolding bytes_beq
insert_or_assign_lem_example =
    insert_or_assign_lem (97 ∷ []) (97 ∷ []) 8 one_entry one_entry-NodupKeys

erase_lem_example :
    (rsrc (98 ∷ []) (erase (97 ∷ []) one_entry).0 ≡ rsrc (98 ∷ []) one_entry)
    × ((erase (97 ∷ []) one_entry).1 ≡ is_some (rsrc (97 ∷ []) one_entry))
    × NodupKeys (erase (97 ∷ []) one_entry).0.content
unfolding bytes_beq
erase_lem_example = erase_lem (97 ∷ []) (98 ∷ []) one_entry one_entry-NodupKeys
