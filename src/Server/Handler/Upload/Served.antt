-- ===== src/Server/Handler/Upload/Served.antt =====
-- What a chunk of an upload does to the entries of the user's directory.
use remote_backup_m.Prelude.{
  ◌≡◌, ◌⊎◌, inl, inr, refl, ap, ◌∙◌, Bool, true, false, Bytes, Outcome, ok, Post, Post-ok,
  Post-bind, Eq, bytes_eq, if◌then◌else◌, some, ◌>>=◌,
}
use remote_backup_m.Shared.Types.{ErrType}
use remote_backup_m.Shared.View.{View, verify_end}
use remote_backup_m.Shared.Platform.{Platform}
use remote_backup_m.Shared.Dir.{Dir, insert_or_assign}
use remote_backup_m.Shared.Dir.Entries.{NodupKeys, insert_or_assign_lem, beq_refl}
use remote_backup_m.Server.Resource.{SResource}
use remote_backup_m.Server.User.{dir}
use remote_backup_m.Server.Session.{Session, accept, refuse, with_dir}
use remote_backup_m.Server.Session.Frame.{accept-Same, refuse-Same}
use remote_backup_m.Server.Handler.Upload.{verify_upload, note_chunk}
use remote_backup_m.Server.Handler.Upload.Finish.{
  entry_of, Distinct, Finished, Touches, Touches-trans, same_user-Touches, insert-Touches, dir-some,
  verify_upload-Finished,
}

module _ (P : Platform) ⦃e : Eq P.FsPath⦄ where
  -- How a chunk was served. Refused: the user is as he was, and the reply is an error. Otherwise no
  -- entry but the file's own changed, and that depends on whether the chunk's message passes
  -- `verify_end`.
  pub data Served (v : View) (absolute_path relative_path : P.FsPath) (c_digest before : Bytes)
      (s s' : Session P) : Type 0 where
    refused :
        (err_type : ErrType) (t : Session P)
        → refuse P err_type t ≡ ok s'
        → s'.user ≡ s.user
        → Served v absolute_path relative_path c_digest before s s'
    continued :
        verify_end v ≡ ok false
        → Touches P relative_path s s'
        → (entry_of P relative_path s'.user.dir_ptr ≡ entry_of P relative_path s.user.dir_ptr)
          ⊎ (entry_of P relative_path s'.user.dir_ptr
              ≡ some (record { synced = false; digest = before }))
        → Served v absolute_path relative_path c_digest before s s'
    finished :
        verify_end v ≡ ok true
        → Touches P relative_path s s'
        → Finished P absolute_path relative_path c_digest s'
        → Served v absolute_path relative_path c_digest before s s'

  module _ (relative_path : P.FsPath) (c_digest before : Bytes) where
    -- The entry behind a chunk.
    pub record Noted (is_last : Bool) (s s' : Session P) : Type 0 where
      touches : Touches P relative_path s s'
      last :
          is_last ≡ true
          → entry_of P relative_path s'.user.dir_ptr
            ≡ some (record { synced = true; digest = c_digest })
      middle :
          is_last ≡ false
          → (entry_of P relative_path s'.user.dir_ptr ≡ entry_of P relative_path s.user.dir_ptr)
            ⊎ (entry_of P relative_path s'.user.dir_ptr
                ≡ some (record { synced = false; digest = before }))

    insert-entry :
        (r : SResource) (d : Dir P.FsPath SResource) (s : Session P)
        → NodupKeys d.content
        → entry_of P relative_path
            (with_dir P (insert_or_assign relative_path r d).0 s).user.dir_ptr
          ≡ some r
    insert-entry r d s u =
        (insert_or_assign_lem relative_path relative_path r d u).0 ∙ rw (beq_refl relative_path)

    note_chunk-Noted :
        (is_first is_last : Bool) (s : Session P)
        → Distinct P s.user.dir_ptr
        → Post (Noted is_last s) (note_chunk P is_first is_last relative_path c_digest before s)
    unfolding note_chunk
    note_chunk-Noted is_first is_last s u =
        Post-bind (dir s.user)
          λ d h. Post-ok (noted is_first is_last d (dir-some P s d h) (rw (dir-some P s d h) at u))
      where
        noted :
            (is_first is_last : Bool) (d : Dir P.FsPath SResource)
            → s.user.dir_ptr ≡ some d
            → NodupKeys d.content
            → Noted is_last s (
                if is_first
                then with_dir P
                    (insert_or_assign relative_path
                      (record { synced = is_last; digest = if is_last then c_digest else before })
                      d).0
                    s
                else if is_last
                then with_dir P
                    (insert_or_assign relative_path
                      (record { synced = true; digest = c_digest })
                      d).0
                    s
                else s)
        noted true true d h n = record {
          touches = insert-Touches P relative_path _ d s h n;
          last = λ _. insert-entry _ d s n;
          middle = λ b. cc;
        }
        noted true false d h n = record {
          touches = insert-Touches P relative_path _ d s h n;
          last = λ b. cc;
          middle = λ _. inr (insert-entry _ d s n);
        }
        noted false true d h n = record {
          touches = insert-Touches P relative_path _ d s h n;
          last = λ _. insert-entry _ d s n;
          middle = λ b. cc;
        }
        noted false false d h n = record {
          touches = same_user-Touches P relative_path s s u refl;
          last = λ b. cc;
          middle = λ _. inl refl;
        }

    module _ (absolute_path : P.FsPath) (v : View) where
      pub refuse-Served :
          (err_type : ErrType) (s t : Session P)
          → t.user ≡ s.user
          → Post (Served v absolute_path relative_path c_digest before s) (refuse P err_type t)
      refuse-Served err_type s t h = record {
        get = λ s' r. refused err_type t r (((refuse-Same P err_type t).get s' r).user ∙ h);
      }

      -- The end of a request behind the entry of its chunk.
      pub verify_upload-Served :
          (no_match failed : ErrType) (s noted closed : Session P)
          → verify_end v ≡ ok true
          → Noted true s noted
          → closed.user ≡ noted.user
          → Post
              (Served v absolute_path relative_path c_digest before s)
              (verify_upload P absolute_path relative_path c_digest no_match failed closed)
      verify_upload-Served no_match failed s noted closed l n h = record {
        get = λ s' r.
            let t = same_user-Touches P relative_path noted closed n.touches.distinct h in
            let entry = ap (λ u. entry_of P relative_path u.dir_ptr) h ∙ n.last refl in
            let (t', f) =
              (verify_upload-Finished P absolute_path relative_path c_digest no_match failed closed
                  t.distinct entry).get
                s' r in
            finished l
              (Touches-trans P relative_path s noted s' n.touches
                (Touches-trans P relative_path noted closed s' t t'))
              f;
      }

      continued-Served :
          (s noted s' : Session P)
          → verify_end v ≡ ok false
          → Noted false s noted
          → s'.user ≡ noted.user
          → Served v absolute_path relative_path c_digest before s s'
      continued-Served s noted s' l n same = elim (n.middle refl) [
        | inl a ↦ continued l t (inl (h ∙ a))
        | inr a ↦ continued l t (inr (h ∙ a))
      ]
        where
          h : entry_of P relative_path s'.user.dir_ptr ≡ entry_of P relative_path noted.user.dir_ptr
          h = ap (λ u. entry_of P relative_path u.dir_ptr) same

          t : Touches P relative_path s s'
          t =
              Touches-trans P relative_path s noted s' n.touches
                (same_user-Touches P relative_path noted s' n.touches.distinct same)

      Noted-stored :
          (is_last : Bool) (s stored noted : Session P)
          → stored.user ≡ s.user
          → Noted is_last stored noted
          → Noted is_last s noted
      Noted-stored is_last s stored noted h n = record {
        touches = record {
          distinct = n.touches.distinct;
          others = λ j m. n.touches.others j m ∙ ap (λ u. entry_of P j u.dir_ptr) h;
        };
        last = n.last;
        middle = λ b. middle (n.middle b);
      }
        where
          middle :
              (entry_of P relative_path noted.user.dir_ptr
                  ≡ entry_of P relative_path stored.user.dir_ptr)
                ⊎ (entry_of P relative_path noted.user.dir_ptr
                    ≡ some (record { synced = false; digest = before }))
              → (entry_of P relative_path noted.user.dir_ptr
                  ≡ entry_of P relative_path s.user.dir_ptr)
                ⊎ (entry_of P relative_path noted.user.dir_ptr
                    ≡ some (record { synced = false; digest = before }))
          middle (inl a) = inl (a ∙ ap (λ u. entry_of P relative_path u.dir_ptr) h)
          middle (inr a) = inr a

      -- A chunk is noted, and then the file is verified or the request accepted.
      pub note_chunk-Served :
          (is_first is_last : Bool) (s stored : Session P)
          (verified : Session P → Outcome (Session P))
          → Distinct P s.user.dir_ptr
          → stored.user ≡ s.user
          → verify_end v ≡ ok is_last
          → ((noted : Session P)
              → verify_end v ≡ ok true
              → Noted true s noted
              → Post (Served v absolute_path relative_path c_digest before s) (verified noted))
          → Post (Served v absolute_path relative_path c_digest before s) (
              note_chunk P is_first is_last relative_path c_digest before stored >>= λ noted.
              if is_last then verified noted else accept P noted)
      note_chunk-Served is_first true s stored verified u h l k =
          Post-bind (note_chunk P is_first true relative_path c_digest before stored) λ noted r.
            k noted l (
              Noted-stored true s stored noted h
                ((note_chunk-Noted is_first true stored (rw h u)).get noted r))
      note_chunk-Served is_first false s stored verified u h l k =
          Post-bind (note_chunk P is_first false relative_path c_digest before stored) λ noted r.
            record {
              get = λ s' a.
                  continued-Served s noted s' l
                    (Noted-stored false s stored noted h
                      ((note_chunk-Noted is_first false stored (rw h u)).get noted r))
                    ((accept-Same P noted).get s' a).user;
            }
