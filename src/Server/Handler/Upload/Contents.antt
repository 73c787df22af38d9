-- ===== src/Server/Handler/Upload/Contents.antt =====
-- `handle_create` and `handle_update` from the look-up of the entry on: what one chunk does.
use remote_backup_m.Prelude.{
  ◌≡◌, ◌≢◌, ◌⊎◌, inl, inr, refl, ap, ◌∙◌, not, Bytes, Outcome, ok, Post, Post-ok, Post-err, Post-if,
  Post-bind, arith, Eq, ◌=?◌, bytes_eq, bytes_beq_iff, Option, none, some,
}
use remote_backup_m.Shared.Types.{ErrType}
use remote_backup_m.Shared.View.{View, value, verify_end}
use remote_backup_m.Shared.Platform.{Platform}
use remote_backup_m.Shared.Dir.{Dir, rsrc}
use remote_backup_m.Server.Resource.{SResource}
use remote_backup_m.Server.User.{dir}
use remote_backup_m.Server.Streams.{GetStream, get_stream}
use remote_backup_m.Server.Session.{Session, refuse}
use remote_backup_m.Server.Session.Frame.{refuse-Same}
use remote_backup_m.Server.Handler.Upload.{
  close_stream, create_write, create_stream, create_content, replace_file, update_write,
  update_stream, update_content, update_found, temp_digest, temp_suffix, is_synced,
}
use remote_backup_m.Server.Handler.Upload.Finish.{entry_of, Distinct, dir-some}
use remote_backup_m.Server.Handler.Upload.Served.{
  Served, refuse-Served, verify_upload-Served, note_chunk-Served,
}

module _ (P : Platform) ⦃e : Eq P.FsPath⦄ (relative_path : P.FsPath) (c_digest : Bytes)
    (v : View) where
  module _ (absolute_path : P.FsPath) where
    create_write-Served :
        (g : GetStream P) (s t : Session P)
        → Distinct P s.user.dir_ptr
        → t.user ≡ s.user
        → Post
            (Served P v absolute_path relative_path c_digest temp_digest s)
            (create_write P g absolute_path relative_path c_digest v t)
    unfolding create_write close_stream
    create_write-Served g s t u h = Post-bind (value v) λ chunk _.
        Post-bind (verify_end v) λ is_last l.
          note_chunk-Served P relative_path c_digest temp_digest absolute_path v g.inserted is_last
            s _ _ u h l
            λ noted l' n.
              verify_upload-Served P relative_path c_digest temp_digest absolute_path v
                ErrType.create_no_match ErrType.create_failed s noted _ l' n refl

    create_stream-Served :
        (s t : Session P)
        → Distinct P s.user.dir_ptr
        → t.user ≡ s.user
        → Post
            (Served P v absolute_path relative_path c_digest temp_digest s)
            (create_stream P absolute_path relative_path c_digest v t)
    unfolding create_stream
    create_stream-Served s t u h =
        split (get_stream P t.user.id absolute_path t.disk t.streams) refl
      where
        split :
            (r : Option (GetStream P))
            → get_stream P t.user.id absolute_path t.disk t.streams ≡ r
            → Post
                (Served P v absolute_path relative_path c_digest temp_digest s)
                (create_stream P absolute_path relative_path c_digest v t)
        split none q =
            rw (q, create_stream)
              (refuse-Served P relative_path c_digest temp_digest absolute_path v
                ErrType.create_failed s t h)
        split (some g) q =
            rw (q, create_stream)
              (Post-if (not (P.good g.stream))
                (λ _.
                  refuse-Served P relative_path c_digest temp_digest absolute_path v
                    ErrType.create_failed s _ h)
                (λ _. create_write-Served g s t u h))

  -- The directory of the user, and what was done to it.
  abbrev pub InDir : Bytes → Session P → Session P → Type 0
  InDir before s s' =
      (d : Dir P.FsPath SResource) × (s.user.dir_ptr ≡ some d)
      × Served P v (P.join d.path relative_path) relative_path c_digest before s s'

  in_dir :
      (before : Bytes) (d : Dir P.FsPath SResource) (s : Session P) (r : Outcome (Session P))
      → dir s.user ≡ ok d
      → Post (Served P v (P.join d.path relative_path) relative_path c_digest before s) r
      → Post (InDir before s) r
  in_dir before d s r h post = record { get = λ s' k. (d, dir-some P s d h, post.get s' k) }

  create_content-Post :
      (s : Session P)
      → Distinct P s.user.dir_ptr
      → Post (InDir temp_digest s) (create_content P relative_path c_digest v s)
  unfolding create_content
  create_content-Post s u = Post-bind (dir s.user) λ d h.
      let p : P.FsPath = P.join d.path relative_path in
      let k = P.create_directories (P.parent_path p) s.disk in
      in_dir temp_digest d s _ h (
        Post-if (is_synced P (rsrc relative_path d))
          (λ _.
            refuse-Served P relative_path c_digest temp_digest p v ErrType.create_already_exist s s
              refl)
          (λ _.
            Post-if k.1
              (λ _.
                refuse-Served P relative_path c_digest temp_digest p v ErrType.create_failed s _
                  refl)
              (λ _. create_stream-Served p s _ u refl)))

  -- A CREATE with content, on a user's directory in which no path has two entries, that gets a reply is
  -- refused with an error and leaves the user as he is, or changes at most the entry of its own path.
  -- If its message does not pass `verify_end`, that entry stays or becomes one that is not synced. If
  -- it does, the entry is synced with the digest of the request and the stored file has that digest,
  -- or there is no entry any more.
  pub create_content-Served :
      (s s' : Session P)
      → Distinct P s.user.dir_ptr
      → create_content P relative_path c_digest v s ≡ ok s'
      → InDir temp_digest s s'
  create_content-Served s s' u served = (create_content-Post s u).get s' served

  module _ (absolute_path : P.FsPath) (before : Bytes) where
    replace_file-user :
        (temp_path : P.FsPath) (s : Session P)
        → Post (λ s'. s'.user ≡ s.user) (replace_file P temp_path absolute_path s)
    unfolding replace_file
    replace_file-user temp_path s =
        let r = P.remove absolute_path s.disk in
        Post-if r.1 (λ _. Post-err)
          (λ _.
            Post-if (P.rename temp_path absolute_path r.0).1 (λ _. Post-err) (λ _. Post-ok refl))

    update_write-Served :
        (g : GetStream P) (temp_path : P.FsPath) (s t : Session P)
        → Distinct P s.user.dir_ptr
        → t.user ≡ s.user
        → Post
            (Served P v absolute_path relative_path c_digest before s)
            (update_write P g temp_path absolute_path relative_path c_digest before v t)
    unfolding update_write close_stream
    update_write-Served g temp_path s t u h = Post-bind (value v) λ chunk _.
        Post-bind (verify_end v) λ is_last l.
          note_chunk-Served P relative_path c_digest before absolute_path v g.inserted is_last s _ _
            u h l
            λ noted l' n. Post-bind (replace_file P temp_path absolute_path _) λ replaced r.
              verify_upload-Served P relative_path c_digest before absolute_path v
                ErrType.update_no_match ErrType.update_failed s noted replaced l' n
                ((replace_file-user temp_path _).get replaced r)

    update_stream-Served :
        (temp_path : P.FsPath) (s : Session P)
        → Distinct P s.user.dir_ptr
        → Post
            (Served P v absolute_path relative_path c_digest before s)
            (update_stream P temp_path absolute_path relative_path c_digest before v s)
    unfolding update_stream
    update_stream-Served temp_path s u =
        split (get_stream P s.user.id temp_path s.disk s.streams) refl
      where
        split :
            (r : Option (GetStream P))
            → get_stream P s.user.id temp_path s.disk s.streams ≡ r
            → Post
                (Served P v absolute_path relative_path c_digest before s)
                (update_stream P temp_path absolute_path relative_path c_digest before v s)
        split none q =
            rw (q, update_stream)
              (refuse-Served P relative_path c_digest before absolute_path v ErrType.update_failed s
                s refl)
        split (some g) q =
            rw (q, update_stream)
              (Post-if (not (P.good g.stream))
                (λ _.
                  refuse-Served P relative_path c_digest before absolute_path v
                    ErrType.update_failed s _ refl)
                (λ _. update_write-Served g temp_path s s u refl))

  -- An update was refused, or it changed the file that had this entry.
  abbrev pub Updates : Session P → Session P → Type 0
  Updates s s' =
      ((err_type : ErrType) × (refuse P err_type s ≡ ok s') × (s'.user ≡ s.user))
      ⊎ ((r : SResource) × (entry_of P relative_path s.user.dir_ptr ≡ some r)
          × (r.digest ≢ c_digest)
          × InDir r.digest s s')

  refuse-Updates : (err_type : ErrType) (s : Session P) → Post (Updates s) (refuse P err_type s)
  refuse-Updates err_type s = record {
    get = λ s' k. inl (err_type, k, ((refuse-Same P err_type s).get s' k).user);
  }

  update_found-Updates :
      (d : Dir P.FsPath SResource) (r : Option SResource) (s : Session P)
      → Distinct P s.user.dir_ptr
      → dir s.user ≡ ok d
      → rsrc relative_path d ≡ r
      → Post (Updates s) (update_found P relative_path c_digest v d r s)
  unfolding update_found
  update_found-Updates d none s u h q = refuse-Updates ErrType.update_not_exist s
  update_found-Updates d (some r) s u h q =
      Post-if (r.digest =? c_digest) (λ _. refuse-Updates ErrType.update_already_updated s)
        (λ n. record {
          get = λ s' k. inr (
            r,
            ap (entry_of P relative_path) (dir-some P s d h) ∙ q,
            ground (arith, bytes_beq_iff r.digest c_digest),
            ((in_dir r.digest d s _ h (
                  update_stream-Served (P.join d.path relative_path) r.digest
                    (P.append_text (P.join d.path relative_path) temp_suffix) s u)).get
                s' k),
          );
        })

  update_content-Post :
      (s : Session P)
      → Distinct P s.user.dir_ptr
      → Post (Updates s) (update_content P relative_path c_digest v s)
  unfolding update_content
  update_content-Post s u =
      Post-bind (dir s.user) λ d h. update_found-Updates d (rsrc relative_path d) s u h refl

  -- An UPDATE with content, on a user's directory in which no path has two entries, that gets a reply
  -- is refused with an error and leaves the user as he is, or its path had an entry with another digest
  -- and at most that entry changes. If the message does not pass `verify_end`, the entry stays or is
  -- marked as not synced with the digest that it had. If it does, the entry is synced with the digest
  -- of the request and the stored file has that digest, or there is no entry any more.
  pub update_content-Updates :
      (s s' : Session P)
      → Distinct P s.user.dir_ptr
      → update_content P relative_path c_digest v s ≡ ok s'
      → Updates s s'
  update_content-Updates s s' u served = (update_content-Post s u).get s' served
