-- ===== src/Server/Handler/Moves.antt =====
-- What a handler can do to a session: the relation of the changes that it makes, one after the other.
pub mod Files
pub mod Changes
pub mod Any
use remote_backup_m.Prelude.{
  ℕ, ◌≡◌, refl, ◌∙◌, Bool, true, false, not, List, [], ◌∷◌, Bytes, length, Option, none, some,
  Outcome, ok, err, ◌>>=◌, ◌==◌, ◌=?◌, bytes_eq, length_error, if◌then◌else◌, Eq, Post, Post-ok,
  Post-err, Post-if, Post-bind, Post-bind-on,
}
use remote_backup_m.Shared.Types.{MsgType, msg_code, TlvType, tlv_code, ErrType}
use remote_backup_m.Shared.View.{View, tlv_type, value, next_is}
use remote_backup_m.Shared.Platform.{Platform}
use remote_backup_m.Shared.Tools.{
  Digest, hashed, too_long, filesystem_error, md5_file, verify_password, create_sign,
}
use remote_backup_m.Shared.Dir.{Dir, find, put, clear, insert_or_assign}
use remote_backup_m.Server.User.{dir}
use remote_backup_m.Server.Resource.{SResource}
use remote_backup_m.Server.Streams.{erase_stream}
use remote_backup_m.Server.Queue.{Queue, new_queue, add_tlv}
use remote_backup_m.Server.Session.{
  Session, close_response, close, accept, refuse, reply_tlv, with_dir,
}
use remote_backup_m.Server.Handler.Auth.{
  handle_auth, check_password, authenticated, handle_list, list_files, list_file, finish_list,
  relative_to, ListEnd, listed, repeated, raised,
}

module _ (P : Platform) where
  -- Replies, files, the user's directory, the user's stream, the mark that he has listed his files, and
  -- his identity.
  pub data Moves (s : Session P) : Session P → Type 0 where
    stays : Moves s s
    replies : (t : Session P) (q : Queue) → Moves s t → Moves s (record t { replies = q })
    files : (t : Session P) (disk : P.Disk) → Moves s t → Moves s (record t { disk = disk })
    directory : (t : Session P) (d : Dir P.FsPath SResource) → Moves s t → Moves s (with_dir P d t)
    opens :
        (t : Session P) (stream : P.Stream)
        → Moves s t
        → Moves s (record t { streams = put t.user.id stream t.streams })
    closes :
        (t : Session P)
        → Moves s t
        → Moves s (record t { streams = erase_stream P t.user.id t.streams })
    lists :
        (t : Session P) → Moves s t → Moves s (record t { user = record t.user { synced = true } })

  -- A call that goes on from `t`.
  pub Moves-close :
      (s t : Session P) (tlv : TlvType) (e : ErrType) → Moves s t → Post (Moves s) (close P tlv e t)
  unfolding close
  Moves-close s t tlv e m =
      Post-bind (close_response P tlv e t.replies) λ q _. Post-ok (replies t q m)

  pub Moves-accept : (s t : Session P) → Moves s t → Post (Moves s) (accept P t)
  unfolding accept
  Moves-accept s t m = Moves-close s t TlvType.ok ErrType.none m

  pub Moves-refuse : (s t : Session P) (e : ErrType) → Moves s t → Post (Moves s) (refuse P e t)
  unfolding refuse
  Moves-refuse s t e m = Moves-close s t TlvType.error e m

  pub Moves-reply_tlv :
      (s t : Session P) (tlv : TlvType) (text : Bytes)
      → Moves s t
      → Post (Moves s) (reply_tlv P tlv text t)
  unfolding reply_tlv
  Moves-reply_tlv s t tlv text m =
      Post-bind (add_tlv (tlv_code tlv) (length text) text t.replies) λ q _. Post-ok (replies t q m)

module _ (P : Platform) ⦃e : Eq P.FsPath⦄ where
  abbrev EndMoves : Session P → ListEnd P → Type 0
  EndMoves s (listed t) = Moves P s t
  EndMoves s (repeated t) = Moves P s t
  EndMoves s (raised t) = Moves P s t

  finish_list-Moves :
      (s : Session P) (r : ListEnd P) → EndMoves s r → Post (Moves P s) (finish_list P r)
  unfolding finish_list
  finish_list-Moves s (listed t) m = Moves-accept P s _ (lists t m)
  finish_list-Moves s (repeated t) m =
      Post-bind (dir t.user) λ d _. Moves-refuse P s _ ErrType.list_failed (directory t (clear d) m)
  finish_list-Moves s (raised t) m = Post-bind (dir t.user) λ d _.
      Moves-refuse P s _ ErrType.list_failed (
        replies (with_dir P (clear d) t) (new_queue (msg_code MsgType.list))
          (directory t (clear d) m))

  list_file-Moves :
      (s t : Session P) (relative_path : P.FsPath) (digest : Bytes)
      → Moves P s t
      → Post (λ r. Moves P s r.0) (list_file P relative_path digest t)
  unfolding list_file
  list_file-Moves s t relative_path digest m = Post-bind (dir t.user) λ d _.
      let r = insert_or_assign relative_path (record { synced = true; digest = digest }) d in
      Post-if (not r.1) (λ _. Post-ok (directory t r.0 m))
        (λ _.
          Post-bind-on
            (Moves-reply_tlv P s (with_dir P r.0 t) TlvType.item
              (create_sign P relative_path digest) (directory t r.0 m))
            λ t' m'. Post-ok m')

  list_files-Moves :
      (n : ℕ) (fails : Bool) (found : List P.FsPath) (s t : Session P)
      → Moves P s t
      → Post (EndMoves s) (list_files P n fails found t)
  unfolding list_files
  list_files-Moves n true [] s t m = Post-ok m
  list_files-Moves n false [] s t m = Post-ok m
  list_files-Moves n fails (absolute_path ∷ rest) s t m =
      Post-bind (relative_to P n absolute_path) λ relative_path _.
        split relative_path (md5_file P absolute_path relative_path t.disk)
          (list_files-Moves n fails rest)
    where
      split :
          (relative_path : P.FsPath) (r : Digest)
          → ((s t : Session P) → Moves P s t → Post (EndMoves s) (list_files P n fails rest t))
          → Post (EndMoves s) (elim r [
            | too_long ↦ err length_error
            | filesystem_error ↦ ok (raised t)
            | hashed file_digest ↦
                (list_file P relative_path file_digest t >>= λ r.
                if r.1 then list_files P n fails rest r.0 else ok (repeated r.0))
          ])
      split relative_path too_long ih = Post-err
      split relative_path filesystem_error ih = Post-ok m
      split relative_path (hashed digest) ih =
          Post-bind-on (list_file-Moves s t relative_path digest m)
            λ r m'. Post-if r.1 (λ _. ih s r.0 m') (λ _. Post-ok m')

  pub handle_list-Moves : (s t : Session P) → Moves P s t → Post (Moves P s) (handle_list P t)
  unfolding handle_list
  handle_list-Moves s t m = Post-bind (dir t.user) λ d _.
      let files = P.regular_files d.path t.disk in
      Post-bind-on (list_files-Moves (length (P.string d.path)) files.1 files.0 s t m)
        λ r m'. finish_list-Moves s r m'
