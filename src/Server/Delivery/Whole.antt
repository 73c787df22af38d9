-- ===== src/Server/Delivery/Whole.antt =====
-- A file that the client sends for a CREATE is stored by the server.
use remote_backup_m.Prelude.{
  ◌+◌, ◌^◌, ◌<◌, ◌≡◌, ◌≢◌, refl, sym, ap, ◌∙◌, subst, false, List, [], ◌∷◌, ◌++◌, append_assoc,
  append-nil, Bytes, length, some, ok, Eq,
}
use remote_backup_m.Shared.Message.{Message}
use remote_backup_m.Shared.View.{view_of, verify_end}
use remote_backup_m.Shared.Platform.{Platform}
use remote_backup_m.Shared.Tools.{create_sign, md5_hash}
use remote_backup_m.Shared.Chunks.Step.{last_frame}
use remote_backup_m.Shared.Chunks.Transfer.{frames, header, concat, Fits, send_file, send_file-Fits}
use remote_backup_m.Server.Resource.{SResource}
use remote_backup_m.Server.Streams.{Streams}
use remote_backup_m.Server.Queue.{Queue}
use remote_backup_m.Server.Delivery.{serve_all}
use remote_backup_m.Server.Delivery.Middle.{Untouched-Continues, Going-Continues}
use remote_backup_m.Server.Delivery.Last.{Completes, Untouched-Completes, Going-Completes}
use remote_backup_m.Server.Delivery.Chunk.{Upload, Untouched, Going}
use remote_backup_m.Server.Delivery.Request.{content_view}
use remote_backup_m.Server.Delivery.Served.{
  Uploads, sign, at, begun, H, last_served, middle_served, shown_last, shown_middle, ends_last,
  ends_middle, Delivered,
}

-- No message before the last one passes `verify_end`.
abbrev pub Unended : List Message → Type 0
Unended [] = Unit {0}
Unended (m ∷ ms) = (ms ≢ [] → verify_end (view_of m) ≡ ok false) × Unended ms

pub frames-some : (H p : Bytes) (ps : List Bytes) → frames H (p ∷ ps) ≢ []
frames-some H p [] e = cc
frames-some H p (q ∷ ps) e = cc

module _ (P : Platform) ⦃e : Eq P.FsPath⦄ (backup_root credentials : P.FsPath) (U : Upload P) where
  open U use {u, rel, digest}

  Going-Delivered :
      (b : Uploads P u rel digest) (p : Bytes) (ps : List Bytes) (c : List (P.FsPath × SResource))
      (streams : Streams P) (disk : P.Disk) (q : Queue) (bytes content : Bytes)
      → Going P U c streams disk bytes
      → bytes ++ concat (p ∷ ps) ≡ content
      → digest ≡ md5_hash P (P.string rel ++ content)
      → Unended (frames (H P backup_root credentials U) (p ∷ ps))
      → Delivered P backup_root credentials U content
          (frames (H P backup_root credentials U) (p ∷ ps))
          (serve_all P backup_root credentials
            (frames (H P backup_root credentials U) (p ∷ ps))
            (at P backup_root credentials U c streams disk q))
  Going-Delivered b p [] c streams disk q bytes content g w same n =
      let w' : bytes ++ p ≡ content = ap (λ x. bytes ++ x) (sym (append-nil p)) ∙ w in
      last_served P backup_root credentials U b c streams disk q content p (
        subst
          (λ x.
            Completes P U c streams disk x
              (content_view (last_frame (H P backup_root credentials U) p)
                (sign P backup_root credentials U) p)
              (begun P backup_root credentials U))
          w'
          (Going-Completes P U c streams disk bytes p _ (begun P backup_root credentials U) g
            (shown_last P backup_root credentials U p) (ends_last P backup_root credentials U p)
            (same ∙ ap (λ x. md5_hash P (P.string rel ++ x)) (sym w'))))
  Going-Delivered b p (p' ∷ ps) c streams disk q bytes content g w same n =
      middle_served P backup_root credentials U b c streams disk q (bytes ++ p) content p
        (frames (H P backup_root credentials U) (p' ∷ ps))
        (Going-Continues P U c streams disk bytes p _ (begun P backup_root credentials U) g
          (shown_middle P backup_root credentials U p)
          (ends_middle P backup_root credentials U p
            (n.0 (frames-some (H P backup_root credentials U) p' ps))))
        λ c' streams' disk' q' g'.
          Going-Delivered b p' ps c' streams' disk' q' (bytes ++ p) content g'
            (append_assoc bytes p (concat (p' ∷ ps)) ∙ w) same n.1

  Untouched-Delivered :
      (b : Uploads P u rel digest) (p : Bytes) (ps : List Bytes) (c : List (P.FsPath × SResource))
      (streams : Streams P) (disk : P.Disk) (q : Queue) (content : Bytes)
      → Untouched P U c streams disk
      → concat (p ∷ ps) ≡ content
      → digest ≡ md5_hash P (P.string rel ++ content)
      → Unended (frames (H P backup_root credentials U) (p ∷ ps))
      → Delivered P backup_root credentials U content
          (frames (H P backup_root credentials U) (p ∷ ps))
          (serve_all P backup_root credentials
            (frames (H P backup_root credentials U) (p ∷ ps))
            (at P backup_root credentials U c streams disk q))
  Untouched-Delivered b p [] c streams disk q content g w same n =
      let w' : p ≡ content = sym (append-nil p) ∙ w in
      last_served P backup_root credentials U b c streams disk q content p (
        subst
          (λ x.
            Completes P U c streams disk x
              (content_view (last_frame (H P backup_root credentials U) p)
                (sign P backup_root credentials U) p)
              (begun P backup_root credentials U))
          w'
          (Untouched-Completes P U c streams disk p _ (begun P backup_root credentials U) g
            (shown_last P backup_root credentials U p) (ends_last P backup_root credentials U p)
            (same ∙ ap (λ x. md5_hash P (P.string rel ++ x)) (sym w'))))
  Untouched-Delivered b p (p' ∷ ps) c streams disk q content g w same n =
      middle_served P backup_root credentials U b c streams disk q p content p
        (frames (H P backup_root credentials U) (p' ∷ ps))
        (Untouched-Continues P U c streams disk p _ (begun P backup_root credentials U) g
          (shown_middle P backup_root credentials U p)
          (ends_middle P backup_root credentials U p
            (n.0 (frames-some (H P backup_root credentials U) p' ps))))
        λ c' streams' disk' q' g'.
          Going-Delivered b p' ps c' streams' disk' q' p content g' w same n.1

  -- A user who is authenticated and has listed his files, with no entry for a path and no stream open,
  -- gets a file stored there. The client sends the file's messages for a CREATE, under a sign with the
  -- digest of the file, which has no zero byte: if the sign leaves room for ten bytes in a message, the
  -- file's length has 64 bits and leaves room for an END behind its full chunks, and no message before
  -- the last one passes `verify_end`, then the client makes messages, and serving them one after the
  -- other leaves the file with this content, a synced entry with the digest and the other entries as
  -- they were and no stream open, and each message has one reply, which has the sign, an OK and END. It
  -- relies on a file system where what is appended to a file that only this stream writes is what is
  -- read from it, on a regular expression that matches greedily, and on a path that is its own text.
  pub send_file-Delivered :
      (content : Bytes) (c : List (P.FsPath × SResource)) (streams : Streams P) (disk : P.Disk)
      (q : Queue)
      → Uploads P u rel digest
      → digest ≡ md5_hash P (P.string rel ++ content)
      → length content < 2 ^ 64
      → Fits (header 1 (create_sign P rel digest)) (length content)
      → Untouched P U c streams disk
      → ((ms : List Message)
          → send_file (length content + 2) 1 (some content) (create_sign P rel digest) ≡ ok ms
          → Unended ms)
      → (ms : List Message) × (send_file
            (length content + 2)
            1
            (some content)
            (create_sign P rel digest)
          ≡ ok ms)
        × Delivered P backup_root credentials U content ms (
            serve_all P backup_root credentials ms
              (at P backup_root credentials U c streams disk q))
  send_file-Delivered content c streams disk q b same bounded fits untouched unended =
      let (pieces, sent, whole, within, nonempty) =
        send_file-Fits 1 content (sign P backup_root credentials U) b.short bounded fits in
      (
        frames (H P backup_root credentials U) pieces,
        sent,
        delivered pieces nonempty whole
            (unended (frames (H P backup_root credentials U) pieces) sent),
      )
    where
      delivered :
          (ps : List Bytes)
          → ps ≢ []
          → concat ps ≡ content
          → Unended (frames (H P backup_root credentials U) ps)
          → Delivered P backup_root credentials U content
              (frames (H P backup_root credentials U) ps)
              (serve_all P backup_root credentials
                (frames (H P backup_root credentials U) ps)
                (at P backup_root credentials U c streams disk q))
      delivered [] none_sent w n = absurd (none_sent refl)
      delivered (p ∷ ps) none_sent w n =
          Untouched-Delivered b p ps c streams disk q content untouched w same n
