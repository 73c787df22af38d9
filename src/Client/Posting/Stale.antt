-- ===== src/Client/Posting/Stale.antt =====
-- A write that fails behind the first chunk.
use remote_backup_m.Prelude.{
  ℕ, ◌≡◌, refl, ap, ◌∙◌, Bool, true, false, List, ◌∷◌, ◌++◌, Bytes, none, some, ok, Eq,
}
use remote_backup_m.Shared.Types.{MsgType}
use remote_backup_m.Shared.Message.{Message}
use remote_backup_m.Shared.Chunks.{FMessage, all_chunks}
use remote_backup_m.Shared.Dir.{Dir, rsrc}
use remote_backup_m.Shared.Dir.Entries.{NodupKeys}
use remote_backup_m.Client.Resource.{yes, CResource}
use remote_backup_m.Client.Incoming.{Incoming}
use remote_backup_m.Client.Replies.{handle_create}
use remote_backup_m.Client.Replies.Closing.{IsReply, Leaves, handle_create-Leaves}
use remote_backup_m.Client.Posting.{WriteEnd, failed, Socket, async_post_file}
use remote_backup_m.Client.Posting.Whole.{
  Exchange, requests, last_reply, scripted, behind, all_chunks-Chunked, Chunked-cons,
  post_chunks-Left, stop,
}

module _ (handle_reconnection : Socket → Socket × Bool) where
  -- The function gets the reply to the chunk before.
  async_post_file-stale :
      (n : ℕ) (f : FMessage) (s : Socket) (xs : List Exchange) (m : Message) (ms : List Message)
      (ends : List WriteEnd) (later : List Incoming)
      → all_chunks n f ≡ ok (requests xs ++ (m ∷ ms))
      → async_post_file handle_reconnection n f (scripted s xs (failed ∷ ends) later)
        ≡ ok (last_reply none xs, record (behind s xs ends later) { keepalive = false })
  unfolding async_post_file
  async_post_file-stale n f s xs m ms ends later h =
      let l =
        post_chunks-Left handle_reconnection n none f s xs (failed ∷ ends) later (m ∷ ms)
          (all_chunks-Chunked n f (requests xs ++ (m ∷ ms)) h) in
      l.posted
      ∙ stop handle_reconnection (last_reply none xs) (behind s xs ends later) ends
          (Chunked-cons l.rounds l.file (m ∷ ms) l.chunked refl)

  -- A file is posted for a CREATE in two messages or more, and the write of one behind the first
  -- fails, but not since the connection is lost. Where the last reply before it is an OK of the server
  -- for the file's sign, `handle_create` is called with that reply: the client, if it has an entry for
  -- the path, and one at most for each, takes the file for synced and for one that the server has,
  -- although only the messages before the failed one were sent.
  pub create-stale :
      {K : Type 0} ⦃e : Eq K⦄ (relative_path : K) (sign : Bytes) (reply : Message) (r : CResource)
      (d : Dir K CResource) (n : ℕ) (f : FMessage) (s : Socket) (xs : List Exchange) (m : Message)
      (ms : List Message) (ends : List WriteEnd) (later : List Incoming)
      → all_chunks n f ≡ ok (requests xs ++ (m ∷ ms))
      → last_reply none xs ≡ some reply
      → IsReply MsgType.create sign none reply
      → NodupKeys d.content
      → rsrc relative_path d ≡ some r
      → (s' : Socket) × (async_post_file handle_reconnection n f
            (scripted s xs (failed ∷ ends) later)
          ≡ ok (some reply, s'))
        × (s'.sent ≡ s.sent ++ requests xs)
        × Leaves relative_path sign none reply r d
            (handle_create relative_path sign (some reply) d)
            (some (record r { synced = yes; exist_on_server = true }))
  create-stale relative_path sign reply r d n f s xs m ms ends later h last w u p = (
    record (behind s xs ends later) { keepalive = false },
    async_post_file-stale n f s xs m ms ends later h
        ∙ ap (λ o. ok (o, record (behind s xs ends later) { keepalive = false })) last,
    refl,
    handle_create-Leaves relative_path sign none reply r d u p tt w,
  )
