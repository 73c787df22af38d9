-- ===== src/Shared/Chunks/More.antt =====
-- A file that was just opened gives a message.
use remote_backup_m.Prelude.{
  ℕ, zero, suc, ◌<◌, ◌≡◌, ◌≢◌, refl, Bool, true, false, [], ◌∷◌, Bytes, length, Option, ltb, arith,
  Post, Post-ok, Post-if, Post-bind,
}
use remote_backup_m.Shared.Types.{tlv_code, TlvType}
use remote_backup_m.Shared.Message.{new_message, add_tlv, size, resize}
use remote_backup_m.Shared.Chunks.{
  FMessage, chunk_size, sub64, poke, open_f_message, read_chunk, middle_chunk, last_chunk,
  next_chunk, all_chunks,
}

abbrev Gives : FMessage × Bool → Type 0
Gives r = r.1 ≡ true

middle_chunk-Gives : (f : FMessage) → Post Gives (middle_chunk f)
unfolding middle_chunk
middle_chunk-Gives f =
    Post-bind (read_chunk (sub64 (sub64 chunk_size f.header_size) 3) f) λ g _. Post-ok refl

last_chunk-Gives : (f : FMessage) → Post Gives (last_chunk f)
unfolding last_chunk
last_chunk-Gives f =
    Post-bind (read_chunk f.remaining (record f { completed = true })) λ g _. Post-ok refl

next_chunk-Gives : (f : FMessage) → f.completed ≡ false → Post Gives (next_chunk f)
unfolding next_chunk
next_chunk-Gives f c =
    Post-if f.completed (λ t. absurd (ground arith))
      (λ _.
        Post-if (ltb (sub64 (sub64 (sub64 chunk_size f.header_size) 3) 3) f.remaining)
          (λ _. middle_chunk-Gives f) (λ _. last_chunk-Gives f))

pub all_chunks-some :
    (fuel : ℕ) (f : FMessage)
    → f.completed ≡ false
    → 0 < fuel
    → Post (λ ms. ms ≢ []) (all_chunks fuel f)
unfolding all_chunks
all_chunks-some zero f c l = elim l [ ]
all_chunks-some (suc fuel) f c l = Post-bind (next_chunk f) λ r h.
    let more = (next_chunk-Gives f c).get r h in
    Post-if r.1 (λ _. Post-bind (all_chunks fuel r.0) λ rest _. Post-ok (λ e. cc))
      (λ n. absurd (ground arith))

pub open_f_message-unfinished :
    (t : ℕ) (file : Option Bytes) (sign : Bytes)
    → Post (λ f. f.completed ≡ false) (open_f_message t file sign)
unfolding open_f_message
open_f_message-unfinished t file sign =
    let headed = add_tlv (tlv_code TlvType.item) (length sign) sign (new_message t) in
    Post-bind (poke (size headed) (tlv_code TlvType.content ∷ []) (resize chunk_size headed))
      λ m _. Post-ok refl
