-- ===== src/Client/Posting/Whole.antt =====
-- The chunks of a file, posted one after the other.
use remote_backup_m.Prelude.{
  ℕ, zero, suc, ◌≡◌, refl, sym, ap, ◌∙◌, Bool, true, false, List, [], ◌∷◌, ◌++◌, append_assoc,
  append-nil, subst, Option, none, some, Outcome, ok, err, ◌>>=◌, if◌then◌else◌,
}
use remote_backup_m.Shared.Message.{Message}
use remote_backup_m.Shared.Chunks.{FMessage, next_chunk, all_chunks}
use remote_backup_m.Client.Resource.{yes}
use remote_backup_m.Client.Incoming.{Incoming, read}
use remote_backup_m.Client.Posting.{
  WriteEnd, done, failed, Socket, write, read_answer, post_chunks, async_post_file,
  cancel_keepalive, schedule_keepalive,
}

-- A message that the client writes and the reply that it reads for it, whatever comes later.
pub record Exchange : Type 0 where
  pub request : Message
  pub arriving : List Incoming
  pub reply : Message
  pub reads : (later : List Incoming) → read (arriving ++ later) ≡ ok ((yes, some reply), later)

abbrev pub requests : List Exchange → List Message
requests [] = []
requests (x ∷ xs) = x.request ∷ requests xs

-- What the network does for the exchanges: the writes end well, and the replies arrive.
abbrev pub written : List Exchange → List WriteEnd → List WriteEnd
written [] ends = ends
written (x ∷ xs) ends = done ∷ written xs ends

abbrev pub arriving : List Exchange → List Incoming → List Incoming
arriving [] later = later
arriving (x ∷ xs) later = x.arriving ++ arriving xs later

abbrev pub last_reply : Option Message → List Exchange → Option Message
last_reply m [] = m
last_reply m (x ∷ xs) = last_reply (some x.reply) xs

abbrev pub timer_after : Bool → List Exchange → Bool
timer_after on [] = on
timer_after on (x ∷ xs) = timer_after true xs

-- The chunks that `next_chunk` makes in at most so many calls, up to the one that makes none.
pub data Chunked : ℕ → FMessage → List Message → Type 0 where
  finished : (n : ℕ) (f g : FMessage) → next_chunk f ≡ ok (g, false) → Chunked (suc n) f []
  chunk :
      (n : ℕ) (f g : FMessage) (ms : List Message)
      → next_chunk f ≡ ok (g, true)
      → Chunked n g ms
      → Chunked (suc n) f (g.message ∷ ms)

pub all_chunks-Chunked :
    (n : ℕ) (f : FMessage) (ms : List Message) → all_chunks n f ≡ ok ms → Chunked n f ms
unfolding all_chunks
all_chunks-Chunked zero f ms h = absurd (cc)
all_chunks-Chunked (suc n) f ms h = split (all_chunks-Chunked n) (next_chunk f) refl h
  where
    rest :
        (g : FMessage)
        → next_chunk f ≡ ok (g, true)
        → ((ns : List Message) → all_chunks n g ≡ ok ns → Chunked n g ns)
        → (r : Outcome (List Message)) → all_chunks n g ≡ r
        → (r >>= λ ns. ok (g.message ∷ ns)) ≡ ok ms
        → Chunked (suc n) f ms
    rest g p ih (err e) q k = absurd (cc)
    rest g p ih (ok ns) q k =
        let same : g.message ∷ ns ≡ ms = cc in
        subst (Chunked (suc n) f) same (chunk n f g ns p (ih ns q))

    split :
        ((g : FMessage) (ns : List Message) → all_chunks n g ≡ ok ns → Chunked n g ns)
        → (r : Outcome (FMessage × Bool)) → next_chunk f ≡ r
        → (r >>= λ x. if x.1 then (all_chunks n x.0 >>= λ ns. ok (x.0.message ∷ ns)) else ok [])
          ≡ ok ms
        → Chunked (suc n) f ms
    split ih (err e) p k = absurd (cc)
    split ih (ok (g, false)) p k =
        let same : [] ≡ ms = cc in subst (Chunked (suc n) f) same (finished n f g p)
    split ih (ok (g, true)) p k = rest g p (ih g) (all_chunks n g) refl k

-- The next call makes a chunk with this message.
pub data Next : ℕ → FMessage → Message → List Message → Type 0 where
  next :
      (n : ℕ) (f g : FMessage) (m : Message) (ms : List Message)
      → next_chunk f ≡ ok (g, true)
      → g.message ≡ m
      → Chunked n g ms
      → Next (suc n) f m ms

pub Chunked-cons :
    (n : ℕ) (f : FMessage) (all : List Message) {m : Message} {ms : List Message}
    → Chunked n f all
    → all ≡ m ∷ ms
    → Next n f m ms
Chunked-cons _ _ _ (finished n f g p) e = absurd (cc)
Chunked-cons _ _ _ {m} {ms} (chunk n f g ns p c) e =
    let same : ns ≡ ms = cc in next n f g m ms p (cc) (subst (Chunked n g) same c)

-- The socket before the exchanges, and behind them.
abbrev pub scripted : Socket → List Exchange → List WriteEnd → List Incoming → Socket
scripted s xs ends later = record s { writes = written xs ends; incoming = arriving xs later }

abbrev pub behind : Socket → List Exchange → List WriteEnd → List Incoming → Socket
behind s xs ends later = record s {
  writes = ends;
  incoming = later;
  sent = s.sent ++ requests xs;
  keepalive = timer_after s.keepalive xs;
}

module _ (handle_reconnection : Socket → Socket × Bool) where
  -- One exchange.
  post_chunks-chunk :
      (n : ℕ) (m : Option Message) (f g : FMessage) (s : Socket) (x : Exchange) (xs : List Exchange)
      (ends : List WriteEnd) (later : List Incoming)
      → next_chunk f ≡ ok (g, true)
      → g.message ≡ x.request
      → post_chunks handle_reconnection (suc n) m f (scripted s (x ∷ xs) ends later)
        ≡ post_chunks handle_reconnection n (some x.reply) g (
            scripted
              (record s { sent = s.sent ++ (x.request ∷ []); keepalive = true })
              xs
              ends
              later)
  unfolding post_chunks write read_answer cancel_keepalive schedule_keepalive
  post_chunks-chunk n m f g s x xs ends later p q = rw (p, q, x.reads (arriving xs later))

  -- The loop behind the exchanges: what is left of the file, and of the rounds.
  pub record Left (n : ℕ) (m : Option Message) (f : FMessage) (s : Socket) (xs : List Exchange)
      (ends : List WriteEnd) (later : List Incoming) (ms : List Message) : Type 0 where
    pub rounds : ℕ
    pub file : FMessage
    pub chunked : Chunked rounds file ms
    pub posted :
        post_chunks handle_reconnection n m f (scripted s xs ends later)
        ≡ post_chunks handle_reconnection rounds (last_reply m xs) file (behind s xs ends later)

  pub post_chunks-Left :
      (n : ℕ) (m : Option Message) (f : FMessage) (s : Socket) (xs : List Exchange)
      (ends : List WriteEnd) (later : List Incoming) (ms : List Message)
      → Chunked n f (requests xs ++ ms)
      → Left n m f s xs ends later ms
  post_chunks-Left n m f s [] ends later ms c = record {
    rounds = n;
    file = f;
    chunked = c;
    posted =
        ap
          (λ sent.
            post_chunks handle_reconnection n m f
              (record s { writes = ends; incoming = later; sent = sent }))
          (sym (append-nil s.sent));
  }
  post_chunks-Left n m f s (x ∷ xs) ends later ms c =
      step (λ k g. post_chunks-Left k (some x.reply) g s' xs ends later ms)
        (Chunked-cons n f (x.request ∷ (requests xs ++ ms)) c refl)
    where
      s' : Socket
      s' = record s { sent = s.sent ++ (x.request ∷ []); keepalive = true }

      step :
          {j : ℕ}
          → ((k : ℕ) (g : FMessage)
              → Chunked k g (requests xs ++ ms)
              → Left k (some x.reply) g s' xs ends later ms)
          → Next j f x.request (requests xs ++ ms)
          → Left j m f s (x ∷ xs) ends later ms
      step ih (next k _ g _ _ p q d) =
          let l = ih k g d in
          record {
            rounds = l.rounds;
            file = l.file;
            chunked = l.chunked;
            posted =
                post_chunks-chunk k m f g s x xs ends later p q
                ∙ l.posted
                ∙ ap
                    (λ sent.
                      post_chunks handle_reconnection l.rounds (last_reply (some x.reply) xs) l.file
                        (record (behind s' xs ends later) { sent = sent }))
                    (append_assoc s.sent (x.request ∷ []) (requests xs));
          }

  finish :
      {n : ℕ} {f : FMessage} (m : Option Message) (s : Socket)
      → Chunked n f []
      → post_chunks handle_reconnection n m f s ≡ ok (m, s)
  unfolding post_chunks
  finish m s (finished n f g p) = rw p

  pub stop :
      {n : ℕ} {f : FMessage} {r : Message} {ms : List Message} (m : Option Message) (s : Socket)
      (ends : List WriteEnd)
      → Next n f r ms
      → post_chunks handle_reconnection n m f (record s { writes = failed ∷ ends })
        ≡ ok (m, record s { writes = ends; keepalive = false })
  unfolding post_chunks write cancel_keepalive
  stop m s ends (next k f g _ _ p q d) = rw p

  timer_after-true : (xs : List Exchange) → timer_after true xs ≡ true
  timer_after-true [] = refl
  timer_after-true (x ∷ xs) = timer_after-true xs

  -- A file is posted whose messages, made by fewer than `n` calls of `next_chunk`, are those of some
  -- exchanges, one at least. Where each write ends well and is answered, the function is called with
  -- the last reply, whatever it says. All messages were sent, in order, what arrives later is unread,
  -- and the keep-alive timer is on.
  pub async_post_file-sent :
      (n : ℕ) (f : FMessage) (s : Socket) (x : Exchange) (xs : List Exchange) (ends : List WriteEnd)
      (later : List Incoming)
      → all_chunks n f ≡ ok (requests (x ∷ xs))
      → async_post_file handle_reconnection n f (scripted s (x ∷ xs) ends later)
        ≡ ok (
          last_reply (some x.reply) xs,
          record s {
            writes = ends;
            incoming = later;
            sent = s.sent ++ requests (x ∷ xs);
            keepalive = true;
          },
        )
  unfolding async_post_file
  async_post_file-sent n f s x xs ends later h =
      let c =
        subst (Chunked n f) (sym (append-nil (requests (x ∷ xs))))
          (all_chunks-Chunked n f (requests (x ∷ xs)) h) in
      let l = post_chunks-Left n none f s (x ∷ xs) ends later [] c in
      l.posted
      ∙ finish (last_reply (some x.reply) xs) (behind s (x ∷ xs) ends later) l.chunked
      ∙ ap
          (λ on. ok (
            last_reply (some x.reply) xs,
            record (behind s (x ∷ xs) ends later) { keepalive = on },
          ))
          (timer_after-true xs)
