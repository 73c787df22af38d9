-- ===== src/Client/Listing/Asked.antt =====
-- What `restore` asks the server for.
use remote_backup_m.Prelude.{
  ◌≡◌, refl, sym, ◌∙◌, ap, inl, inr, Bool, List, [], ◌∷◌, ◌++◌, append-nil, append_assoc, Bytes,
  Option, none, some, ok, ◌>>=◌, map, Post, Post-ok, Post-bind, Post-bind-on,
}
use remote_backup_m.Shared.Message.{Message}
use remote_backup_m.Shared.Platform.{Platform}
use remote_backup_m.Shared.Tools.{split_sign}
use remote_backup_m.Client.Resource.{yes, no, indeterminate}
use remote_backup_m.Client.Incoming.{Answer}
use remote_backup_m.Client.Posting.{Socket, sync_post}
use remote_backup_m.Client.Retrieve.{retrieve_request, before_request, handle_answer, retrieve}
use remote_backup_m.Client.Sync.{list_request, listed_signs}
use remote_backup_m.Client.Login.Attempts.{Sends, sync_post-Sends}
use remote_backup_m.Client.Listing.{retrieve_all, listed_reply, restore}

-- Some of the signs, in their order.
pub data Picked : List Bytes → List Bytes → Type 0 where
  nothing : Picked [] []
  skipped :
      (sign : Bytes) (asked signs : List Bytes) → Picked asked signs → Picked asked (sign ∷ signs)
  taken :
      (sign : Bytes) (asked signs : List Bytes)
      → Picked asked signs
      → Picked (sign ∷ asked) (sign ∷ signs)

-- Requests for some of these signs were sent, in their order, each once.
pub record Asked (signs : List Bytes) (before after : Socket) : Type 0 where
  pub asked : List Bytes
  pub picked : Picked asked signs
  pub sent : after.sent ≡ before.sent ++ map retrieve_request asked

nothing-Asked : (socket : Socket) → Asked [] socket socket
nothing-Asked socket = record { asked = []; picked = nothing; sent = sym (append-nil socket.sent) }

-- The requests for one sign, before those for the others.
Picked-one :
    (sign : Bytes) (asked signs some_signs : List Bytes)
    → Picked asked (sign ∷ [])
    → Picked some_signs signs
    → Picked (asked ++ some_signs) (sign ∷ signs)
Picked-one sign _ signs xs (skipped _ _ _ nothing) q = skipped sign xs signs q
Picked-one sign _ signs xs (taken _ _ _ nothing) q = taken sign xs signs q

map-append :
    (xs ys : List Bytes)
    → map retrieve_request (xs ++ ys) ≡ map retrieve_request xs ++ map retrieve_request ys
map-append [] ys = refl
map-append (x ∷ xs) ys = ap (◌∷◌ (retrieve_request x)) (map-append xs ys)

Asked-more :
    (sign : Bytes) (signs : List Bytes) (s t u : Socket)
    → Asked (sign ∷ []) s t
    → Asked signs t u
    → Asked (sign ∷ signs) s u
Asked-more sign signs s t u a b = record {
  asked = a.asked ++ b.asked;
  picked = Picked-one sign a.asked signs b.asked a.picked b.picked;
  sent =
      b.sent
      ∙ ap (λ x. x ++ map retrieve_request b.asked) a.sent
      ∙ append_assoc s.sent (map retrieve_request a.asked) (map retrieve_request b.asked)
      ∙ ap (λ x. s.sent ++ x) (sym (map-append a.asked b.asked));
}

-- What a restore that ends has sent: LIST, and the requests for the signs that the reply lists,
-- some of them, in their order.
pub record Restored (before after : Socket) : Type 0 where
  pub reply : Message
  pub between : Socket
  pub answered : sync_post list_request before ≡ ok ((yes, some reply), between)
  pub signs : List Bytes
  pub listed : listed_signs reply ≡ ok signs
  pub asked : List Bytes
  pub picked : Picked asked signs
  pub sent : after.sent ≡ before.sent ++ (list_request ∷ map retrieve_request asked)

module _ (P : Platform) where
  retrieve-Asked :
      (root : P.FsPath) (sign : Bytes) (socket : Socket) (disk : P.Disk)
      → Post (λ r. Asked (sign ∷ []) socket r.0) (retrieve P root sign socket disk)
  unfolding retrieve
  retrieve-Asked root sign socket disk =
      Post-bind (split_sign P sign)
        λ c _. Post-bind (before_request P (P.join root c.0) c.0 c.1 disk) λ b _. split c b.0 b.1
    where
      unasked : (s : Socket) → s.sent ≡ socket.sent → Asked (sign ∷ []) socket s
      unasked s e = record {
        asked = [];
        picked = skipped sign [] [] nothing;
        sent = e ∙ sym (append-nil socket.sent);
      }

      asked_for :
          (a : Answer) (s : Socket)
          → Sends (retrieve_request sign) socket (a, s)
          → Asked (sign ∷ []) socket s
      asked_for a s (inl e) = record {
        asked = sign ∷ [];
        picked = taken sign [] [] nothing;
        sent = e;
      }
      asked_for a s (inr (e, n)) = unasked s e

      split :
          (c : P.FsPath × Bytes) (disk' : P.Disk) (b : Option Bool)
          → Post {A = Socket × P.Disk × Bool}
              (λ r. Asked (sign ∷ []) socket r.0)
              (elim b [
                | some done ↦ ok (socket, disk', done)
                | none ↦
                    (sync_post (retrieve_request sign) socket >>= λ r.
                    handle_answer P (P.join root c.0) c.0 c.1 sign r.0 disk' >>= λ d.
                    ok (r.1, d.0, d.1))
              ])
      split c disk' (some done) = Post-ok (unasked socket refl)
      split c disk' none = Post-bind-on (sync_post-Sends (retrieve_request sign) socket) λ r h.
          Post-bind (handle_answer P (P.join root c.0) c.0 c.1 sign r.0 disk')
            λ d _. Post-ok (asked_for r.0 r.1 h)

  retrieve_all-Asked :
      (root : P.FsPath) (signs : List Bytes) (socket : Socket) (disk : P.Disk)
      → Post (λ r. Asked signs socket r.0) (retrieve_all P root signs socket disk)
  unfolding retrieve_all
  retrieve_all-Asked root [] socket disk = Post-ok (nothing-Asked socket)
  retrieve_all-Asked root (sign ∷ signs) socket disk =
      Post-bind-on (retrieve-Asked root sign socket disk) λ r a. record {
        get = λ u h.
            Asked-more sign signs socket r.0 u.0 a
              ((retrieve_all-Asked root signs r.0 r.1).get u h);
      }

  listed_reply-some : (a : Answer) (m : Message) → listed_reply P a ≡ ok m → a ≡ (yes, some m)
  listed_reply-some (yes, none) m e = absurd (cc)
  listed_reply-some (yes, some x) m e = ap (λ y. (yes, some y)) (ok-inj x m e)
    where
      ok-inj : (x m : Message) → ok x ≡ ok m → x ≡ m
      ok-inj x m e = cc
  listed_reply-some (no, x) m e = absurd (cc)
  listed_reply-some (indeterminate, x) m e = absurd (cc)

  pub restore-Restored :
      (root : P.FsPath) (socket : Socket) (disk : P.Disk)
      → Post (λ r. Restored socket r.0) (restore P root socket disk)
  unfolding restore
  restore-Restored root socket disk = Post-bind (sync_post list_request socket) λ r p.
      Post-bind (listed_reply P r.0) λ m q. Post-bind (listed_signs m) λ signs l. record {
        get = λ u h.
            finish r.0 r.1 m signs u.0 p (listed_reply-some r.0 m q) l
              ((sync_post-Sends list_request socket).get r p)
              ((retrieve_all-Asked root signs r.1 disk).get u h);
      }
    where
      finish :
          (a : Answer) (s : Socket) (m : Message) (signs : List Bytes) (u : Socket)
          → sync_post list_request socket ≡ ok (a, s)
          → a ≡ (yes, some m)
          → listed_signs m ≡ ok signs
          → Sends list_request socket (a, s)
          → Asked signs s u
          → Restored socket u
      finish a s m signs u p q l (inr (e, n)) asked = absurd (n (ap (λ x. x.0) q))
      finish a s m signs u p q l (inl e) asked = record {
        reply = m;
        between = s;
        answered = p ∙ ap (λ x. ok (x, s)) q;
        signs = signs;
        listed = l;
        asked = asked.asked;
        picked = asked.picked;
        sent =
            asked.sent
            ∙ ap (λ x. x ++ map retrieve_request asked.asked) e
            ∙ append_assoc socket.sent (list_request ∷ []) (map retrieve_request asked.asked);
      }
