-- ===== src/Client/Login/Attempts.antt =====
-- What a login sends, and what it leaves.
use remote_backup_m.Prelude.{
  ℕ, zero, suc, ◌≡◌, ◌≢◌, refl, ◌∙◌, ap, ◌⊎◌, inl, inr, Bool, true, false, List, [], ◌∷◌, ◌++◌,
  Bytes, Option, none, some, ok, err, blocked, if◌then◌else◌, Post, Post-ok, Post-err, Post-bind,
  Post-bind-on,
}
use remote_backup_m.Shared.Message.{Message}
use remote_backup_m.Client.Resource.{Tribool, yes, no, indeterminate}
use remote_backup_m.Client.Incoming.{Answer, read}
use remote_backup_m.Client.Posting.{
  Socket, WriteEnd, done, lost, failed, thrown, write, write_end, read_answer, read_end, sync_post,
  cancel_keepalive, schedule_keepalive,
}
use remote_backup_m.Client.Login.{
  AuthData, username_regex, password_regex, ask, auth_request, check_answer, auth, ask_fields,
}

read_end-sent : (a : Answer) (s : Socket) → (read_end a s).1.sent ≡ s.sent
unfolding schedule_keepalive
read_end-sent (yes, m) s = refl
read_end-sent (no, m) s = refl
read_end-sent (indeterminate, m) s = refl

read_answer-sent : (s : Socket) → Post (λ r. r.1.sent ≡ s.sent) (read_answer s)
unfolding read_answer cancel_keepalive
read_answer-sent s =
    Post-bind (read s.incoming)
      λ r _. Post-ok (read_end-sent r.0 (record s { incoming = r.1; keepalive = false }))

abbrev Wrote : Message → Socket → Tribool × Socket → Type 0
Wrote m s w = ((w.0 ≡ yes) × (w.1.sent ≡ s.sent ++ (m ∷ []))) ⊎ ((w.0 ≢ yes) × (w.1.sent ≡ s.sent))

write-Wrote : (m : Message) (s : Socket) → Post (Wrote m s) (write m s)
unfolding write cancel_keepalive schedule_keepalive
write-Wrote m s = split s.writes
  where
    split :
        (ends : List WriteEnd)
        → Post (Wrote m s) (elim ends [
          | [] ↦ err blocked
          | e ∷ rest ↦ ok (write_end e m (record s { writes = rest; keepalive = false }))
        ])
    split [] = Post-err
    split (done ∷ rest) = Post-ok (inl (refl, refl))
    split (lost ∷ rest) = Post-ok (inr (λ e. cc, refl))
    split (failed ∷ rest) = Post-ok (inr (λ e. cc, refl))
    split (thrown ∷ rest) = Post-ok (inr (λ e. cc, refl))

-- The socket sent this message, or it sent nothing and there is no answer.
abbrev pub Sends : Message → Socket → Answer × Socket → Type 0
Sends m s r = (r.1.sent ≡ s.sent ++ (m ∷ [])) ⊎ ((r.1.sent ≡ s.sent) × (r.0.0 ≢ yes))

pub sync_post-Sends : (m : Message) (s : Socket) → Post (Sends m s) (sync_post m s)
unfolding sync_post
sync_post-Sends m s = Post-bind-on (write-Wrote m s) λ w h. split w.0 w.1 h
  where
    split :
        (t : Tribool) (s' : Socket)
        → Wrote m s (t, s')
        → Post (Sends m s) (elim t [
          | yes ↦ read_answer s'
          | no ↦ ok ((no, none), s')
          | indeterminate ↦ ok ((indeterminate, none), s')
        ])
    split yes s' (inl (p, q)) = record { get = λ r h. inl ((read_answer-sent s').get r h ∙ q) }
    split yes s' (inr (p, q)) = absurd (p refl)
    split no s' (inl (p, q)) = absurd (cc)
    split no s' (inr (p, q)) = Post-ok (inr (q, λ e. cc))
    split indeterminate s' (inl (p, q)) = absurd (cc)
    split indeterminate s' (inr (p, q)) = Post-ok (inr (q, λ e. cc))

-- The requests for these names and passwords.
abbrev pub auth_requests : List (Bytes × Bytes) → List Message
auth_requests [] = []
auth_requests ((username, password) ∷ tried) = auth_request username password ∷ auth_requests tried

pub auth_requests-append :
    (xs ys : List (Bytes × Bytes)) → auth_requests (xs ++ ys) ≡ auth_requests xs ++ auth_requests ys
auth_requests-append [] ys = refl
auth_requests-append ((username, password) ∷ xs) ys =
    ap (◌∷◌ (auth_request username password)) (auth_requests-append xs ys)

-- The request was sent and accepted, and the data is what was sent; or it was not accepted, and was
-- sent or not.
abbrev pub Authed : AuthData → Socket → Bool × AuthData × Socket → Type 0
Authed usr s r =
    ((r.0 ≡ true)
      × (r.1 ≡ record usr { authenticated = true })
      × (r.2.sent ≡ s.sent ++ (auth_request usr.username usr.password ∷ [])))
    ⊎ ((r.0 ≡ false) × (r.2.sent ≡ s.sent))
    ⊎ ((r.0 ≡ false) × (r.2.sent ≡ s.sent ++ (auth_request usr.username usr.password ∷ [])))

check_answer-yes : (a : Answer) → Post (λ b. b ≡ true → a.0 ≡ yes) (check_answer a)
check_answer-yes (yes, m) = record { get = λ b h t. refl }
check_answer-yes (no, m) = Post-ok (λ t. absurd (cc))
check_answer-yes (indeterminate, m) = Post-err

pub auth-Authed : (usr : AuthData) (s : Socket) → Post (Authed usr s) (auth usr s)
unfolding auth
auth-Authed usr s =
    Post-bind-on (sync_post-Sends (auth_request usr.username usr.password) s)
      λ r h. Post-bind-on (check_answer-yes r.0) λ b y. Post-ok (split b r.0 r.1 h y)
  where
    split :
        (b : Bool) (a : Answer) (s' : Socket)
        → Sends (auth_request usr.username usr.password) s (a, s')
        → (b ≡ true → a.0 ≡ yes)
        → Authed usr s (b, record usr { authenticated = if b then true else usr.authenticated }, s')
    split true a s' (inl q) y = inl (refl, refl, q)
    split true a s' (inr (q, n)) y = absurd (n (y refl))
    split false a s' (inl q) y = inr (inr (refl, q))
    split false a s' (inr (q, n)) y = inr (inl (refl, q))

module _ (matches : Bytes → Bytes → Bool) where
  abbrev pub Fields : Option (Bytes × Bytes) × List Bytes → Type 0
  Fields (none, words) = Unit
  Fields (some (u, p), words) =
      (matches username_regex u ≡ true) × (matches password_regex p ≡ true)

  abbrev Word : Bytes → Option Bytes × List Bytes → Type 0
  Word regex (none, words) = Unit
  Word regex (some w, words) = matches regex w ≡ true

  ask-Word : (k : ℕ) (regex : Bytes) (words : List Bytes) → Word regex (ask matches k regex words)
  unfolding ask
  ask-Word zero regex words = tt
  ask-Word (suc k) regex [] = ask-Word k regex []
  ask-Word (suc k) regex (w ∷ words) = split (matches regex w) refl (ask-Word k regex words)
    where
      split :
          (b : Bool)
          → matches regex w ≡ b
          → Word regex (ask matches k regex words)
          → Word regex (if b then (some w, words) else ask matches k regex words)
      split true e h = e
      split false e h = h

  pub ask_fields-Fields : (words : List Bytes) → Fields (ask_fields matches words)
  unfolding ask_fields
  ask_fields-Fields words =
      split (ask matches 3 username_regex words) (ask-Word 3 username_regex words)
        λ rest. ask-Word 3 password_regex rest
    where
      split :
          (u : Option Bytes × List Bytes)
          → Word username_regex u
          → ((rest : List Bytes) → Word password_regex (ask matches 3 password_regex rest))
          → Fields (elim u.0 [
            | none ↦ (none, u.1)
            | some username ↦ (elim (ask matches 3 password_regex u.1).0 [
              | none ↦ (none, (ask matches 3 password_regex u.1).1)
              | some password ↦ (some (username, password), (ask matches 3 password_regex u.1).1)
            ])
          ])
      split (none, words') h k = tt
      split (some username, words') h k = within (ask matches 3 password_regex words') (k words')
        where
          within :
              (p : Option Bytes × List Bytes)
              → Word password_regex p
              → Fields (elim p.0 [ none ↦ (none, p.1) | some q ↦ (some (username, q), p.1) ])
          within (none, rest) l = tt
          within (some q, rest) l = (h, l)
