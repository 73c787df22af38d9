-- ===== src/Client/Main/Entered.antt =====
-- `main` goes on only behind a login.
use remote_backup_m.Prelude.{
  ℕ, ◌≤◌, ◌≡◌, refl, ◌∙◌, ap, ◌⊎◌, inl, inr, arith, Bool, true, false, List, [], ◌∷◌, ◌++◌, Bytes,
  length, Outcome, ok, err, Eq, Post, Post-ok, Post-err, Post-bind, Post-bind-on, Post-if,
}
use remote_backup_m.Shared.Platform.{Platform}
use remote_backup_m.Server.Handler.Remove.{is_exception}
use remote_backup_m.Client.Posting.{Socket, handshake, connect_from, connect}
use remote_backup_m.Client.Login.{Scheduler, login, username_regex, password_regex}
use remote_backup_m.Client.Login.Attempts.{auth_requests}
use remote_backup_m.Client.Login.Bounded.{Tries, login-Tries}
use remote_backup_m.Client.Listing.{restore}
use remote_backup_m.Client.Listing.Asked.{Restored, restore-Restored}
use remote_backup_m.Client.Main.{
  Stage, restored, pooled, threads, caught, check_login, connect_and_login, after_login, run_main,
}

handshake-sent : (ends : List Bool) (s : Socket) → Post (λ t. t.sent ≡ s.sent) (handshake ends s)
unfolding handshake
handshake-sent [] s = Post-err
handshake-sent (true ∷ rest) s = Post-err
handshake-sent (false ∷ rest) s = Post-ok refl

connect_from-sent :
    (ends : List Bool) (s : Socket) → Post (λ t. t.sent ≡ s.sent) (connect_from ends s)
unfolding connect_from
connect_from-sent [] s = Post-err
connect_from-sent (true ∷ rest) s = connect_from-sent rest s
connect_from-sent (false ∷ rest) s = handshake-sent s.handshakes (record s { connects = rest })

connect-sent : (s : Socket) → Post (λ t. t.sent ≡ s.sent) (connect s)
unfolding connect
connect-sent s = connect_from-sent s.connects s

caught-Post : {A : Type 0} {Q : A → Type 0} (r : Outcome A) → Post Q r → Post Q (caught r)
caught-Post (ok a) h = h
caught-Post (err failure) h = Post-if (is_exception failure) (λ _. Post-err) (λ _. Post-err)

threads_lem : (n : ℕ) → (1 ≤ threads n) × (threads n ≤ 16)
unfolding threads
threads_lem n = ground arith

-- The login was accepted: what was sent for it.
pub record Accepted (matches : Bytes → Bytes → Bool) (before after : Socket) : Type 0 where
  pub earlier : List (Bytes × Bytes)
  pub username : Bytes
  pub password : Bytes
  pub few : length (earlier ++ ((username, password) ∷ [])) ≤ 3
  pub username_matches : matches username_regex username ≡ true
  pub password_matches : matches password_regex password ≡ true
  pub sent : after.sent ≡ before.sent ++ auth_requests (earlier ++ ((username, password) ∷ []))

module _ (P : Platform) ⦃e : Eq P.FsPath⦄ (matches : Bytes → Bytes → Bool) where
  -- How far the client got, and what it sent before.
  abbrev pub Reaches : Bool → Socket → Stage P → Type 0
  Reaches mode s (restored t disk) =
      (mode ≡ true) × (m : Socket) × Accepted matches s m × Restored m t
  Reaches mode s (pooled n t) = (mode ≡ false) × (1 ≤ n) × (n ≤ 16) × Accepted matches s t

  Accepted-Tries :
      (s : Scheduler) (b : Bool) (s' : Scheduler)
      → Tries matches 3 s (b, s')
      → (b ≡ false) ⊎ Accepted matches s.socket s'.socket
  Accepted-Tries s b s' t = elim t.outcome [
    | inl (f, d) ↦ inl f
    | inr (_, earlier, u, p, q, m, n, d) ↦ inr (record {
      earlier = earlier;
      username = u;
      password = p;
      few = rw (← q) t.few;
      username_matches = m;
      password_matches = n;
      sent = t.sent ∙ ap (λ x. s.socket.sent ++ auth_requests x) q;
    })
  ]

  connect_and_login-Accepted :
      (s : Scheduler)
      → Post (λ t. Accepted matches s.socket t.socket) (connect_and_login P matches s)
  unfolding connect_and_login
  connect_and_login-Accepted s = Post-bind-on (connect-sent s.socket) λ socket q.
      Post-bind (login matches (record s { socket = socket })) λ r p. checked socket q r.0 r.1 (
        Accepted-Tries (record s { socket = socket }) r.0 r.1
          (login-Tries matches (record s { socket = socket }) r p))
    where
      moved :
          (t m : Socket)
          → t.sent ≡ s.socket.sent
          → Accepted matches t m
          → Accepted matches s.socket m
      moved t m q a = record {
        earlier = a.earlier;
        username = a.username;
        password = a.password;
        few = a.few;
        username_matches = a.username_matches;
        password_matches = a.password_matches;
        sent =
            a.sent ∙ ap (λ x. x ++ auth_requests (a.earlier ++ ((a.username, a.password) ∷ []))) q;
      }

      checked :
          (t : Socket)
          → t.sent ≡ s.socket.sent
          → (b : Bool) (s' : Scheduler) → (b ≡ false) ⊎ Accepted matches t s'.socket
          → Post (λ u. Accepted matches s.socket u.socket) (check_login P matches (b, s'))
      checked t q false s' h = Post-err
      checked t q true s' (inl f) = absurd (cc)
      checked t q true s' (inr a) = Post-ok (moved t s'.socket q a)

  after_login-Reaches :
      (mode : Bool) (n : ℕ) (path : P.FsPath) (disk : P.Disk) (s : Socket) (s' : Scheduler)
      → Accepted matches s s'.socket
      → Post (Reaches mode s) (after_login P matches mode n path disk s')
  after_login-Reaches true n path disk s s' a =
      Post-bind-on
        (caught-Post (restore P path s'.socket disk) (restore-Restored P path s'.socket disk))
        λ r h. Post-ok (refl, s'.socket, a, h)
  after_login-Reaches false n path disk s s' a =
      Post-ok (refl, (threads_lem n).0, (threads_lem n).1, a)

  -- A client's `main` that restores to the end, or that comes to the start of the threads with which it
  -- watches its directory, has logged in: over the connection it sent at most three AUTH requests
  -- first, the last one with a name and a password that match the patterns for them. To restore, it
  -- sent LIST next, and then nothing but RETRIEVE requests for some of the signs that the reply to LIST
  -- has, in their order; to watch, it sent nothing more before the threads start, and it starts one at
  -- least and 16 at most.
  pub run_main-Reaches :
      (mode : Bool) (n : ℕ) (path_to_watch : P.FsPath) (s : Scheduler) (disk : P.Disk) (r : Stage P)
      → run_main P matches mode n path_to_watch s disk ≡ ok r
      → Reaches mode s.socket r
  unfolding run_main
  run_main-Reaches mode n path s disk r h =
      (Post-bind-on (caught-Post (connect_and_login P matches s) (connect_and_login-Accepted s))
          λ s' a. after_login-Reaches mode n path disk s.socket s' a).get
        r h
