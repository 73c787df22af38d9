-- ===== src/Client/Login/Bounded.antt =====
-- A login sends three requests at most, and succeeds only with what was accepted.
use remote_backup_m.Prelude.{
  ℕ, zero, suc, ◌≤◌, ◌≡◌, refl, sym, ◌∙◌, ap, subst, ◌⊎◌, inl, inr, Bool, true, false, List, [],
  ◌∷◌, ◌++◌, append-nil, append_assoc, length-append, Bytes, length, Option, none, some, ok, ◌>>=◌,
  if◌then◌else◌, arith, Post, Post-ok, Post-bind-on,
}
use remote_backup_m.Client.Posting.{Socket, cancel_keepalive}
use remote_backup_m.Client.Login.{
  AuthData, new_auth_data, Scheduler, username_regex, password_regex, auth_request, auth,
  ask_fields, attempt, login_from, login,
}
use remote_backup_m.Client.Login.Attempts.{
  auth_requests, auth_requests-append, Authed, auth-Authed, Fields, ask_fields-Fields,
}

module _ (matches : Bytes → Bytes → Bool) where
  -- The names and passwords that were sent, in order, and what the client has of them: the last one,
  -- where the login succeeds, and what it had before, where it fails.
  pub record Tries (k : ℕ) (s : Scheduler) (r : Bool × Scheduler) : Type 0 where
    pub tried : List (Bytes × Bytes)
    pub few : length tried ≤ k
    pub sent : r.1.socket.sent ≡ s.socket.sent ++ auth_requests tried
    pub outcome :
        ((r.0 ≡ false) × (r.1.auth_data ≡ s.auth_data))
        ⊎ ((r.0 ≡ true)
            × (earlier : List (Bytes × Bytes)) × (username : Bytes) × (password : Bytes) × (tried
                ≡ earlier ++ ((username, password) ∷ []))
            × (matches username_regex username ≡ true)
            × (matches password_regex password ≡ true)
            × (r.1.auth_data
                ≡ record { username = username; password = password; authenticated = true }))

  -- One attempt.
  data Attempted (s : Scheduler) : Option Bool × Scheduler → Type 0 where
    gave_up : (words : List Bytes) → Attempted s (some false, record s { cin = words })
    entered :
        (username password : Bytes) (socket : Socket) (words : List Bytes)
        → matches username_regex username ≡ true
        → matches password_regex password ≡ true
        → socket.sent ≡ s.socket.sent ++ (auth_request username password ∷ [])
        → Attempted s (
          some true,
          record {
            auth_data = record { username = username; password = password; authenticated = true };
            socket = socket;
            cin = words;
          },
        )
    unsent :
        (socket : Socket) (words : List Bytes)
        → socket.sent ≡ s.socket.sent
        → Attempted s (none, record s { socket = socket; cin = words })
    rejected :
        (username password : Bytes) (socket : Socket) (words : List Bytes)
        → socket.sent ≡ s.socket.sent ++ (auth_request username password ∷ [])
        → Attempted s (none, record s { socket = socket; cin = words })

  attempted :
      (u p : Bytes) (s : Scheduler) (words : List Bytes) (b : Bool) (usr : AuthData)
      (socket : Socket)
      → matches username_regex u ≡ true
      → matches password_regex p ≡ true
      → Authed (new_auth_data u p) s.socket (b, usr, socket)
      → Attempted s (
          if b
          then (some true, record { auth_data = usr; socket = socket; cin = words })
          else (none, record s { socket = cancel_keepalive socket; cin = words }))
  unfolding new_auth_data cancel_keepalive
  attempted u p s words true usr socket m n (inl (t, q, e)) =
      subst (λ x. Attempted s (some true, record { auth_data = x; socket = socket; cin = words }))
        (sym q) (entered u p socket words m n e)
  attempted u p s words true usr socket m n (inr (inl (t, e))) = absurd (cc)
  attempted u p s words true usr socket m n (inr (inr (t, e))) = absurd (cc)
  attempted u p s words false usr socket m n (inl (t, q, e)) = absurd (cc)
  attempted u p s words false usr socket m n (inr (inl (t, e))) =
      unsent (record socket { keepalive = false }) words e
  attempted u p s words false usr socket m n (inr (inr (t, e))) =
      rejected u p (record socket { keepalive = false }) words e

  attempt-Attempted : (s : Scheduler) → Post (Attempted s) (attempt matches s)
  unfolding attempt
  attempt-Attempted s = split (ask_fields matches s.cin) (ask_fields-Fields matches s.cin)
    where
      split :
          (f : Option (Bytes × Bytes) × List Bytes)
          → Fields matches f
          → Post (Attempted s) (elim f.0 [
            | none ↦ ok (some false, record s { cin = f.1 })
            | some (username, password) ↦
                (auth (new_auth_data username password) s.socket >>= λ (accepted, usr, socket). ok (
                  if accepted
                  then (some true, record { auth_data = usr; socket = socket; cin = f.1 })
                  else (none, record s { socket = cancel_keepalive socket; cin = f.1 })))
          ])
      split (none, words) h = Post-ok (gave_up words)
      split (some (u, p), words) h =
          Post-bind-on (auth-Authed (new_auth_data u p) s.socket)
            λ r a. Post-ok (attempted u p s words r.0 r.1 r.2 h.0 h.1 a)

  -- An attempt before others.
  Tries-more :
      (k : ℕ) (s : Scheduler) (socket : Socket) (words : List Bytes) (before : List (Bytes × Bytes))
      (r : Bool × Scheduler)
      → socket.sent ≡ s.socket.sent ++ auth_requests before
      → length before ≤ 1
      → Tries k (record s { socket = socket; cin = words }) r
      → Tries (suc k) s r
  Tries-more k s socket words before r e l t = record {
    tried = before ++ t.tried;
    few = omega (arith, t.few, length-append before t.tried);
    sent =
        t.sent
        ∙ ap (λ x. x ++ auth_requests t.tried) e
        ∙ append_assoc s.socket.sent (auth_requests before) (auth_requests t.tried)
        ∙ ap (λ x. s.socket.sent ++ x) (sym (auth_requests-append before t.tried));
    outcome = elim t.outcome [
      | inl o ↦ inl o
      | inr (b, earlier, u, p, q, m, n, d) ↦ inr (
        b,
        before ++ earlier,
        u,
        p,
        ap (λ x. before ++ x) q ∙ sym (append_assoc before earlier ((u, p) ∷ [])),
        m,
        n,
        d,
      )
    ];
  }

  login_from-Tries : (k : ℕ) (s : Scheduler) → Post (Tries k s) (login_from matches k s)
  unfolding login_from
  login_from-Tries zero s = Post-ok (record {
    tried = [];
    few = omega arith;
    sent = sym (append-nil s.socket.sent);
    outcome = inl (refl, refl);
  })
  login_from-Tries (suc k) s =
      Post-bind-on (attempt-Attempted s) λ r a. step r.0 r.1 a (login_from-Tries k)
    where
      step :
          (o : Option Bool) (s' : Scheduler)
          → Attempted s (o, s')
          → ((u : Scheduler) → Post (Tries k u) (login_from matches k u))
          → Post (Tries (suc k) s) (elim o [ some b ↦ ok (b, s') | none ↦ login_from matches k s' ])
      step _ _ (gave_up words) ih = Post-ok (record {
        tried = [];
        few = omega arith;
        sent = sym (append-nil s.socket.sent);
        outcome = inl (refl, refl);
      })
      step _ _ (entered u p socket words m n e) ih = Post-ok (record {
        tried = (u, p) ∷ [];
        few = omega arith;
        sent = e;
        outcome = inr (refl, [], u, p, refl, m, n, refl);
      })
      step _ _ (unsent socket words e) ih = record {
        get = λ r h.
            Tries-more k s socket words [] r (e ∙ sym (append-nil s.socket.sent)) (omega arith)
              ((ih (record s { socket = socket; cin = words })).get r h);
      }
      step _ _ (rejected u p socket words e) ih = record {
        get = λ r h.
            Tries-more k s socket words ((u, p) ∷ []) r e (omega arith)
              ((ih (record s { socket = socket; cin = words })).get r h);
      }

  -- A login that returns has sent three AUTH requests at most and nothing else. If it succeeds, the
  -- client has the name and the password of the last one, marked as authenticated, and both match
  -- the patterns for them; if it fails, the client has what it had.
  pub login-Tries : (s : Scheduler) (r : Bool × Scheduler) → login matches s ≡ ok r → Tries 3 s r
  unfolding login
  login-Tries s r h = (login_from-Tries 3 s).get r h
