-- ===== src/Server/Connection/Faults.antt =====
-- Bodies that no connection survives.
use remote_backup_m.Prelude.{
  ℕ, zero, suc, ◌<◌, ◌≤◌, ◌≡◌, ◌-◌, ◌∙◌, refl, ap, false, true, [], ◌∷◌, ◌++◌, Bytes, length,
  length-append, length-drop, take, drop, leb, ascii, some, none, ok, err, undefined_behaviour, Eq,
  arith,
}
use remote_backup_m.Shared.Message.{Message, msg_type}
use remote_backup_m.Shared.Platform.{Platform}
use remote_backup_m.Server.Logger.{log_message}
use remote_backup_m.Server.Logger.Lines.{log_message-unknown}
use remote_backup_m.Server.Connection.{
  read_body, body_read, Connection, fill, received, serve, handle_request, react,
}

-- The header is larger than the buffer, or 0, or the type is no enumerator's.
pub data Fault (header room : ℕ) (bytes : Bytes) : Type 0 where
  too_long : room < header → Fault header room bytes
  empty : header ≡ 0 → Fault header room bytes
  unknown_type :
      (t : ℕ) (bs : Bytes)
      → bytes ≡ t ∷ bs
      → 8 ≤ t
      → 0 < header
      → header ≤ room
      → Fault header room bytes

module _ (P : Platform) where
  -- The state in which the handler of the body runs.
  abbrev pub waiting : ℕ → Connection P → Connection P
  waiting header c = record c { header = header; timed_out = false; pending = some read_body }

  abbrev arrived : ℕ → Bytes → Connection P → Connection P
  arrived header bytes c = record (fill P bytes (record (waiting header c) { pending = none })) {
    timer = false;
  }

module _ (P : Platform) ⦃e : Eq P.FsPath⦄ (root credentials : P.FsPath) where
  serve-unlogged :
      (c : Connection P) (m : Message)
      → received P c ≡ ok m
      → ((l : _) → log_message P c.session.user m l ≡ err undefined_behaviour)
      → serve P root credentials c ≡ err undefined_behaviour
  unfolding serve
  serve-unlogged c m r h = rw (r, h (record c.log { cout = c.log.cout ++ ascii "FROM\t" }))

  length-fill :
      (bytes buffer : Bytes)
      → length bytes ≤ length buffer
      → length (bytes ++ drop (length bytes) buffer) ≡ length buffer
  length-fill bytes buffer h =
      omega
        (arith, length-append bytes (drop (length bytes) buffer), length-drop (length bytes) buffer)

  log_message-empty :
      (c : Connection P) (l : _)
      → log_message P c.session.user (record { raw = [] }) l ≡ err undefined_behaviour
  unfolding log_message msg_type
  log_message-empty c l = refl

  received-arrived :
      (header : ℕ) (bytes : Bytes) (c : Connection P)
      → length bytes ≤ length c.buffer
      → header ≤ length c.buffer
      → received P (arrived P header bytes c)
        ≡ ok (record { raw = take header (bytes ++ drop (length bytes) c.buffer) })
  unfolding received fill
  received-arrived header bytes c h k =
      let n = length-fill bytes c.buffer h in
      let l : leb header (length (bytes ++ drop (length bytes) c.buffer)) ≡ true = ground arith in
      rw l

  -- A positive number of bytes begins with the first one.
  take-first : (n t : ℕ) (xs : Bytes) → 0 < n → take n (t ∷ xs) ≡ t ∷ take (n - 1) xs
  take-first zero t xs z = elim z [ ]
  take-first (suc n) t xs z = let e : suc n - 1 ≡ n = omega arith in rw e

  serve-Fault :
      (header : ℕ) (bytes : Bytes) (c : Connection P)
      → length bytes ≤ length c.buffer
      → Fault header (length c.buffer) bytes
      → serve P root credentials (arrived P header bytes c) ≡ err undefined_behaviour
  unfolding serve received fill
  serve-Fault header bytes c h (too_long f) =
      let n = length-fill bytes c.buffer h in
      let l : leb header (length (bytes ++ drop (length bytes) c.buffer)) ≡ false = ground arith in
      rw l
  serve-Fault header bytes c h (empty f) =
      let whole = bytes ++ drop (length bytes) c.buffer in
      serve-unlogged (arrived P header bytes c) (record { raw = [] })
        (received-arrived header bytes c h (omega arith)
          ∙ ap (λ n. ok (record { raw = take n whole })) f)
        (log_message-empty c)
  serve-Fault header bytes c h (unknown_type t bs w u z r) =
      let whole = bytes ++ drop (length bytes) c.buffer in
      let first : take header whole ≡ t ∷ take (header - 1) (bs ++ drop (length bytes) c.buffer) =
        ap (λ b. take header (b ++ drop (length bytes) c.buffer)) w
        ∙ take-first header t (bs ++ drop (length bytes) c.buffer) z in
      serve-unlogged (arrived P header bytes c) (record { raw = take header whole })
        (received-arrived header bytes c h r)
        (λ l. log_message-unknown P c.session.user _ l t _ first u)

  -- Where a connection that has not timed out gets a body for a header that is larger than its
  -- buffer or 0, or one whose first byte is no message type's, the handler's behaviour is undefined,
  -- whoever the user is and whatever the rest of the body is: the message is copied from behind the
  -- buffer's end, or its type is read of no byte, or its name is looked up in vain for the log. A
  -- read delivers no more bytes than the buffer has.
  pub react-Fault :
      (header : ℕ) (bytes : Bytes) (c : Connection P)
      → length bytes ≤ length c.buffer
      → Fault header (length c.buffer) bytes
      → react P root credentials read_body (body_read false bytes) (waiting P header c)
        ≡ err undefined_behaviour
  unfolding react handle_request fill serve
  react-Fault header bytes c h f = serve-Fault header bytes c h f
