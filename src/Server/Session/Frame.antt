-- ===== src/Server/Session/Frame.antt =====
-- A reply changes the replies alone.
use remote_backup_m.Prelude.{◌≡◌, refl, Post, Post-ok, Post-bind}
use remote_backup_m.Shared.Types.{TlvType, ErrType}
use remote_backup_m.Shared.Platform.{Platform}
use remote_backup_m.Server.Session.{Session, close_response, close, accept, refuse}

module _ (P : Platform) where
  -- Files, streams and the user are as they were.
  pub record Same (s s' : Session P) : Type 0 where
    pub disk : s'.disk ≡ s.disk
    pub streams : s'.streams ≡ s.streams
    pub user : s'.user ≡ s.user

  pub close-Same : (tlv : TlvType) (e : ErrType) (s : Session P) → Post (Same s) (close P tlv e s)
  unfolding close
  close-Same tlv e s =
      Post-bind (close_response P tlv e s.replies)
        λ q _. Post-ok (record { disk = refl; streams = refl; user = refl })

  pub accept-Same : (s : Session P) → Post (Same s) (accept P s)
  unfolding accept
  accept-Same s = close-Same TlvType.ok ErrType.none s

  pub refuse-Same : (e : ErrType) (s : Session P) → Post (Same s) (refuse P e s)
  unfolding refuse
  refuse-Same e s = close-Same TlvType.error e s
