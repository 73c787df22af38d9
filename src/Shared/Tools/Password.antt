-- ===== src/Shared/Tools/Password.antt =====
-- What `verify_password` accepts.
use remote_backup_m.Prelude.{
  ℕ, suc, ◌≡◌, ◌⊎◌, inl, inr, refl, true, List, [], ◌∷◌, ◌++◌, Bytes, length, take-append,
  length-append, some, ok, arith, bytes_eq, bytes_beq_iff, Bool-cases, Option-cases,
}
use remote_backup_m.Shared.Platform.{Platform, contents}
use remote_backup_m.Shared.Tools.{
  sha512_hash, check_lines, verify_password, occurs, after_char, lines,
}

-- Some line names the user, and what stands behind its first tab is this digest.
abbrev pub Listed : Bytes → Bytes → List Bytes → Type 0
Listed username digest [] = ⊥
Listed username digest (line ∷ rest) =
    ((occurs username line ≡ true) × (after_char 9 line ≡ some digest))
    ⊎ Listed username digest rest

module _ (P : Platform) where
  check_lines-Listed :
      (username digest : Bytes) (ls : List Bytes)
      → check_lines P username digest ls ≡ true
      → Listed username digest ls
  unfolding check_lines
  check_lines-Listed username digest [] h = cc
  check_lines-Listed username digest (line ∷ rest) h = elim (Bool-cases (occurs username line)) [
    | inl hit ↦ elim (Option-cases (after_char 9 line)) [
      | inl e ↦ ground arith
      | inr (d, e) ↦ inl (hit, ground (arith, bytes_beq_iff d digest))
    ]
    | inr miss ↦ inr (check_lines-Listed username digest rest (ground arith))
  ]

  sha512_hash-snoc :
      (p : Bytes) (x : ℕ) → sha512_hash P (p ++ (x ∷ [])) ≡ ok (P.hex_chars (P.sha512 p))
  unfolding sha512_hash
  sha512_hash-snoc [] x = refl
  sha512_hash-snoc (c ∷ p) x =
      let n : length (p ++ (x ∷ [])) ≡ suc (length p) = omega (arith, length-append p (x ∷ [])) in
      rw (n, take-append p (x ∷ []))

  -- Where the credentials file can be read and a password of one byte or more is accepted, some
  -- line of the file has the user's name in it and, behind its first tab, the digest of the
  -- password without its last byte.
  pub verify_password-Listed :
      (file : P.FsPath) (username p : Bytes) (x : ℕ) (text : Bytes) (disk : P.Disk)
      → P.read_file file disk ≡ contents text
      → verify_password P file username (p ++ (x ∷ [])) disk ≡ ok true
      → Listed username (P.hex_chars (P.sha512 p)) (lines text)
  unfolding verify_password
  verify_password-Listed file username p x text disk e h =
      check_lines-Listed username (P.hex_chars (P.sha512 p)) (lines text)
        (let k = rw (sha512_hash-snoc p x, e) at h in cc)

  -- The last byte of a password is not looked at: any two passwords that differ only there are
  -- accepted or refused alike.
  pub verify_password-last :
      (file : P.FsPath) (username p : Bytes) (x y : ℕ) (disk : P.Disk)
      → verify_password P file username (p ++ (x ∷ [])) disk
        ≡ verify_password P file username (p ++ (y ∷ [])) disk
  unfolding verify_password
  verify_password-last file username p x y disk = rw (sha512_hash-snoc p x, sha512_hash-snoc p y)
