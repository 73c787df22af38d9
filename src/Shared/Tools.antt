-- ===== src/Shared/Tools.antt =====
-- shared/utilities/tools.cpp.
pub mod Sign
pub mod Password
use remote_backup_m.Prelude.{
  ℕ, zero, suc, ◌+◌, ◌-◌, ◌≡◌, Bool, true, false, ◌&&◌, List, [], ◌∷◌, ◌++◌, Bytes, length, take,
  drop, Option, some, none, Outcome, ok, err, undefined_behaviour, runtime_error, length_error,
  ◌>>=◌, ◌==◌, ◌=?◌, bytes_eq, bytes_beq, if◌then◌else◌,
}
use remote_backup_m.Shared.Platform.{Platform, FileRead, contents, unopened, raised}

-- The code points of the pattern `(.*)\x00(.*)`.
abbrev pub sign_regex : Bytes
sign_regex = b'(' ∷ b'.' ∷ b'*' ∷ b')' ∷ 92 ∷ b'x' ∷ b'0' ∷ b'0' ∷ b'(' ∷ b'.' ∷ b'*' ∷ b')' ∷ []

-- `std::getline` in a loop: the lines of a text, without their line feeds.
unfoldable pub lines : Bytes → List Bytes
lines [] = []
lines (c ∷ cs) = elim (lines cs) [
  | [] ↦ if c == 10 then [] ∷ [] else (c ∷ []) ∷ []
  | l ∷ ls ↦ if c == 10 then [] ∷ l ∷ ls else (c ∷ l) ∷ ls
]

unfoldable pub starts_with : Bytes → Bytes → Bool
starts_with [] s = true
starts_with (x ∷ xs) [] = false
starts_with (x ∷ xs) (y ∷ ys) = x == y && starts_with xs ys

-- `s.find(x) != npos`.
unfoldable pub occurs : Bytes → Bytes → Bool
unfolding starts_with
occurs x [] = starts_with x []
occurs x (c ∷ cs) = if starts_with x (c ∷ cs) then true else occurs x cs

-- `s.find(c)`, and the text behind it: `none` where `c` does not occur.
unfoldable pub after_char : ℕ → Bytes → Option Bytes
after_char c [] = none
after_char c (x ∷ xs) = if x == c then some xs else after_char c xs

-- How the hash of a file ends: with a digest, with the `length_error` of a vector of size -1,
-- since the file's length is asked of a stream that is not open, or with a `filesystem_error`.
pub data Digest : Type 0 where
  hashed : Bytes → Digest
  too_long filesystem_error : Digest

module _ (P : Platform) where
  open P use {FsPath, Disk}

  -- The path, a zero byte and the digest.
  unfoldable pub create_sign : FsPath → Bytes → Bytes
  create_sign relative_path digest = P.string relative_path ++ (0 ∷ digest)

  unfoldable pub match_and_parse : Bytes → Bytes → Bool × List Bytes
  match_and_parse regex line = elim (P.regex_match regex line) [
    | none ↦ (false, [])
    | some groups ↦ (true, groups)
  ]

  -- `pair.second[0]` and `pair.second[1]`, unchecked.
  abbrev pub first_two : List Bytes → Outcome (FsPath × Bytes)
  first_two (a ∷ b ∷ rest) = ok (P.path a, b)
  first_two _ = err undefined_behaviour

  unfoldable pub split_sign : Bytes → Outcome (FsPath × Bytes)
  unfolding match_and_parse
  split_sign sign =
      let (found, groups) = match_and_parse sign_regex sign in
      if found then first_two groups else err runtime_error

  unfoldable pub md5_to_string : List ℕ → Bytes
  md5_to_string digest = P.hex_ints digest

  unfoldable pub md5_hash : Bytes → Bytes
  unfolding md5_to_string
  md5_hash s = md5_to_string (P.md5 s)

  -- The digest of the relative path's text followed by the file.
  -- Of an empty file no byte is hashed, though the code takes the address of its first one.
  unfoldable pub md5_file : FsPath → FsPath → Disk → Digest
  unfolding md5_hash
  md5_file absolute_path relative_path disk = elim (P.read_file absolute_path disk) [
    | contents bytes ↦ hashed (md5_hash (P.string relative_path ++ bytes))
    | unopened ↦ too_long
    | raised ↦ filesystem_error
  ]

  -- All bytes but the last are hashed; of the empty text, `size() - 1` bytes are read.
  unfoldable pub sha512_hash : Bytes → Outcome Bytes
  sha512_hash [] = err undefined_behaviour
  sha512_hash (c ∷ cs) = ok (P.hex_chars (P.sha512 (take (length cs) (c ∷ cs))))

  -- The first line in which the user's name occurs decides.
  unfoldable pub check_lines : Bytes → Bytes → List Bytes → Bool
  unfolding occurs after_char
  check_lines username c_digest [] = false
  check_lines username c_digest (line ∷ rest) =
      let other = check_lines username c_digest rest in
      if occurs username line
      then elim (after_char 9 line) [ none ↦ false | some s_digest ↦ s_digest =? c_digest ]
      else other

  abbrev pub check_file : Bytes → Bytes → FileRead → Bool
  check_file username c_digest (contents text) = check_lines username c_digest (lines text)
  check_file username c_digest _ = false

  unfoldable pub verify_password : FsPath → Bytes → Bytes → Disk → Outcome Bool
  unfolding sha512_hash check_lines lines
  verify_password credentials_path username password disk = do
    c_digest ← sha512_hash password
    ok (check_file username c_digest (P.read_file credentials_path disk))
