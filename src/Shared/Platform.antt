-- ===== src/Shared/Platform.antt =====
-- What the code takes from the standard library's streams, from Boost (paths, files, regular
-- expressions, MD5, `hex`) and from OpenSSL (SHA-512): the operations that it calls, over an unknown
-- disk. Equality of paths is a parameter beside it. An operation that reports through an `error_code` returns true where the code is set.
use remote_backup_m.Prelude.{ℕ, Bool, List, Bytes, Option}

-- Reading a whole file: its bytes, a stream that could not be opened, or a `filesystem_error`.
pub data FileRead : Type 0 where
  contents : Bytes → FileRead
  unopened raised : FileRead

pub record Platform : Type 1 where
  pub FsPath : Type 0
  pub path : Bytes → FsPath
  -- `p.generic_path().string()`, and the `p.size()` that counts its bytes.
  pub string : FsPath → Bytes
  pub join : FsPath → FsPath → FsPath
  pub parent_path : FsPath → FsPath
  pub append_text : FsPath → Bytes → FsPath
  pub Disk : Type 0
  pub Stream : Type 0
  pub exists : FsPath → Disk → Bool
  pub create_directories : FsPath → Disk → Disk × Bool
  pub remove : FsPath → Disk → Disk × Bool
  pub rename : FsPath → FsPath → Disk → Disk × Bool
  -- `is_empty(p, ec)`, which is false where `ec` is set.
  pub is_empty : FsPath → Disk → Bool
  -- `ofstream{p, binary | app}`; `none` is a `filesystem_error`.
  pub open_append : FsPath → Disk → Option (Disk × Stream)
  pub open_truncate : FsPath → Disk → Option (Disk × Stream)
  -- Whether `!stream` is false.
  pub good : Stream → Bool
  pub write : Stream → Bytes → Disk → Disk × Stream
  pub flush : Stream → Disk → Disk × Stream
  pub close : Stream → Disk → Disk × Stream
  pub read_file : FsPath → Disk → FileRead
  -- The regular files below a directory, as far as the iteration comes, and whether it ends with
  -- a `filesystem_error`.
  pub regular_files : FsPath → Disk → List FsPath × Bool
  -- `regex_match` of a line with a pattern: its groups, where it matches.
  pub regex_match : Bytes → Bytes → Option (List Bytes)
  pub md5 : Bytes → List ℕ
  pub hex_ints : List ℕ → Bytes
  pub sha512 : Bytes → Bytes
  pub hex_chars : Bytes → Bytes
  -- What is read from the buffer of a `std::string` with this text once the string is destroyed. The
  -- language does not say; nothing is assumed of it.
  pub released : Bytes → Bytes
