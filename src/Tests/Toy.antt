-- ===== src/Tests/Toy.antt =====
-- A platform that runs: paths are their texts, a disk is a list of files, and a stream is the path
-- of its file. The hashes are the texts themselves.
use remote_backup_m.Prelude.{
  not, ◌&&◌, ◌||◌, ◌=?◌, Bool, true, false, List, [], ◌∷◌, ◌++◌, Bytes, Option, none, some, ◌==◌,
  bytes_eq, if◌then◌else◌,
}
use remote_backup_m.Shared.Tools.{starts_with}
use remote_backup_m.Shared.Dir.{find, put, without}
use remote_backup_m.Shared.Platform.{Platform, FileRead, contents, unopened}

abbrev pub Files : Type 0
Files = List (Bytes × Bytes)

abbrev pub has_slash : Bytes → Bool
has_slash [] = false
has_slash (x ∷ xs) = if x == 47 then true else has_slash xs

-- The text before the last `/`.
abbrev pub parent_of : Bytes → Bytes
parent_of [] = []
parent_of (c ∷ cs) = elim (has_slash cs) [ true ↦ c ∷ parent_of cs | false ↦ [] ]

-- The text up to the last zero byte, and the text behind it.
abbrev pub last_zero : Bytes → Option (List Bytes)
last_zero [] = none
last_zero (c ∷ cs) = elim (last_zero cs) [
  | none ↦ if c == 0 then some ([] ∷ cs ∷ []) else none
  | some [] ↦ none
  | some (a ∷ rest) ↦ some ((c ∷ a) ∷ rest)
]

abbrev pub read : Option Bytes → FileRead
read none = unopened
read (some bytes) = contents bytes

abbrev pub append_to : Bytes → Bytes → Files → Files
append_to p bytes disk = elim (find p disk) [
  | none ↦ put p bytes disk
  | some old ↦ put p (old ++ bytes) disk
]

abbrev pub touch : Bytes → Files → Files
touch p disk = elim (find p disk) [ none ↦ put p [] disk | some old ↦ disk ]

abbrev pub move : Bytes → Bytes → Files → Files
move p q disk = elim (find p disk) [ none ↦ disk | some bytes ↦ put q bytes (without p disk) ]

abbrev pub names : Files → List Bytes
names [] = []
names ((p, b) ∷ disk) = p ∷ names disk

-- A file whose path begins with this text.
abbrev pub has_below : Bytes → Files → Bool
has_below p [] = false
has_below p ((q, b) ∷ disk) = starts_with p q || has_below p disk

abbrev pub toy : Platform
toy = record {
  FsPath = Bytes;
  path = λ s. s;
  string = λ p. p;
  join = λ p q. p ++ (47 ∷ q);
  parent_path = parent_of;
  append_text = λ p s. p ++ s;
  Disk = Files;
  Stream = Bytes;
  exists = λ p d. elim (find p d) [ none ↦ false | some b ↦ true ];
  create_directories = λ p d. (d, false);
  remove = λ p d. (without p d, false);
  rename = λ p q d. (move p q d, false);
  is_empty = λ p d. not (p =? []) && not (has_below (p ++ (47 ∷ [])) d);
  open_append = λ p d. some (touch p d, p);
  open_truncate = λ p d. some (put p [] d, p);
  good = λ s. true;
  write = λ s b d. (append_to s b d, s);
  flush = λ s d. (d, s);
  close = λ s d. (d, s);
  read_file = λ p d. read (find p d);
  regular_files = λ p d. (names d, false);
  regex_match = λ r s. last_zero s;
  md5 = λ s. s;
  hex_ints = λ s. s;
  sha512 = λ s. s;
  hex_chars = λ s. s;
  released = λ s. s;
}
