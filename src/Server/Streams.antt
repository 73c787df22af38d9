-- ===== src/Server/Streams.antt =====
-- server/core/open_streams.cpp: the streams that are open, by user, one to a user. Users are equal
-- where their ids are.
use remote_backup_m.Prelude.{Bool, true, false, Bytes, List, Option, none, some, bytes_eq}
use remote_backup_m.Shared.Dir.{find, put, without}
use remote_backup_m.Shared.Platform.{Platform}

module _ (P : Platform) where
  open P use {FsPath, Disk, Stream}

  abbrev pub Streams : Type 0
  Streams = List (Bytes × Stream)

  pub record GetStream : Type 0 where
    pub disk : Disk
    pub streams : Streams
    pub stream : Stream
    -- Whether the stream was made by this call.
    pub inserted : Bool

  abbrev pub emplace : Bytes → Stream → Disk → Streams → Option Stream → GetStream
  emplace id made disk streams none = record {
    disk = disk;
    streams = put id made streams;
    stream = made;
    inserted = true;
  }
  emplace id made disk streams (some old) = record {
    disk = disk;
    streams = streams;
    stream = old;
    inserted = false;
  }

  -- A stream on `path` is opened first, also where the user has one already: that one is returned,
  -- and the new one is dropped. `none` is a `filesystem_error`.
  unfoldable pub get_stream : Bytes → FsPath → Disk → Streams → Option GetStream
  get_stream id path disk streams = elim (P.open_append path disk) [
    | none ↦ none
    | some (disk', made) ↦ some (emplace id made disk' streams (find id streams))
  ]

  unfoldable pub erase_stream : Bytes → Streams → Streams
  erase_stream id streams = without id streams
