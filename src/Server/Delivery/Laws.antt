-- ===== src/Server/Delivery/Laws.antt =====
-- What the upload of a file relies on of the file system.
use remote_backup_m.Prelude.{◌≡◌, true, false, [], ◌++◌, Bytes, some}
use remote_backup_m.Shared.Platform.{Platform, contents}

-- A file at `path` that is only written through one stream, which appends. `Fresh` is a disk where it
-- can be created, and `Written` one where it has these bytes, some of them maybe still in the stream.
-- Opening the file again, for a stream that is dropped unused, changes nothing of that.
pub record Appends (P : Platform) (path : P.FsPath) : Type 1 where
  pub Fresh : P.Disk → Type 0
  pub Written : P.Stream → Bytes → P.Disk → Type 0
  pub dirs_fresh :
      (disk : P.Disk)
      → Fresh disk
      → (made : P.Disk) × (P.create_directories (P.parent_path path) disk ≡ (made, false))
        × Fresh made
  pub dirs_written :
      (stream : P.Stream) (bytes : Bytes) (disk : P.Disk)
      → Written stream bytes disk
      → (made : P.Disk) × (P.create_directories (P.parent_path path) disk ≡ (made, false))
        × Written stream bytes made
  pub open_fresh :
      (disk : P.Disk)
      → Fresh disk
      → (opened : P.Disk) × (stream : P.Stream) × (P.open_append path disk ≡ some (opened, stream))
        × Written stream [] opened
  pub open_again :
      (stream : P.Stream) (bytes : Bytes) (disk : P.Disk)
      → Written stream bytes disk
      → (opened : P.Disk) × (dropped : P.Stream) × (P.open_append path disk
          ≡ some (opened, dropped))
        × Written stream bytes opened
  pub good :
      (stream : P.Stream) (bytes : Bytes) (disk : P.Disk)
      → Written stream bytes disk
      → P.good stream ≡ true
  pub write :
      (stream : P.Stream) (bytes chunk : Bytes) (disk : P.Disk)
      → Written stream bytes disk
      → Written (P.write stream chunk disk).1 (bytes ++ chunk) (P.write stream chunk disk).0
  pub flush :
      (stream : P.Stream) (bytes : Bytes) (disk : P.Disk)
      → Written stream bytes disk
      → Written (P.flush stream disk).1 bytes (P.flush stream disk).0
  pub close :
      (stream : P.Stream) (bytes : Bytes) (disk : P.Disk)
      → Written stream bytes disk
      → P.read_file path (P.close stream disk).0 ≡ contents bytes
