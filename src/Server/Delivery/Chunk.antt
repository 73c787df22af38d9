-- ===== src/Server/Delivery/Chunk.antt =====
-- One chunk of an upload that nothing disturbs.
use remote_backup_m.Prelude.{
  ◌≡◌, ◌∙◌, Bool, true, false, List, [], ◌++◌, Bytes, none, some, ok, Eq, ◌=?◌, bytes_eq,
  if◌then◌else◌, ◌>>=◌,
}
use remote_backup_m.Shared.Types.{ErrType}
use remote_backup_m.Shared.View.{View, value, verify_end}
use remote_backup_m.Shared.Platform.{Platform, contents}
use remote_backup_m.Shared.Dir.{Dir, find, put, rsrc}
use remote_backup_m.Shared.Dir.Entries.{NodupKeys, beq_refl, find-put, put-NodupKeys}
use remote_backup_m.Server.Resource.{SResource}
use remote_backup_m.Server.User.{User, dir}
use remote_backup_m.Server.Streams.{Streams, get_stream}
use remote_backup_m.Server.Queue.{Queue}
use remote_backup_m.Server.Session.{Session, accept}
use remote_backup_m.Server.Handler.Upload.{
  temp_digest, verify_upload, close_stream, note_chunk, create_write, create_stream, is_synced,
  create_content,
}
use remote_backup_m.Server.Delivery.Laws.{Appends}

-- An upload: the user `u`, whose directory is at `root`, sends the file `rel` with this digest. `c0` are
-- the entries before.
pub record Upload (P : Platform) : Type 1 where
  pub u : User P.FsPath
  pub root : P.FsPath
  pub shared : Bool
  pub rel : P.FsPath
  pub digest : Bytes
  pub c0 : List (P.FsPath × SResource)
  pub laws : Appends P (P.join root rel)

module _ (P : Platform) ⦃e : Eq P.FsPath⦄ (U : Upload P) where
  open U use {u, root, shared, rel, digest, c0, laws}

  abbrev pub Entries : Type 0
  Entries = List (P.FsPath × SResource)

  abbrev pub dir_of : List (P.FsPath × SResource) → Dir P.FsPath SResource
  dir_of c = record { path = root; content = c; concurrent_accessed = shared }

  abbrev pub session : List (P.FsPath × SResource) → Streams P → P.Disk → Queue → Session P
  session c streams disk q = record {
    disk = disk;
    streams = streams;
    user = record u { dir_ptr = some (dir_of c) };
    replies = q;
  }

  -- No path has two entries, no user two streams, and the other entries are as before.
  pub record Tidy (c : List (P.FsPath × SResource)) (streams : Streams P) : Type 0 where
    pub entries : NodupKeys c
    pub users : NodupKeys streams
    pub others : (j : P.FsPath) → (rel =? j) ≡ false → find j c ≡ find j c0

  -- Nothing of the file was received.
  pub record Untouched (c : List (P.FsPath × SResource)) (streams : Streams P) (disk : P.Disk)
      : Type 0 where
    pub tidy : Tidy c streams
    pub no_entry : find rel c ≡ none
    pub no_stream : find u.id streams ≡ none
    pub fresh : laws.Fresh disk

  -- These bytes were received, and more are to come.
  pub record Going (c : List (P.FsPath × SResource)) (streams : Streams P) (disk : P.Disk)
      (bytes : Bytes) : Type 0 where
    pub tidy : Tidy c streams
    pub entry : find rel c ≡ some (record { synced = false; digest = temp_digest })
    pub stream : P.Stream
    pub found : find u.id streams ≡ some stream
    pub written : laws.Written stream bytes disk

  -- The file was received.
  pub record Complete (c : List (P.FsPath × SResource)) (streams : Streams P) (disk : P.Disk)
      (bytes : Bytes) : Type 0 where
    pub tidy : Tidy c streams
    pub entry : find rel c ≡ some (record { synced = true; digest = digest })
    pub closed : find u.id streams ≡ none
    pub stored : P.read_file (P.join root rel) disk ≡ contents bytes

  -- The stream that the chunk is written to, and what the entry of the path is.
  pub record Opened (first : Bool) (c : Entries) (streams : Streams P) (disk : P.Disk)
      (bytes : Bytes) : Type 0 where
    pub made : P.Disk
    pub opened : P.Disk
    pub stream : P.Stream
    pub streams' : Streams P
    pub dirs : P.create_directories (P.parent_path (P.join root rel)) disk ≡ (made, false)
    pub got :
        get_stream P u.id (P.join root rel) made streams
        ≡ some (record { disk = opened; streams = streams'; stream = stream; inserted = first })
    pub written : laws.Written stream bytes opened
    pub users : NodupKeys streams'
    pub unsynced : is_synced P (find rel c) ≡ false

  pub Untouched-Opened :
      (c : Entries) (streams : Streams P) (disk : P.Disk)
      → Untouched c streams disk
      → Opened true c streams disk []
  unfolding get_stream
  Untouched-Opened c streams disk b =
      let (made, d, f) = laws.dirs_fresh disk b.fresh in
      let (opened, stream, o, w) = laws.open_fresh made f in
      record {
        made = made;
        opened = opened;
        stream = stream;
        streams' = put u.id stream streams;
        dirs = d;
        got = rw (get_stream, o, b.no_stream);
        written = w;
        users = put-NodupKeys u.id stream streams b.tidy.users;
        unsynced = rw b.no_entry;
      }

  pub Going-Opened :
      (c : Entries) (streams : Streams P) (disk : P.Disk) (bytes : Bytes)
      → Going c streams disk bytes
      → Opened false c streams disk bytes
  unfolding get_stream
  Going-Opened c streams disk bytes b =
      let (made, d, f) = laws.dirs_written b.stream bytes disk b.written in
      let (opened, dropped, o, w) = laws.open_again b.stream bytes made f in
      record {
        made = made;
        opened = opened;
        stream = b.stream;
        streams' = streams;
        dirs = d;
        got = rw (get_stream, o, b.found);
        written = w;
        users = b.tidy.users;
        unsynced = rw b.entry;
      }

  -- A chunk up to the note of it.
  module _ (first last : Bool) (c : Entries) (streams : Streams P) (disk : P.Disk)
      (bytes chunk : Bytes) (v : View) (q : Queue) (o : Opened first c streams disk bytes)
      (shown : value v ≡ ok chunk) (ends : verify_end v ≡ ok last) where
    abbrev pub flushed : P.Disk × P.Stream
    flushed = P.flush (P.write o.stream chunk o.opened).1 (P.write o.stream chunk o.opened).0

    abbrev pub noting : Session P
    noting = session c (put u.id flushed.1 o.streams') flushed.0 q

    pub create_content-noting : create_content P rel digest v (session c streams disk q) ≡ (
        note_chunk P first last rel digest temp_digest noting >>= λ noted.
        if last
        then verify_upload P
            (P.join root rel)
            rel
            digest
            ErrType.create_no_match
            ErrType.create_failed
            (close_stream P flushed.1 noted)
        else accept P noted)
    unfolding create_content create_stream create_write dir rsrc
    create_content-noting = rw (
      o.unsynced,
      o.dirs,
      create_stream,
      o.got,
      laws.good o.stream bytes o.opened o.written,
      shown,
      ends,
    )

    pub flushed-Written : laws.Written flushed.1 (bytes ++ chunk) flushed.0
    flushed-Written =
        laws.flush _ (bytes ++ chunk) _ (laws.write o.stream bytes chunk o.opened o.written)

  abbrev pub entry : Bool → Bytes → SResource
  entry synced d = record { synced = synced; digest = d }

  pub Tidy-put :
      (c : Entries) (streams streams' : Streams P) (r : SResource)
      → Tidy c streams
      → NodupKeys streams'
      → Tidy (put rel r c) streams'
  Tidy-put c streams streams' r t n = record {
    entries = put-NodupKeys rel r c t.entries;
    users = n;
    others = λ j h. find-put rel j r c ∙ rw h (t.others j h);
  }

  pub find-put_self :
      {K R : Type 0} ⦃f : Eq K⦄ (k : K) (r : R) (m : List (K × R)) → find k (put k r m) ≡ some r
  find-put_self k r m = find-put k k r m ∙ rw (beq_refl k)
