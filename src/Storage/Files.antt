-- ===== src/Storage/Files.antt =====
-- Reads after writes of `JsonStore`, crates/oan-storage/src/lib.rs.
use open_agenet.Base.{String, ◌≡◌, refl, true, false, arith, ◌==◌, ok, err, if◌then◌else◌}
use open_agenet.Base.Maps.{lookup-insert}
use open_agenet.Storage.{Disk, io, holds, Files, JsonStore, resolve, read, write}

module _ {A : Type 0} where
  -- Where the disk takes the write, the file is there and reads as what was written; other paths
  -- read as before.
  pub read-write :
      (disk : Disk) (store : JsonStore) (path other : String) (value : A) (files : Files A)
      → disk (resolve store path) ≡ true
      → ((write disk store path value files).0 ≡ ok tt)
        × (read store other (write disk store path value files).1 ≡ (
            if resolve store path == resolve store other then ok value else read store other files))
  unfolding read write
  read-write disk store path other value files allowed = rw allowed (
    refl,
    ground (arith, lookup-insert (resolve store path) (resolve store other) (holds value) files),
  )

  -- Where the disk refuses the write, it is an I/O error and the files are as before.
  pub write_refused :
      (disk : Disk) (store : JsonStore) (path : String) (value : A) (files : Files A)
      → disk (resolve store path) ≡ false
      → write disk store path value files ≡ (err io, files)
  unfolding write
  write_refused disk store path value files refused = rw refused
