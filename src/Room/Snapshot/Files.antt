-- ===== src/Room/Snapshot/Files.antt =====
-- Where snapshots go: `FileSnapshotStore` and the thread of `SnapshotWriter` of
-- crates/colyseus/src/snapshot.rs. A disk is the store's directory.
pub mod Atomic
use colyseus_rs.Base.{
  ℕ, Bool, true, false, Option, none, some, Text, List, [], ◌∷◌, ◌++◌, text, if◌then◌else◌, ◌==◌,
  text_eq,
}
use colyseus_rs.Base.Result.{Result, ok, err}
use colyseus_rs.Base.Decimal.{to_string}
use colyseus_rs.Room.Snapshot.Envelope.{sanitize, file_path}

pub data RemoveError : Type 0 where
  not_found : RemoveError
  other_error : Text → RemoveError

-- What the code uses of `std::fs`. A write that fails may leave anything in its file.
pub record FileSystem : Type 1 where
  pub Disk : Type 0
  pub read : Disk → Text → Option (List ℕ)
  pub exists : Disk → Text → Bool
  pub write : Disk → Text → List ℕ → Disk × Result Text Unit
  pub sync_all : Disk → Text → Disk
  pub rename : Disk → Text → Text → Disk × Result Text Unit
  pub remove_file : Disk → Text → Disk × Result RemoveError Unit
  pub read_dir : Disk → List Text

-- `str::strip_suffix`
unfoldable pub strip_suffix : Text → Text → Option Text
strip_suffix suffix [] = if suffix == [] then some [] else none
strip_suffix suffix (c ∷ s) = elim (strip_suffix suffix s) [
  | some stem ↦ some (c ∷ stem)
  | none ↦ if suffix == (c ∷ s) then some [] else none
]

-- The file that a save writes before it takes the place of the snapshot.
unfoldable pub tmp_path : Text → Text
tmp_path id = text "." ++ (sanitize id ++ text ".tmp")

abbrev stems : List Text → List Text
stems [] = []
stems (name ∷ names) = elim (strip_suffix (text ".snap") name) [
  | some stem ↦ stem ∷ stems names
  | none ↦ stems names
]

module _ (fs : FileSystem) where
  open fs use {Disk}

  rename_synced : Text → Disk × Result Text Unit → Disk × Result Text Unit
  rename_synced id (d, err e) = (d, err e)
  rename_synced id (d, ok u) = fs.rename (fs.sync_all d (tmp_path id)) (tmp_path id) (file_path id)

  unfoldable pub save : Disk → Text → List ℕ → Disk × Result Text Unit
  unfolding rename_synced
  save d id bytes = rename_synced id (fs.write d (tmp_path id) bytes)

  unfoldable pub load : Disk → Text → Option (List ℕ)
  load d id = fs.read d (file_path id)

  -- A file that is not there is no error.
  removed : Disk × Result RemoveError Unit → Disk × Result Text Unit
  removed (d, ok u) = (d, ok u)
  removed (d, err not_found) = (d, ok tt)
  removed (d, err (other_error e)) = (d, err e)

  unfoldable pub delete : Disk → Text → Disk × Result Text Unit
  unfolding removed
  delete d id = removed (fs.remove_file d (file_path id))

  unfoldable pub list_room_ids : Disk → List Text
  list_room_ids d = stems (fs.read_dir d)

  -- At the time `ts`; the snapshot stays where the renaming fails.
  unfoldable pub quarantine : Disk → Text → ℕ → Disk
  quarantine d id ts =
      if fs.exists d (file_path id)
      then (fs.rename d (file_path id) (sanitize id ++ text ".corrupt-" ++ to_string ts)).0
      else d

pub data SnapshotOp : Type 0 where
  save_op : Text → List ℕ → SnapshotOp
  delete_op : Text → SnapshotOp
  flush_op : SnapshotOp

module _ (fs : FileSystem) where
  open fs use {Disk}

  -- One operation of the writer's thread. A failure is only logged, and a flush is acknowledged.
  unfoldable pub perform : Disk → SnapshotOp → Disk × Result Text Unit
  perform d (save_op id bytes) = save fs d id bytes
  perform d (delete_op id) = delete fs d id
  perform d flush_op = (d, ok tt)

  -- The thread until its queue is empty, with the outcome of each operation.
  unfoldable pub write_all : Disk → List SnapshotOp → Disk × List (SnapshotOp × Result Text Unit)
  write_all d [] = (d, [])
  write_all d (op ∷ ops) =
      let one = perform d op in let rest = write_all one.0 ops in (rest.0, (op, one.1) ∷ rest.1)
