-- ===== src/Tests/FileRuns.antt =====
-- Snapshots on a disk in memory.
use colyseus_rs.Base.{
  ℕ, Option, none, some, Text, List, [], ◌∷◌, text, ◌==◌, text_eq, text_eqb, text_sound,
  text-reflexive, ◌≡◌, ◌≢◌, refl, ◌∙◌, if◌then◌else◌, Bool-cases, inl, inr,
}
use colyseus_rs.Base.Maps.{is_some}
use colyseus_rs.Base.Result.{Result, ok, err}
use colyseus_rs.Base.Decimal.{to_string}
use colyseus_rs.Room.Snapshot.Envelope.{sanitize, file_path, is_plain}
use colyseus_rs.Room.Snapshot.Files.{
  FileSystem, RemoveError, not_found, tmp_path, save, load, save_op, delete_op, flush_op,
  SnapshotOp, strip_suffix, list_room_ids, quarantine,
}
use colyseus_rs.Room.Snapshot.Files.Atomic.{IsLawful, effect, save_atomic}

-- A disk in memory that does not list its files.
abbrev Memory : Type 0
Memory = Text → Option (List ℕ)

abbrev store : Memory → Text → Option (List ℕ) → Memory
store d name held j = if j == name then held else d j

abbrev moved : Memory → Text → Text → Option (List ℕ) → Memory × Result Text Unit
moved d from to none = (d, err (text "no such file"))
moved d from to (some bytes) = (store (store d from none) to (some bytes), ok tt)

abbrev dropped : Memory → Text → Option (List ℕ) → Memory × Result RemoveError Unit
dropped d name none = (d, err not_found)
dropped d name (some bytes) = (store d name none, ok tt)

abbrev memory : FileSystem
memory = record {
  Disk = Memory;
  read = λ d name. d name;
  exists = λ d name. is_some (d name);
  write = λ d name bytes. (store d name (some bytes), ok tt);
  sync_all = λ d name. d;
  rename = λ d from to. moved d from to (d from);
  remove_file = λ d name. dropped d name (d name);
  read_dir = λ d. [];
}

store_self : (d : Memory) (name : Text) (held : Option (List ℕ)) → store d name held name ≡ held
store_self d name held = rw (text-reflexive name) refl

store_other :
    (d : Memory) (name j : Text) (held : Option (List ℕ)) → j ≢ name → store d name held j ≡ d j
store_other d name j held ne = elim (Bool-cases (j == name)) [
  | inl e ↦ absurd (ne (text_sound j name e))
  | inr other ↦ rw other refl
]

memory-IsLawful : IsLawful memory
memory-IsLawful = record {
  write_ok = λ d name bytes h. store_self d name (some bytes);
  write_others = λ d name j bytes ne. store_other d name j (some bytes) ne;
  sync_reads = λ d name j. refl;
  rename_ok = λ d from to h. moved_ok d from to (d from) h;
  rename_others = λ d from to j other ne. moved_others d from to j (d from) other ne;
  rename_err = λ d from to j e h. moved_err d from to j e (d from) h;
  remove_ok = λ d name h. dropped_ok d name (d name) h;
  remove_not_found = λ d name h. absent d name (d name) h;
  remove_others = λ d name j ne. dropped_others d name j (d name) ne;
  remove_err = λ d name j e h. dropped_err d name j e (d name) h;
}
  where
    moved_ok :
        (d : Memory) (from to : Text) (o : Option (List ℕ))
        → (moved d from to o).1 ≡ ok tt
        → (moved d from to o).0 to ≡ o
    moved_ok d from to none h = cc h
    moved_ok d from to (some bytes) h = store_self (store d from none) to (some bytes)

    moved_others :
        (d : Memory) (from to j : Text) (o : Option (List ℕ))
        → j ≢ from
        → j ≢ to
        → (moved d from to o).0 j ≡ d j
    moved_others d from to j none other ne = refl
    moved_others d from to j (some bytes) other ne =
        store_other (store d from none) to j (some bytes) ne ∙ store_other d from j none other

    moved_err :
        (d : Memory) (from to j e : Text) (o : Option (List ℕ))
        → (moved d from to o).1 ≡ err e
        → (moved d from to o).0 j ≡ d j
    moved_err d from to j e none h = refl
    moved_err d from to j e (some bytes) h = cc h

    dropped_ok :
        (d : Memory) (name : Text) (o : Option (List ℕ))
        → (dropped d name o).1 ≡ ok tt
        → (dropped d name o).0 name ≡ none
    dropped_ok d name none h = cc h
    dropped_ok d name (some bytes) h = store_self d name none

    absent :
        (d : Memory) (name : Text) (o : Option (List ℕ))
        → (dropped d name o).1 ≡ err not_found
        → o ≡ none
    absent d name none h = refl
    absent d name (some bytes) h = cc h

    dropped_others :
        (d : Memory) (name j : Text) (o : Option (List ℕ)) → j ≢ name → (dropped d name o).0 j ≡ d j
    dropped_others d name j none ne = refl
    dropped_others d name j (some bytes) ne = store_other d name j none ne

    dropped_err :
        (d : Memory) (name j : Text) (e : RemoveError) (o : Option (List ℕ))
        → (dropped d name o).1 ≡ err e
        → (dropped d name o).0 j ≡ d j
    dropped_err d name j e none h = refl
    dropped_err d name j e (some bytes) h = cc h

abbrev empty_disk : Memory
empty_disk j = none

save_atomic_example :
    (load memory (memory.write empty_disk (tmp_path (text "r")) (1 ∷ [])).0 (text "r") ≡ none)
    × (load memory (memory.write empty_disk (tmp_path (text "r")) (1 ∷ [])).0 (text "r") ≡ none)
    × (load memory (save memory empty_disk (text "r") (1 ∷ [])).0 (text "r")
        ≡ effect
            (save_op (text "r") (1 ∷ []))
            (save memory empty_disk (text "r") (1 ∷ [])).1
            (text "r")
            none)
unfolding load
save_atomic_example = save_atomic memory memory-IsLawful empty_disk (text "r") (text "r") (1 ∷ [])

abbrev queue : List SnapshotOp
queue =
    save_op (text "r") (1 ∷ []) ∷ save_op (text "s") (2 ∷ []) ∷ delete_op (text "r") ∷ flush_op ∷ []

-- A quarantined snapshot is no longer found.
quarantined :
    load memory
      (quarantine memory (store empty_disk (text "r.snap") (some [])) (text "r") 7)
      (text "r")
    ≡ none
unfolding load quarantine file_path sanitize text_eqb to_string is_plain
quarantined = refl

-- A temporary file is no snapshot.
listed :
    list_room_ids (record memory { read_dir = λ d. text "r.snap" ∷ text ".s.tmp" ∷ [] }) empty_disk
    ≡ text "r" ∷ []
unfolding list_room_ids strip_suffix text_eqb
listed = refl
