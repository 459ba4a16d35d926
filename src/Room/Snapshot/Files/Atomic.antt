-- ===== src/Room/Snapshot/Files/Atomic.antt =====
-- What saves and deletions leave on the disk, also where they fail.
use colyseus_rs.Base.{
  ℕ, Bool, true, Option, none, some, Text, List, [], ◌∷◌, ◌++◌, text, ◌==◌, text_eq, text_sound,
  text-reflexive, ◌≡◌, ◌≢◌, refl, ap, ◌∙◌, arith, nat_eqb, any, if◌then◌else◌, Bool-cases, inl, inr,
}
use colyseus_rs.Base.Result.{Result, ok, err}
use colyseus_rs.Room.Snapshot.Envelope.{sanitize, file_path, is_plain}
use colyseus_rs.Room.Snapshot.Files.{
  FileSystem, RemoveError, not_found, tmp_path, save, load, rename_synced, SnapshotOp, save_op,
  delete_op,
}

-- What the store relies on of `std::fs`: an operation touches the files that it names, a write or a
-- renaming that succeeds does what it says, and what fails to rename or to remove stays.
pub record IsLawful (fs : FileSystem) : Type 0 where
  pub write_ok :
      (d : fs.Disk) (name : Text) (bytes : List ℕ)
      → (fs.write d name bytes).1 ≡ ok tt
      → fs.read (fs.write d name bytes).0 name ≡ some bytes
  pub write_others :
      (d : fs.Disk) (name j : Text) (bytes : List ℕ)
      → j ≢ name
      → fs.read (fs.write d name bytes).0 j ≡ fs.read d j
  pub sync_reads : (d : fs.Disk) (name j : Text) → fs.read (fs.sync_all d name) j ≡ fs.read d j
  pub rename_ok :
      (d : fs.Disk) (from to : Text)
      → (fs.rename d from to).1 ≡ ok tt
      → fs.read (fs.rename d from to).0 to ≡ fs.read d from
  pub rename_others :
      (d : fs.Disk) (from to j : Text)
      → j ≢ from
      → j ≢ to
      → fs.read (fs.rename d from to).0 j ≡ fs.read d j
  pub rename_err :
      (d : fs.Disk) (from to j : Text) (e : Text)
      → (fs.rename d from to).1 ≡ err e
      → fs.read (fs.rename d from to).0 j ≡ fs.read d j
  pub remove_ok :
      (d : fs.Disk) (name : Text)
      → (fs.remove_file d name).1 ≡ ok tt
      → fs.read (fs.remove_file d name).0 name ≡ none
  pub remove_not_found :
      (d : fs.Disk) (name : Text)
      → (fs.remove_file d name).1 ≡ err not_found
      → fs.read d name ≡ none
  pub remove_others :
      (d : fs.Disk) (name j : Text) → j ≢ name → fs.read (fs.remove_file d name).0 j ≡ fs.read d j
  pub remove_err :
      (d : fs.Disk) (name j : Text) (e : RemoveError)
      → (fs.remove_file d name).1 ≡ err e
      → fs.read (fs.remove_file d name).0 j ≡ fs.read d j

is_dot : ℕ → Bool
is_dot c = nat_eqb c b'.'

dot_in_tmp : (s : Text) → any is_dot (s ++ text ".tmp") ≡ true
unfolding is_dot
dot_in_tmp [] = refl
dot_in_tmp (c ∷ s) = ground (arith, dot_in_tmp s)

abbrev first : Text → ℕ
first [] = 0
first (c ∷ s) = c

abbrev rest : Text → Text
rest [] = []
rest (c ∷ s) = s

plain-ne-dot : (c : ℕ) → (if is_plain c then c else 95) ≢ b'.'
unfolding is_plain
plain-ne-dot c h = ground (arith, h)

-- No snapshot has the name of a temporary file.
file_path-ne-tmp_path : (i j : Text) → file_path j ≢ tmp_path i
unfolding file_path tmp_path sanitize is_dot
file_path-ne-tmp_path i [] h =
    let dots = ap (λ s. any is_dot (rest s)) h in cc (dot_in_tmp (sanitize i))
file_path-ne-tmp_path i (c ∷ j) h = plain-ne-dot c (ap first h)

-- What an operation with its outcome makes of the snapshot of the room `j`.
abbrev pub effect : SnapshotOp → Result Text Unit → Text → Option (List ℕ) → Option (List ℕ)
effect (save_op id bytes) (ok u) j held = if file_path j == file_path id then some bytes else held
effect (delete_op id) (ok u) j held = if file_path j == file_path id then none else held
effect _ _ j held = held

abbrev pub replay : List (SnapshotOp × Result Text Unit) → Text → Option (List ℕ) → Option (List ℕ)
replay [] j held = held
replay ((op, r) ∷ log) j held = replay log j (effect op r j held)

module _ (fs : FileSystem) (lawful : IsLawful fs) where
  -- The reading of a file where another one was changed, or that one.
  chosen :
      (i j : Text) (x y z : Option (List ℕ))
      → (i ≡ j → x ≡ y)
      → (i ≢ j → x ≡ z)
      → x ≡ (if i == j then y else z)
  chosen i j x y z same other = elim (Bool-cases (i == j)) [
    | inl e ↦ rw e (same (text_sound i j e))
    | inr ne ↦ rw ne (other (λ p. cc (text-reflexive i, ap (λ k. i == k) p)))
  ]

  load-write_tmp :
      (d : fs.Disk) (id j : Text) (bytes : List ℕ)
      → load fs (fs.write d (tmp_path id) bytes).0 j ≡ load fs d j
  unfolding load
  load-write_tmp d id j bytes =
      lawful.write_others d (tmp_path id) (file_path j) bytes (file_path-ne-tmp_path id j)

  load-rename :
      (d : fs.Disk) (id j : Text) (r : Result Text Unit) (bytes : List ℕ)
      → (fs.rename d (tmp_path id) (file_path id)).1 ≡ r
      → fs.read d (tmp_path id) ≡ some bytes
      → load fs (fs.rename d (tmp_path id) (file_path id)).0 j
        ≡ effect (save_op id bytes) r j (load fs d j)
  unfolding load
  load-rename d id j (err e) bytes h tmp =
      lawful.rename_err d (tmp_path id) (file_path id) (file_path j) e h
  load-rename d id j (ok u) bytes h tmp =
      chosen (file_path j) (file_path id) _ (some bytes) (fs.read d (file_path j))
        (λ p.
          ap (λ k. fs.read (fs.rename d (tmp_path id) (file_path id)).0 k) p
          ∙ lawful.rename_ok d (tmp_path id) (file_path id) h
          ∙ tmp)
        (λ ne.
          lawful.rename_others d (tmp_path id) (file_path id) (file_path j)
            (file_path-ne-tmp_path id j) ne)

  load-rename_synced :
      (d w : fs.Disk) (r : Result Text Unit) (id j : Text) (bytes : List ℕ)
      → load fs w j ≡ load fs d j
      → (r ≡ ok tt → fs.read w (tmp_path id) ≡ some bytes)
      → load fs (rename_synced fs id (w, r)).0 j
        ≡ effect (save_op id bytes) (rename_synced fs id (w, r)).1 j (load fs d j)
  unfolding rename_synced load
  load-rename_synced d w (err e) id j bytes same tmp = same
  load-rename_synced d w (ok u) id j bytes same tmp =
      let synced = fs.sync_all w (tmp_path id) in
      let r = (fs.rename synced (tmp_path id) (file_path id)).1 in
      load-rename synced id j r bytes refl
        (lawful.sync_reads w (tmp_path id) (tmp_path id) ∙ tmp refl)
      ∙ ap (effect (save_op id bytes) r j) (lawful.sync_reads w (tmp_path id) (file_path j) ∙ same)

  -- At each step of a save every snapshot is as before, also where the save stops there, until the
  -- renaming; a save that succeeds then replaces the snapshots of that file, and one that fails none,
  -- if the file system is lawful.
  pub save_atomic :
      (d : fs.Disk) (id j : Text) (bytes : List ℕ)
      → let written = (fs.write d (tmp_path id) bytes).0 in
        (load fs written j ≡ load fs d j)
        × (load fs (fs.sync_all written (tmp_path id)) j ≡ load fs d j)
        × (load fs (save fs d id bytes).0 j
            ≡ effect (save_op id bytes) (save fs d id bytes).1 j (load fs d j))
  unfolding save load
  save_atomic d id j bytes =
      let w = fs.write d (tmp_path id) bytes in
      let same = load-write_tmp d id j bytes in
      (
        same,
        lawful.sync_reads w.0 (tmp_path id) (file_path j) ∙ same,
        load-rename_synced d w.0 w.1 id j bytes same (lawful.write_ok d (tmp_path id) bytes),
      )
