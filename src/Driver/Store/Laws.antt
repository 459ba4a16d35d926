-- ===== src/Driver/Store/Laws.antt =====
-- The driver as a map from room ids, whose cached JSON forms stay true.
use colyseus_rs.Base.{
  Option, text_sound, none, some, Text, [], ◌∷◌, ◌==◌, text_eq, if◌then◌else◌, ◌≡◌, refl, arith,
  Bool-cases, Option-cases, inl, inr,
}
use colyseus_rs.Base.Maps.{
  lookup, put, erase, is_some, lookup-put, lookup-erase, Distinct, put-Distinct, erase-Distinct,
}
use colyseus_rs.Driver.{Numbers, RoomListing, to_flat_value}
use colyseus_rs.Driver.Store.{LocalDriver, entry, get, insert, update_by_id, remove, clear}

module _ {N : Type 0} (num : Numbers N) where
  -- The flat form of each entry is that of its listing.
  abbrev pub Flattened : LocalDriver N → Type 0
  Flattened [] = Unit
  Flattened ((k, e) ∷ d) = (e.flat ≡ to_flat_value num e.listing) × Flattened d

  pub record IsConsistent (d : LocalDriver N) : Type 0 where
    pub distinct : Distinct d
    pub flattened : Flattened d

  put-Flattened :
      (k : Text) (l : RoomListing N) (d : LocalDriver N)
      → Flattened d
      → Flattened (put k (entry num l) d)
  unfolding put
  put-Flattened k l [] f = (refl, tt)
  put-Flattened k l ((i, b) ∷ d) f = elim (Bool-cases (k == i)) [
    | inl same ↦ rw same (refl, f.1)
    | inr differ ↦ rw differ (f.0, put-Flattened k l d f.1)
  ]

  erase-Flattened : (k : Text) (d : LocalDriver N) → Flattened d → Flattened (erase k d)
  unfolding erase
  erase-Flattened k [] f = tt
  erase-Flattened k ((i, b) ∷ d) f = elim (Bool-cases (k == i)) [
    | inl same ↦ rw same f.1
    | inr differ ↦ rw differ (f.0, erase-Flattened k d f.1)
  ]

  put-IsConsistent :
      (k : Text) (l : RoomListing N) (d : LocalDriver N)
      → IsConsistent d
      → IsConsistent (put k (entry num l) d)
  put-IsConsistent k l d c = record {
    distinct = put-Distinct k (entry num l) d c.distinct;
    flattened = put-Flattened k l d c.flattened;
  }

  -- The calls that change the driver.
  pub data DriverCall : Type 0 where
    inserts : RoomListing N → DriverCall
    updates : Text → (RoomListing N → RoomListing N) → DriverCall
    removes : Text → DriverCall
    clears : DriverCall

  pub driver_step : LocalDriver N → DriverCall → LocalDriver N
  driver_step d (inserts l) = insert num d l
  driver_step d (updates id f) = (update_by_id num d id f).0
  driver_step d (removes id) = (remove num d id).0
  driver_step d clears = clear num d

  -- Every call keeps the ids distinct and the cached JSON of each listing true.
  pub driver_step-IsConsistent :
      (d : LocalDriver N) (call : DriverCall) → IsConsistent d → IsConsistent (driver_step d call)
  unfolding driver_step insert update_by_id remove clear
  driver_step-IsConsistent d (inserts l) c = put-IsConsistent l.room_id l d c
  driver_step-IsConsistent d (updates id f) c = elim (Option-cases (lookup id d)) [
    | inl unknown ↦ rw (unknown, driver_step, update_by_id) c
    | inr (e, known) ↦ rw (known, driver_step, update_by_id) (put-IsConsistent id (f e.listing) d c)
  ]
  driver_step-IsConsistent d (removes id) c = record {
    distinct = erase-Distinct id d c.distinct;
    flattened = erase-Flattened id d c.flattened;
  }
  driver_step-IsConsistent d clears c = record { distinct = tt; flattened = tt }

  abbrev pub map_listing :
      (RoomListing N → RoomListing N) → Option (RoomListing N) → Option (RoomListing N)
  map_listing f none = none
  map_listing f (some l) = some (f l)

  -- What a lookup sees after each call, in a consistent driver: an inserted listing under its own id,
  -- nothing under a removed id, the changed listing under an updated id that is known, and no change
  -- elsewhere. Removals and updates report whether the id was known.
  pub get-driver_step :
      (d : LocalDriver N) (id j : Text) (l : RoomListing N) (f : RoomListing N → RoomListing N)
      → IsConsistent d
      → (get num (insert num d l) j ≡ (if j == l.room_id then some l else get num d j))
        × (get num (remove num d id).0 j ≡ (if j == id then none else get num d j))
        × ((remove num d id).1 ≡ is_some (get num d id))
        × (get num (update_by_id num d id f).0 j
            ≡ (if j == id then map_listing f (get num d id) else get num d j))
        × ((update_by_id num d id f).1 ≡ is_some (get num d id))
  unfolding get insert remove update_by_id
  get-driver_step d id j l f c = (
    ground (arith, lookup-put j l.room_id (entry num l) d),
    ground (arith, lookup-erase j id d c.distinct),
    ground arith,
    elim (Option-cases (lookup id d)) [
      | inl unknown ↦ rw (unknown, update_by_id) (ground (arith, unknown, text_sound j id))
      | inr (e, known) ↦
          rw (known, update_by_id) (ground (arith, lookup-put j id (entry num (f e.listing)) d))
    ],
    ground arith,
  )
