-- ===== src/Diff/Objects.antt =====
-- The steps on objects: first the keys that are gone, then the entries of the new object.
use colyseus_rs.Base.{
  Text, none, some, ◌≡◌, refl, inl, inr, arith, ◌==◌, text_eq, text_sound, Bool-cases, true,
  if◌then◌else◌,
}
use colyseus_rs.Json.{object, Fields, done, field}
use colyseus_rs.Json.Map.{get, contains_key, insert, remove, Sorted, Above}
use colyseus_rs.Json.Map.Laws.{
  get-insert, get-remove, get-Above, insert-Sorted, remove-Sorted, map_ext, not_contains_key,
  contains_key-Above, contains_key-remove, contains_key_head, contains_key_tail,
}
use colyseus_rs.Json.Patch.{apply_at, apply_steps}
use colyseus_rs.Diff.Steps.{removed_steps}

module _ {N : Type 0} where
  -- The entries of `m` less the keys of `old` that `new` does not have.
  unfoldable pub drop_missing : Fields N → Fields N → Fields N → Fields N
  drop_missing done new m = m
  drop_missing (field key v old) new m =
      drop_missing old new (if contains_key key new then m else remove key m)

  -- The entries of `new` written over those of `m`.
  unfoldable pub insert_all : Fields N → Fields N → Fields N
  insert_all done m = m
  insert_all (field key v new) m = insert_all new (insert key v m)

  pub drop_missing-Sorted : (old new m : Fields N) → Sorted m → Sorted (drop_missing old new m)
  unfolding drop_missing
  drop_missing-Sorted done new m s = s
  drop_missing-Sorted (field key v old) new m s = elim (Bool-cases (contains_key key new)) [
    | inl kept ↦ rw kept (drop_missing-Sorted old new m s)
    | inr gone ↦ rw gone (drop_missing-Sorted old new (remove key m) (remove-Sorted key m s))
  ]

  pub insert_all-Sorted : (new m : Fields N) → Sorted m → Sorted (insert_all new m)
  unfolding insert_all
  insert_all-Sorted done m s = s
  insert_all-Sorted (field key v new) m s =
      insert_all-Sorted new (insert key v m) (insert-Sorted key v m s)

  get-drop_missing :
      (j : Text) (old new m : Fields N)
      → Sorted m
      → get j (drop_missing old new m)
        ≡ (if contains_key j old then if contains_key j new then get j m else none else get j m)
  unfolding drop_missing contains_key
  get-drop_missing j done new m s = refl
  get-drop_missing j (field key v old) new m s = elim (Bool-cases (contains_key key new)) [
    | inl kept ↦ rw kept (ground (arith, get-drop_missing j old new m s, text_sound j key))
    | inr gone ↦ rw gone (
        ground (
          arith,
          get-drop_missing j old new (remove key m) (remove-Sorted key m s),
          get-remove j key m s,
          text_sound j key,
        ))
  ]

  get-insert_all :
      (j : Text) (new m : Fields N)
      → Sorted new
      → get j (insert_all new m) ≡ (if contains_key j new then get j new else get j m)
  unfolding insert_all contains_key get
  get-insert_all j done m s = refl
  get-insert_all j (field key v new) m s = ground (
    arith,
    get-insert_all j new (insert key v m) s.1,
    get-insert j key v m,
    text_sound j key,
    get-Above key new s.0,
    contains_key-Above key new s.0,
  )

  pub get-drop_missing_kept :
      (old new : Fields N)
      → Sorted old
      → (k : Text) → contains_key k new ≡ true
      → get k (drop_missing old new old) ≡ get k old
  get-drop_missing_kept old new s k c = ground (arith, get-drop_missing k old new old s)

  -- Both loops together turn the old entries into the new ones.
  pub insert_all-drop_missing :
      (old new : Fields N)
      → Sorted old
      → Sorted new
      → insert_all new (drop_missing old new old) ≡ new
  insert_all-drop_missing old new so sn =
      map_ext _ new (insert_all-Sorted new _ (drop_missing-Sorted old new old so)) sn λ k. ground (
        arith,
        get-insert_all k new (drop_missing old new old) sn,
        get-drop_missing k old new old so,
        not_contains_key k new,
        not_contains_key k old,
      )

  still_there :
      (k key : Text) (old m : Fields N)
      → Above key old
      → Sorted m
      → contains_key k old ≡ true
      → contains_key k m ≡ true
      → contains_key k (remove key m) ≡ true
  still_there k key old m above s c d = elim (Bool-cases (k == key)) [
    | inl same ↦ cc (contains_key-Above key old above, text_sound k key same)
    | inr differ ↦ rw (contains_key-remove k key m s, differ) d
  ]

  pub removed_steps_lem :
      (old new m : Fields N)
      → Sorted old
      → Sorted m
      → ((k : Text) → contains_key k old ≡ true → contains_key k m ≡ true)
      → apply_steps (removed_steps old new) (object m) ≡ some (object (drop_missing old new m))
  unfolding removed_steps drop_missing apply_steps apply_at
  removed_steps_lem done new m so sm h = refl
  removed_steps_lem (field key v old) new m so sm h = elim (Bool-cases (contains_key key new)) [
    | inl kept ↦
        rw kept (removed_steps_lem old new m so.1 sm (λ k c. h k (contains_key_tail k key v old c)))
    | inr gone ↦
        rw (gone, h key (contains_key_head key v old))
          (removed_steps_lem old new (remove key m) so.1 (remove-Sorted key m sm)
            (λ k c. still_there k key old m so.0 sm c (h k (contains_key_tail k key v old c))))
  ]
