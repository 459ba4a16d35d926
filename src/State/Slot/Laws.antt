-- ===== src/State/Slot/Laws.antt =====
-- What the receivers of the patches of a slot hold.
use colyseus_rs.Base.{
  Text, List, [], ◌∷◌, ◌++◌, Option, none, some, ◌>>=◌, Eq, ◌==◌, text_eq, text_sound, arith, ◌≡◌,
  refl, ap, sym, ◌∙◌, Bool-cases, inl, inr, true, false,
}
use colyseus_rs.Json.{Value, array, object, Fields, done, field, from_list, to_list}
use colyseus_rs.Json.Equality.{json_eq, value_sound, fields_sound, fields_eqb}
use colyseus_rs.Json.Map.{contains_key}
use colyseus_rs.Json.Valid.{IsValid}
use colyseus_rs.Json.Patch.{Step, decode_all, apply_patch, apply_steps, apply_at}
use colyseus_rs.Diff.{diff}
use colyseus_rs.Diff.Steps.{steps, removed_steps, entry_steps}
use colyseus_rs.Diff.Encoding.{decode_all-diff}
use colyseus_rs.Diff.RoundTrip.{apply_patch-diff}
use colyseus_rs.State.Slot.{Serde, StateSlot, new, full, is_empty, slot_diff}

-- What a receiver makes of its copy by a message of a patch tick: a patch is an array of operations.
abbrev pub receive : {N : Type 0} → Option (Value N) → Value N → Option (Value N)
receive none copy = some copy
receive (some (array ops)) copy = apply_patch (to_list ops) copy
receive (some _) copy = none

module _ {N : Type 0} where
  to_list-from_list : (ops : List (Value N)) → to_list (from_list ops) ≡ ops
  to_list-from_list [] = refl
  to_list-from_list (op ∷ ops) = ap (◌∷◌ op) (to_list-from_list ops)

-- The steps of a room with a state: a handler changes the state, or a patch tick broadcasts.
pub data SlotEvent (S : Type 0) : Type 0 where
  change : S → SlotEvent S
  tick : SlotEvent S

module _ {N S : Type 0} (serde : Serde N S) ⦃e : Eq N⦄ where
  abbrev pub Sound : Type 0
  Sound = (s : S) → IsValid (serde.to_value s)

  -- The slot and a receiver's copy.
  pub slot_step : StateSlot N S → Option (Value N) → SlotEvent S → StateSlot N S × Option (Value N)
  slot_step slot copy (change s) = (record slot { typed = s }, copy)
  slot_step slot copy tick =
      let (slot', message) = slot_diff serde slot in (slot', (do c ← copy; receive message c))

  pub slot_run :
      StateSlot N S → Option (Value N) → List (SlotEvent S) → StateSlot N S × Option (Value N)
  slot_run slot copy [] = (slot, copy)
  slot_run slot copy (ev ∷ evs) = slot_run (slot_step slot copy ev).0 (slot_step slot copy ev).1 evs

  received :
      (old new : Value N)
      → apply_patch (diff old new) old ≡ some new
      → receive (is_empty serde (diff old new)) old ≡ some new
  unfolding is_empty apply_patch decode_all apply_steps
  received old new h = patch (diff old new) h
    where
      patch :
          (ops : List (Value N))
          → apply_patch ops old ≡ some new
          → receive (is_empty serde ops) old ≡ some new
      patch [] p = p
      patch (op ∷ ops) p =
          ap (λ (l : List (Value N)). apply_patch l old) (to_list-from_list (op ∷ ops)) ∙ p

  -- A receiver whose copy is the snapshot has the current state after a patch tick, and this is then
  -- the snapshot.
  pub slot_diff-receive :
      Sound
      → (slot : StateSlot N S) → IsValid slot.snapshot
      → (receive (slot_diff serde slot).1 slot.snapshot ≡ some (full serde slot))
        × ((slot_diff serde slot).0.snapshot ≡ full serde slot)
        × ((slot_diff serde slot).0.typed ≡ slot.typed)
  unfolding slot_diff full
  slot_diff-receive sound slot v = elim (Bool-cases (serde.to_value slot.typed == slot.snapshot)) [
    | inl same ↦
        let e = value_sound (serde.to_value slot.typed) slot.snapshot same in
        rw same (ap some (sym e), sym e, refl)
    | inr differ ↦ rw differ (
      received slot.snapshot (serde.to_value slot.typed)
          (apply_patch-diff slot.snapshot (serde.to_value slot.typed) v (sound slot.typed)),
      refl,
      refl,
    )
  ]

  -- One patch tick, seen by such a receiver.
  tick_lem :
      Sound
      → (slot : StateSlot N S) → IsValid slot.snapshot
      → (slot_step slot (some slot.snapshot) tick
          ≡ ((slot_diff serde slot).0, some (slot_diff serde slot).0.snapshot))
        × IsValid (slot_diff serde slot).0.snapshot
  unfolding slot_step full
  tick_lem sound slot v =
      let (got, kept, typed) = slot_diff-receive sound slot v in
      (
        ap (λ (c : Option (Value N)). ((slot_diff serde slot).0, c)) (got ∙ ap some (sym kept)),
        rw kept (sound slot.typed),
      )

  change_lem :
      (slot : StateSlot N S) (copy : Option (Value N)) (s : S)
      → slot_step slot copy (change s) ≡ (record slot { typed = s }, copy)
  unfolding slot_step
  change_lem slot copy s = refl

  slot_run_keeps :
      Sound
      → (evs : List (SlotEvent S)) (slot : StateSlot N S) → IsValid slot.snapshot
      → ((slot_run slot (some slot.snapshot) evs).1
          ≡ some (slot_run slot (some slot.snapshot) evs).0.snapshot)
        × IsValid (slot_run slot (some slot.snapshot) evs).0.snapshot
  unfolding slot_run
  slot_run_keeps sound [] slot v = (refl, v)
  slot_run_keeps sound (change s ∷ evs) slot v =
      rw (change_lem slot (some slot.snapshot) s, slot_run)
        (slot_run_keeps sound evs (record slot { typed = s }) v)
  slot_run_keeps sound (tick ∷ evs) slot v =
      let (e, v') = tick_lem sound slot v in
      rw (e, slot_run) (slot_run_keeps sound evs (slot_diff serde slot).0 v')

  slot_run_snoc :
      (evs : List (SlotEvent S)) (slot : StateSlot N S) (copy : Option (Value N))
      → slot_run slot copy (evs ++ tick ∷ [])
        ≡ slot_step (slot_run slot copy evs).0 (slot_run slot copy evs).1 tick
  unfolding slot_run
  slot_run_snoc [] slot copy = refl
  slot_run_snoc (ev ∷ evs) slot copy = slot_run_snoc evs _ _

  -- A client that starts with the full state of a new slot has, after any sequence of changes and patch
  -- ticks that ends with a tick, exactly the full state of the slot; no patch on the way fails.
  pub slot_run_converges :
      Sound
      → (s : S) (evs : List (SlotEvent S))
      → let start = new serde s in
        let end = slot_run start (some (full serde start)) (evs ++ tick ∷ []) in
        end.1 ≡ some (full serde end.0)
  unfolding new full
  slot_run_converges sound s evs =
      let start = new serde s in
      let (copy, valid) = slot_run_keeps sound evs start (sound s) in
      last_tick (slot_run start (some start.snapshot) evs).0 _ _ copy valid
        (slot_run_snoc evs start (some start.snapshot))
    where
      last_tick :
          (slot : StateSlot N S) (copy : Option (Value N)) (end : StateSlot N S × Option (Value N))
          → copy ≡ some slot.snapshot
          → IsValid slot.snapshot
          → end ≡ slot_step slot copy tick
          → end.1 ≡ some (serde.to_value end.0.typed)
      last_tick slot copy end c valid e =
          let (got, kept, typed) = slot_diff-receive sound slot valid in
          let (step, _) = tick_lem sound slot valid in
          rw (e, c, step) (ap some (kept ∙ ap serde.to_value (sym typed)))

  -- The first operation that removes a key fails where the document lacks it.
  removed_steps_fail :
      (k : Text) (old new : Fields N) (rest : List (Step N))
      → contains_key k old ≡ true
      → contains_key k new ≡ false
      → apply_steps (removed_steps old new ++ rest) (object new) ≡ none
  unfolding removed_steps apply_steps apply_at contains_key
  removed_steps_fail k done new rest h g = cc
  removed_steps_fail k (field j v old) new rest h g = elim (Bool-cases (contains_key j new)) [
    | inl kept ↦ rw kept (removed_steps_fail k old new rest (ground (arith, text_sound k j)) g)
    | inr gone ↦ rw (gone, gone)
  ]

  receive-none :
      (ops : List (Value N)) (doc : Value N)
      → apply_patch ops doc ≡ none
      → receive (is_empty serde ops) doc ≡ none
  unfolding is_empty apply_patch decode_all apply_steps
  receive-none [] doc h = cc
  receive-none (op ∷ ops) doc h =
      ap (λ (l : List (Value N)). apply_patch l doc) (to_list-from_list (op ∷ ops)) ∙ h

  fields_differ :
      (old new : Fields N) (k : Text)
      → contains_key k old ≡ true
      → contains_key k new ≡ false
      → fields_eqb old new ≡ false
  fields_differ old new k c d = elim (Bool-cases (fields_eqb old new)) [
    | inl same ↦ cc (ap (contains_key k) (fields_sound old new same))
    | inr differ ↦ differ
  ]

  patch_fails :
      (old new : Fields N) (k : Text)
      → contains_key k old ≡ true
      → contains_key k new ≡ false
      → apply_patch (diff (object old) (object new)) (object new) ≡ none
  unfolding apply_patch steps
  patch_fails old new k c d =
      rw (decode_all-diff (object old) (object new), fields_differ old new k c d)
        (removed_steps_fail k old new (entry_steps old new) c d)

  -- A client that joins gets the full state, and the next patch is made from the older snapshot: where
  -- the state has lost a key since the last tick, that patch fails on the client's copy.
  pub late_joiner_patch_fails :
      (slot : StateSlot N S) (old new : Fields N) (k : Text)
      → slot.snapshot ≡ object old
      → full serde slot ≡ object new
      → contains_key k old ≡ true
      → contains_key k new ≡ false
      → receive (slot_diff serde slot).1 (full serde slot) ≡ none
  unfolding slot_diff full
  late_joiner_patch_fails slot old new k h g c d =
      elim (Bool-cases (serde.to_value slot.typed == slot.snapshot)) [
        | inl same ↦
            let e = value_sound (serde.to_value slot.typed) slot.snapshot same in
            let same_fields : object new ≡ object old = sym g ∙ e ∙ h in cc (same_fields, c, d)
        | inr differ ↦ rw differ (
            rw (g, h)
              (receive-none (diff (object old) (object new)) (object new)
                (patch_fails old new k c d)))
      ]
