-- ===== src/Room/Actor/Deadlines/Capacity.antt =====
-- Saves and the disposal keep the number of clients within the limit.
use colyseus_rs.Base.{
  ℕ, ◌&&◌, not, true, Option, none, some, List, [], ◌∷◌, ◌++◌, ◌≡◌, refl, ◌∙◌, sym, ap, subst,
  Bool-cases, inl, inr, arith,
}
use colyseus_rs.Base.Maps.{is_some}
use colyseus_rs.Driver.{Numbers}
use colyseus_rs.Driver.Store.{remove}
use colyseus_rs.State.Slot.{Serde}
use colyseus_rs.Room.{Clocks, Client, RoomContext, PersistenceConfig, room_removed}
use colyseus_rs.Room.Handle.{modify, leave}
use colyseus_rs.Room.Context.{pending_seats}
use colyseus_rs.Room.Snapshot.Untouched.{roster-persist_now, roster-delete_snapshot}
use colyseus_rs.Room.Actor.{RoomProgram, RoomActor, with_both}
use colyseus_rs.Room.Actor.Deadlines.{
  has_passed, auto_save_with, maybe_auto_save, close_all, last_save, emptied, dispose,
}
use colyseus_rs.Room.Capacity.{Fits, Roster, roster}
use colyseus_rs.Room.Capacity.Careful.{IsCareful, branch-Fits}

module _ {R N S : Type 0} (serde : Serde N S) (now : Clocks) where
  roster-auto_save_with :
      (p : Option PersistenceConfig) (a : RoomActor R N S)
      → roster (auto_save_with serde now p a).ctx ≡ roster a.ctx
  unfolding auto_save_with
  roster-auto_save_with none a = refl
  roster-auto_save_with (some p) a =
      elim (Bool-cases (not (is_some a.ctx.state_slot) && not (is_some a.ctx.internal))) [
        | inl bare ↦ rw bare refl
        | inr full ↦
            rw full
              (elim (Bool-cases (has_passed now.instant a.last_auto_save p.auto_save_interval)) [
                | inl due ↦ rw due (roster-persist_now serde now a.ctx)
                | inr early ↦ rw early refl
              ])
      ]

  pub roster-maybe_auto_save :
      (a : RoomActor R N S) → roster (maybe_auto_save serde now a).ctx ≡ roster a.ctx
  unfolding maybe_auto_save
  roster-maybe_auto_save a = roster-auto_save_with a.ctx.persistence a

module _ {R N S : Type 0} (num : Numbers N) (serde : Serde N S) (program : RoomProgram R N S)
    (now : Clocks) where
  roster-close_all :
      (code : ℕ) (cs : List Client) (ctx : RoomContext N S)
      → roster (close_all num serde program now code cs ctx) ≡ roster ctx
  unfolding close_all leave modify
  roster-close_all code [] ctx = refl
  roster-close_all code (c ∷ cs) ctx = roster-close_all code cs _

  roster-last_save :
      (p : Option PersistenceConfig) (ctx : RoomContext N S)
      → roster (last_save num serde program now p ctx) ≡ roster ctx
  unfolding last_save
  roster-last_save none ctx = refl
  roster-last_save (some p) ctx = elim (Bool-cases p.delete_on_dispose) [
    | inl deletes ↦ rw deletes (roster-delete_snapshot ctx)
    | inr keeps ↦ rw keeps (elim (Bool-cases p.save_on_dispose) [
      | inl saves ↦ rw saves (roster-persist_now serde now ctx)
      | inr skips ↦ rw skips refl
    ])
  ]

  roster-emptied :
      (code : ℕ) (ctx : RoomContext N S)
      → roster (emptied num serde program now code ctx)
        ≡ record { clients = []; seats = []; max = ctx.max_clients }
  unfolding emptied
  roster-emptied code ctx =
      let begun = record ctx { disposing = true; request_dispose = none } in
      let saved = last_save num serde program now begun.persistence begun in
      ap (λ (r : Roster N). record { clients = r.clients; seats = []; max = r.max })
        (roster-close_all code saved.clients (record saved { clients = [] }))
      ∙ ap (λ (r : Roster N). record { clients = []; seats = []; max = r.max })
          (roster-last_save begun.persistence begun)

  emptied-Fits :
      (code : ℕ) (ctx : RoomContext N S)
      → Fits (roster ctx)
      → Fits (roster (emptied num serde program now code ctx))
  unfolding pending_seats
  emptied-Fits code ctx f =
      let empty : Fits {N = N} (record { clients = []; seats = []; max = ctx.max_clients }) =
        record { distinct = tt; within = λ m e. let b = f.within m e in omega (arith, b) } in
      subst Fits (sym (roster-emptied code ctx)) empty

  pub dispose-Fits :
      (code : ℕ) (a : RoomActor R N S)
      → IsCareful program
      → Fits (roster a.ctx)
      → Fits (roster (dispose num serde program now code a).ctx)
  unfolding dispose
  dispose-Fits code a careful f =
      let h = program.on_dispose a.room (emptied num serde program now code a.ctx) in
      branch-Fits a.ctx.disposing a
        (with_both a (
          h.0,
          record h.1 {
            driver = (remove num h.1.driver h.1.room_id).0;
            lobby = h.1.lobby ++ (room_removed h.1.room_id ∷ []);
          },
        ))
        f (careful.dispose_keeps a.room _ (emptied-Fits code a.ctx f))
