-- ===== src/Room/Actor/Laws/Expiry.antt =====
-- What the deadlines of a room leave.
use colyseus_rs.Base.{
  ℕ, true, false, ◌||◌, Option, none, some, Text, List, [], ◌∷◌, ◌==◌, text_eq, ◌≡◌, refl, sym, ap,
  arith, Bool-cases, inl, inr, any, retain, leb, ltb, ◌∙◌, if◌then◌else◌, text_sound,
}
use colyseus_rs.Base.Maps.{lookup, erase, Fresh, Distinct, lookup-erase, erase-Distinct}
use colyseus_rs.Driver.{Numbers}
use colyseus_rs.Room.{ReservedSeat, TimerEntry}
use colyseus_rs.Room.Actor.{RoomProgram, RoomActor}
use colyseus_rs.Room.Actor.Deadlines.{
  handle_deadlines, fire_timers, run_timers, expire_seats, expire_tokens, expired_tokens,
  expired_seats, remove_seats, no_items,
}
use colyseus_rs.Room.Capacity.{roster-sync_listing, roster, Fits, Roster}
use colyseus_rs.Room.Capacity.Careful.{IsCareful}
use colyseus_rs.Room.Capacity.Endings.{expire_tokens-Fits}

no_items-nil : (ids : List Text) → no_items ids ≡ true → ids ≡ []
no_items-nil [] h = refl
no_items-nil (id ∷ ids) h = cc

module _ {N : Type 0} where
  -- A seat that stands on: it is consumed, or a client is awaited for it, or its time is not up.
  abbrev pub standing : ℕ → Option (ReservedSeat N) → Option (ReservedSeat N)
  standing now none = none
  standing now (some s) =
      if s.consumed || s.waiting_reconnection || ltb now s.expires_at then some s else none

  lookup-remove_seats :
      (id : Text) (ids : List Text) (m : List (Text × ReservedSeat N))
      → Distinct m
      → lookup id (remove_seats ids m) ≡ (if any (λ i. id == i) ids then none else lookup id m)
  unfolding remove_seats
  lookup-remove_seats id [] m d = refl
  lookup-remove_seats id (i ∷ ids) m d =
      ground (
        arith,
        lookup-remove_seats id ids (erase i m) (erase-Distinct i m d),
        lookup-erase id i m d,
      )

  expired_seats-Fresh :
      (now : ℕ) (id : Text) (m : List (Text × ReservedSeat N))
      → Fresh id m
      → any (λ i. id == i) (expired_seats now m) ≡ false
  unfolding expired_seats
  expired_seats-Fresh now id [] f = refl
  expired_seats-Fresh now id ((i, s) ∷ m) f = ground (arith, expired_seats-Fresh now id m f.1)

  -- Of the seats of a room just those stand on whose time is not up.
  lookup-unexpired :
      (now : ℕ) (id : Text) (m : List (Text × ReservedSeat N))
      → Distinct m
      → (if any (λ i. id == i) (expired_seats now m) then none else lookup id m)
        ≡ standing now (lookup id m)
  unfolding expired_seats lookup
  lookup-unexpired now id [] d = refl
  lookup-unexpired now id ((i, s) ∷ m) d = elim (Bool-cases (id == i)) [
    | inl same ↦
        let rest : any (λ j. id == j) (expired_seats now m) ≡ false =
          rw (text_sound id i same) (expired_seats-Fresh now i m d.0) in
        ground (arith, same, rest)
    | inr differ ↦ ground (arith, differ, lookup-unexpired now id m d.1)
  ]

module _ {R N S : Type 0} (num : Numbers N) (program : RoomProgram R N S) (now : ℕ) where
  lookup-expire_seats :
      (a : RoomActor R N S) (id : Text)
      → Distinct a.ctx.reserved_seats
      → lookup id (expire_seats num program now a).ctx.reserved_seats
        ≡ standing now (lookup id a.ctx.reserved_seats)
  unfolding expire_seats remove_seats
  lookup-expire_seats a id d =
      let m = a.ctx.reserved_seats in
      let ids = expired_seats now m in
      let stands = lookup-remove_seats id ids m d ∙ lookup-unexpired now id m d in
      elim (Bool-cases (no_items ids)) [
        | inl none_over ↦
            rw (none_over, expire_seats)
              (ap (λ is. lookup id (remove_seats is m)) (sym (no_items-nil ids none_over)) ∙ stands)
        | inr some_over ↦
            let kept = record a.ctx { reserved_seats = remove_seats ids m } in
            let same = ap (λ (r : Roster N). lookup id r.seats) (roster-sync_listing num kept) in
            rw (some_over, expire_seats) (same ∙ stands)
      ]

  -- Where the handlers keep the room within its limit and no seat stands twice, and no user timer is due,
  -- handling the deadlines leaves just those of the seats that stood when the expired reconnections had
  -- been dealt with, unchanged, that are consumed, or awaited for reconnection, or expire later than now.
  pub handle_deadlines-seats :
      (a : RoomActor R N S) (id : Text)
      → IsCareful program
      → Fits (roster a.ctx)
      → retain
          (λ (t : TimerEntry). leb t.due now)
          (expire_seats num program now
            (expire_tokens num program now (expired_tokens now a.ctx.reconnections) a)).ctx.timers
        ≡ []
      → lookup id (handle_deadlines num program now a).ctx.reserved_seats
        ≡ standing now (
            lookup id
              (expire_tokens num program now
                (expired_tokens now a.ctx.reconnections)
                a).ctx.reserved_seats)
  unfolding handle_deadlines fire_timers run_timers
  handle_deadlines-seats a id careful f h =
      let tokens = expired_tokens now a.ctx.reconnections in
      let before = expire_tokens num program now tokens a in
      let g = expire_tokens-Fits num program now careful tokens a f in
      rw (h, handle_deadlines, fire_timers, run_timers) (lookup-expire_seats before id g.distinct)
