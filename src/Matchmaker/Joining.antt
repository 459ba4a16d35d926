-- ===== src/Matchmaker/Joining.antt =====
-- What the joining functions of crates/colyseus/src/matchmaker.rs return, whatever the other tasks do
-- between their steps.
use colyseus_rs.Base.{
  ℕ, zero, suc, true, false, Option, none, some, Text, List, ◌≡◌, refl, sym, ap, subst, ◌∙◌, ◌⊎◌,
  inl, inr, Bool-cases, if◌then◌else◌, if_true, if_false, Eq,
}
use colyseus_rs.Base.Result.{Result, ok, err}
use colyseus_rs.Base.Maps.{lookup, is_some}
use colyseus_rs.Json.{Value}
use colyseus_rs.Driver.{Numbers, RoomListing, Condition}
use colyseus_rs.Driver.Store
use colyseus_rs.Room.{ServerError}
use colyseus_rs.Room.Actor.{AuthContext}
use colyseus_rs.Room.Actor.Connect.{seat_expired}
use colyseus_rs.Matchmaker.{RegisteredHandler, SeatReservation}
use colyseus_rs.Matchmaker.Handler.{match_conditions}
use colyseus_rs.Matchmaker.Environment.{
  World, Environment, Task, fail, ◌>>=◌, continue_with, catch_with, SeatAnswer, not_sent, timed_out,
  dropped, answered,
}
use colyseus_rs.Matchmaker.Rooms.{
  handler, known_handler, find_match, reserve_seat, seat_answer, reservation_for, reservation_in,
}
use colyseus_rs.Matchmaker.Join.{
  attempts, unlocked, or_no_rooms, is_seat_failure, room_by_id, join_by_id, join_inner,
  matching_room,
}

module _ {E N S : Type 0} (num : Numbers N) (env : Environment E N S)
    (find : Task E N (RoomListing N)) (options : Value N) (auth : AuthContext) where
  -- How a loop of attempts ends: with the reservation for a listing that it found, the error of a search, or
  -- the error of a reservation for a listing that it found.
  abbrev pub Ended : Result ServerError (SeatReservation N) × World E N → Type 0
  Ended (ok r, end) =
      (u v : World E N) × (l : RoomListing N) × (find u ≡ (ok l, v))
      × (reserve_seat num env l options auth v ≡ (ok r, end))
  Ended (err x, end) =
      ((u : World E N) × (find u ≡ (err x, end)))
      ⊎ ((u v : World E N) × (l : RoomListing N) × (find u ≡ (ok l, v))
          × (reserve_seat num env l options auth v ≡ (err x, end)))

  after_reservation :
      (w v : World E N) (l : RoomListing N) (f : ServerError → Task E N (SeatReservation N))
      (q : Result ServerError (SeatReservation N) × World E N)
      → find w ≡ (ok l, v)
      → reserve_seat num env l options auth v ≡ q
      → ((x : ServerError) (u : World E N)
          → reserve_seat num env l options auth v ≡ (err x, u)
          → Ended (f x u))
      → Ended (catch_with q f)
  after_reservation w v l f (ok r, u) found reserved next = (w, v, l, found, reserved)
  after_reservation w v l f (err x, u) found reserved next = next x u reserved

  after_search :
      (w : World E N) (f : RoomListing N → Task E N (SeatReservation N))
      (q : Result ServerError (RoomListing N) × World E N)
      → find w ≡ q
      → ((l : RoomListing N) (v : World E N) → find w ≡ (ok l, v) → Ended (f l v))
      → Ended (continue_with q f)
  after_search w f (ok l, v) found next = next l v found
  after_search w f (err x, v) found next = inl (w, found)

  retried :
      (w v u : World E N) (l : RoomListing N) (x : ServerError)
      (again : Task E N (SeatReservation N))
      → find w ≡ (ok l, v)
      → reserve_seat num env l options auth v ≡ (err x, u)
      → Ended (again u)
      → Ended ((if is_seat_failure x then again else fail x) u)
  retried w v u l x again found reserved a = elim (Bool-cases (is_seat_failure x)) [
    | inl seat ↦ rw seat a
    | inr other ↦ rw other (inr (w, v, l, found, reserved))
  ]

  -- The loop that the joining functions share makes at least one attempt, and ends with the reservation for
  -- a listing that it found, with the error of a search or with that of a reservation: never with the
  -- default that the source gives for no attempt.
  pub attempts-Ended :
      (n : ℕ) (otherwise : ServerError) (last : Option ServerError) (w : World E N)
      → Ended (attempts num env (suc n) find options auth otherwise last w)
  unfolding attempts
  attempts-Ended zero otherwise last w = after_search w _ (find w) refl (λ l v found.
      after_reservation w v l _ (reserve_seat num env l options auth v) found refl (λ x u reserved.
        retried w v u l x (fail x) found reserved (inr (w, v, l, found, reserved))))
  attempts-Ended (suc n) otherwise last w = after_search w _ (find w) refl (λ l v found.
      after_reservation w v l _ (reserve_seat num env l options auth v) found refl (λ x u reserved.
        retried w v u l x (attempts num env (suc n) find options auth otherwise (some x)) found
          reserved (attempts-Ended n otherwise (some x) u)))

pair_of : {A B : Type 0} (p : A × B) {a : A} {b : B} → p.0 ≡ a → p.1 ≡ b → p ≡ (a, b)
pair_of (x, y) h k = cc

err_not_ok :
    {A W : Type 0} {x : ServerError} {a : A} {v w : W}
    → ◌≡◌ {A = Result ServerError A × W} (err x, v) (ok a, w)
    → ⊥
err_not_ok h = cc

module _ {E N : Type 0} where
  reservation_in-granted :
      (num : Numbers N) (o : Option (RoomListing N)) (id : Text) (u : World E N)
      {r : SeatReservation N} {end : World E N}
      → reservation_in num o id u ≡ (ok r, end)
      → (u ≡ end) × (o ≡ some r.room) × (r.session_id ≡ id) × (r.reconnection_token ≡ none)
  unfolding reservation_in
  reservation_in-granted num none id u h = cc
  reservation_in-granted num (some room) id u h = (cc, cc, cc, cc)

module _ {E N S : Type 0} (num : Numbers N) (env : Environment E N S) where
  -- A seat was granted by the room of this listing: what holds before, of the answer, and after.
  abbrev pub Granted :
      RoomListing N → Value N → AuthContext → World E N → SeatReservation N → World E N → Type 0
  Granted l options auth w r end =
      let g = env.generate_id w in
      (is_some (lookup l.room_id w.mm.rooms) ≡ true)
      × (env.reserve l.room_id g.0 options auth g.1 ≡ (answered (ok tt), end))
      × (Store.get num end.mm.driver l.room_id ≡ some r.room)
      × (r.session_id ≡ g.0)
      × (r.reconnection_token ≡ none)

  seat_answer-granted :
      (l : RoomListing N) (id : Text) (a : SeatAnswer) (u : World E N) {r : SeatReservation N}
      {end : World E N}
      → seat_answer num l id a u ≡ (ok r, end)
      → (a ≡ answered (ok tt))
        × (u ≡ end)
        × (Store.get num u.mm.driver l.room_id ≡ some r.room)
        × (r.session_id ≡ id)
        × (r.reconnection_token ≡ none)
  unfolding seat_answer reservation_for
  seat_answer-granted l id not_sent u h = cc
  seat_answer-granted l id timed_out u h = cc
  seat_answer-granted l id dropped u h = cc
  seat_answer-granted l id (answered (err x)) u h = cc
  seat_answer-granted l id (answered (ok tt)) u h =
      let g = reservation_in-granted num (Store.get num u.mm.driver l.room_id) id u h in
      (refl, g.0, g.1, g.2, g.3)

  -- A reservation is made only where the listing's room is registered and grants the seat to a new session;
  -- it then shows the room's listing of that moment and the new session, and no reconnection token.
  pub reserve_seat-Granted :
      (l : RoomListing N) (options : Value N) (auth : AuthContext) (w : World E N)
      (r : SeatReservation N) (end : World E N)
      → reserve_seat num env l options auth w ≡ (ok r, end)
      → Granted l options auth w r end
  unfolding reserve_seat
  reserve_seat-Granted l options auth w r end h =
      let g = env.generate_id w in
      let asked = env.reserve l.room_id g.0 options auth g.1 in
      elim (Bool-cases (is_some (lookup l.room_id w.mm.rooms))) [
        | inl known ↦
            let k =
              seat_answer-granted l g.0 asked.0 asked.1
                (if_true (is_some (lookup l.room_id w.mm.rooms)) _ _ known h) in
            (
              known,
              pair_of asked k.0 k.1,
              ap (λ (v : World E N). Store.get num v.mm.driver l.room_id) (sym k.1) ∙ k.2,
              k.3,
              k.4,
            )
        | inr gone ↦
            absurd (err_not_ok (if_false (is_some (lookup l.room_id w.mm.rooms)) _ _ gone h))
      ]

same_ok :
    {A W : Type 0} {a b : A} {v w : W}
    → ◌≡◌ {A = Result ServerError A × W} (ok a, v) (ok b, w)
    → (a ≡ b) × (v ≡ w)
same_ok h = (cc h, cc h)

module _ {E N : Type 0} where
  or_no_rooms-some :
      (o : Option (RoomListing N)) (u : World E N) {l : RoomListing N} {v : World E N}
      → or_no_rooms o u ≡ (ok l, v)
      → (u ≡ v) × (o ≡ some l)
  unfolding or_no_rooms
  or_no_rooms-some none u h = absurd (err_not_ok h)
  or_no_rooms-some (some l) u h = let (same_room, same) = same_ok h in (same, ap some same_room)

  unlocked-open :
      (id : Text) (o : Option (RoomListing N)) (u : World E N) {l : RoomListing N} {v : World E N}
      → unlocked id o u ≡ (ok l, v)
      → (u ≡ v) × (o ≡ some l) × (l.locked ≡ false)
  unfolding unlocked
  unlocked-open id none u h = absurd (err_not_ok h)
  unlocked-open id (some l) u h = elim (Bool-cases l.locked) [
    | inl shut ↦ absurd (err_not_ok (if_true l.locked _ _ shut h))
    | inr free ↦
        let (same_room, same) = same_ok (if_false l.locked _ _ free h) in
        (same, ap some same_room, ap (λ r. r.locked) (sym same_room) ∙ free)
  ]

module _ {E N S : Type 0} (num : Numbers N) (env : Environment E N S) where
  -- A join by id that succeeds had its seat granted by the room that the driver showed under the id,
  -- unlocked, at the time of the request.
  pub join_by_id-Granted :
      (id : Text) (options : Value N) (auth : AuthContext) (w : World E N) (r : SeatReservation N)
      (end : World E N)
      → join_by_id num env id options auth w ≡ (ok r, end)
      → (u : World E N) × (l : RoomListing N) × (Store.get num u.mm.driver id ≡ some l)
        × (l.locked ≡ false)
        × Granted num env l options auth u r end
  unfolding join_by_id room_by_id
  join_by_id-Granted id options auth w r end h =
      let (u, v, l, found, reserved) =
        subst (Ended num env (room_by_id num id) options auth) h
          (attempts-Ended num env (room_by_id num id) options auth 2 seat_expired none w) in
      let g = unlocked-open id (Store.get num u.mm.driver id) u found in
      (
        u,
        l,
        g.1,
        g.2,
        subst (λ (z : World E N). Granted num env l options auth z r end) (sym g.0)
            (reserve_seat-Granted num env l options auth v r end reserved),
      )

  module _ ⦃e : Eq N⦄ (show_value : Value N → Text) where
    -- A join that succeeds had its seat granted by the room of a listing that `find_match` chose, at the time
    -- of the request, for the conditions of the room type and the request's filter, if the type is registered.
    pub join_inner-Granted :
        (room_name : Text) (options : Value N) (filter : List (Text × Condition N))
        (auth : AuthContext) (w : World E N) (h : RegisteredHandler N) (r : SeatReservation N)
        (end : World E N)
        → lookup room_name w.mm.handlers ≡ some h
        → join_inner num show_value env room_name options filter auth w ≡ (ok r, end)
        → (u : World E N) × (l : RoomListing N) × (find_match num h
              (match_conditions h options)
              filter
              options
              u.mm
            ≡ some l)
          × Granted num env l options auth u r end
    unfolding join_inner handler known_handler matching_room
    join_inner-Granted room_name options filter auth w h r end known joined =
        let find = matching_room num h filter options in
        let made =
          subst
            (λ o.
              (known_handler room_name o >>= (λ h.
                  attempts num env 3 (matching_room num h filter options) options auth seat_expired
                    none))
                w
              ≡ (ok r, end))
            known joined in
        let (u, v, l, found, reserved) =
          subst (Ended num env find options auth) made
            (attempts-Ended num env find options auth 2 seat_expired none w) in
        let g =
          or_no_rooms-some (find_match num h (match_conditions h options) filter options u.mm) u
            found in
        (
          u,
          l,
          g.1,
          subst (λ (z : World E N). Granted num env l options auth z r end) (sym g.0)
              (reserve_seat-Granted num env l options auth v r end reserved),
        )
