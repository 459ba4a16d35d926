-- ===== src/Room/Actor/Laws/Leaving.antt =====
-- What a leave does to the client list.
use colyseus_rs.Base.{
  ℕ, Bool, true, false, none, some, Text, List, [], ◌∷◌, ◌==◌, text_eq, ◌≡◌, ◌⊎◌, refl, ap, ◌∙◌,
  Bool-cases, inl, inr,
}
use colyseus_rs.Base.Maps.{lookup, is_some}
use colyseus_rs.Driver.{Numbers}
use colyseus_rs.Room.{Client, leaving, closed}
use colyseus_rs.Room.Handle.{cell, set_state, modify, leave}
use colyseus_rs.Room.Context.{find_client, get_client, without}
use colyseus_rs.Room.Broadcast.{drop_view_snapshot}
use colyseus_rs.Room.Actor.{RoomProgram, RoomActor, with_ctx}
use colyseus_rs.Room.Actor.Leave.{leave_client, is_gone, after_drop, run_drop, depart}
use colyseus_rs.Room.Capacity.{Roster, roster-sync_listing}

find_client-without : (id : Text) (cs : List Client) → find_client id (without id cs) ≡ none
unfolding find_client without
find_client-without id [] = refl
find_client-without id (c ∷ cs) = elim (Bool-cases (c.session_id == id)) [
  | inl same ↦ rw (same) (find_client-without id cs)
  | inr other ↦ rw (other, find_client, other) (find_client-without id cs)
]

module _ {R N S : Type 0} (num : Numbers N) (program : RoomProgram R N S) (now : ℕ) where
  depart-clients :
      (a : RoomActor R N S) (c : Client) (code : ℕ) (consented : Bool)
      → get_client (depart num program now a c code consented).ctx c.session_id ≡ none
  unfolding get_client drop_view_snapshot modify leave
  depart-clients a c code true =
      let h = program.on_leave a.room a.ctx c code in
      let told = leave (some code) none c (set_state closed c h.1) in
      let dropped = drop_view_snapshot c.session_id told in
      let last = record dropped { clients = without c.session_id dropped.clients } in
      ap (λ (r : Roster N). find_client c.session_id r.clients) (roster-sync_listing num last)
      ∙ find_client-without c.session_id dropped.clients
  depart-clients a c code false =
      let h = program.on_leave a.room a.ctx c code in
      let dropped = drop_view_snapshot c.session_id (set_state closed c h.1) in
      let last = record dropped { clients = without c.session_id dropped.clients } in
      ap (λ (r : Roster N). find_client c.session_id r.clients) (roster-sync_listing num last)
      ∙ find_client-without c.session_id dropped.clients

  -- When a client leaves, one of three things holds: it was leaving or closed already, and nothing
  -- changes; or, after `on_drop` has had its say, its token is among the reconnections, and the client
  -- list is as `on_drop` left it; or the token is not, and its session is no longer listed, whatever
  -- `on_leave` does.
  pub leave_client-outcome :
      (a : RoomActor R N S) (c : Client) (code : ℕ) (consented : Bool)
      → let dropped =
          run_drop num program now (with_ctx a (set_state leaving c a.ctx)) c code consented in
        let awaited =
          is_some (lookup (cell dropped.ctx c).reconnection_token dropped.ctx.reconnections) in
        let left = leave_client num program now a c code consented in
        ((is_gone (cell a.ctx c).state ≡ true) × (left ≡ a))
        ⊎ ((awaited ≡ true) × (left.ctx.clients ≡ dropped.ctx.clients))
        ⊎ ((awaited ≡ false) × (get_client left.ctx c.session_id ≡ none))
  unfolding leave_client modify
  leave_client-outcome a c code consented =
      let dropped =
        run_drop num program now (with_ctx a (set_state leaving c a.ctx)) c code consented in
      elim (Bool-cases (is_gone (cell a.ctx c).state)) [
        | inl gone ↦ inl (gone, rw (gone, leave_client) refl)
        | inr here ↦
            rw (here, leave_client)
              (elim (Bool-cases (
                is_some
                  (lookup (cell dropped.ctx c).reconnection_token dropped.ctx.reconnections))) [
                    | inl awaited ↦ inr (inl (awaited, rw (awaited, after_drop) refl))
                    | inr over ↦ inr (
                        inr (over, rw (over, after_drop) (depart-clients dropped c code consented)))
                  ])
      ]
