-- ===== src/Room/Handle.antt =====
-- `Client` of crates/colyseus/src/client.rs. An operation on a handle changes its cell in the store.
pub mod Rate
use colyseus_rs.Base.{
  ℕ, ◌+◌, ◌-◌, ◌/◌, ◌%◌, ◌^◌, ◌&&◌, Bool, true, false, Option, none, some, Text, List, [], ◌∷◌,
  ◌++◌, ◌==◌, text_eq, if◌then◌else◌, leb, text,
}
use colyseus_rs.Json.{Value}
use colyseus_rs.Room.{
  ClientState, joining, joined, reconnecting, reconnected, leaving, closed, Frame, error_frame,
  Outbound, bytes, close, Client, Cell, AfterPatchItem, to_client, RoomContext, room_data,
  room_data_bytes, MessageType,
}

-- `Client::new`
abbrev pub new_cell : {N : Type 0} → ℕ → Cell N
new_cell now = record {
  state = joining;
  auth = none;
  user_data = none;
  reconnection_token = [];
  pending = [];
  after_patch = false;
  rate = (now, 0);
  sent = [];
}

abbrev pub is_joined_state : ClientState → Bool
is_joined_state joined = true
is_joined_state reconnected = true
is_joined_state _ = false

abbrev pub is_waiting_state : ClientState → Bool
is_waiting_state joining = true
is_waiting_state reconnecting = true
is_waiting_state _ = false

code_or : Option ℕ → ℕ
code_or none = 1000
code_or (some code) = code

reason_or : Option Text → Text
reason_or none = []
reason_or (some reason) = reason

-- `check_rate`: the window of the cell after one more message, a `u32`, and whether it is allowed.
unfoldable pub rate_step : ℕ → ℕ → ℕ × ℕ → (ℕ × ℕ) × Bool
rate_step max now (start, count) =
    let fresh = leb 1 ((now - start) / 1000) in
    let window : ℕ × ℕ = if fresh then (now, 0) else (start, count) in
    let n = (window.1 + 1) % 2 ^ 32 in ((window.0, n), leb n max)

module _ {N S : Type 0} where
  abbrev pub cell : RoomContext N S → Client → Cell N
  cell ctx c = ctx.cells c.connection_id

  unfoldable pub modify : Client → (Cell N → Cell N) → RoomContext N S → RoomContext N S
  modify c f ctx = record ctx {
    cells = λ i. if i == c.connection_id then f (ctx.cells i) else ctx.cells i;
  }

  abbrev pub is_joined : RoomContext N S → Client → Bool
  is_joined ctx c = is_joined_state (cell ctx c).state

  abbrev pub set_state : ClientState → Client → RoomContext N S → RoomContext N S
  set_state s c = modify c (λ x. record x { state = s })

  abbrev pub set_auth : Option (Value N) → Client → RoomContext N S → RoomContext N S
  set_auth a c = modify c (λ x. record x { auth = a })

  abbrev pub set_user_data : Value N → Client → RoomContext N S → RoomContext N S
  set_user_data v c = modify c (λ x. record x { user_data = some v })

  abbrev pub set_reconnection_token : Text → Client → RoomContext N S → RoomContext N S
  set_reconnection_token t c = modify c (λ x. record x { reconnection_token = t })

  abbrev pub attach_after_patch : Client → RoomContext N S → RoomContext N S
  attach_after_patch c = modify c (λ x. record x { after_patch = true })

  abbrev send_out : Outbound N → Client → RoomContext N S → RoomContext N S
  send_out o c = modify c (λ x. record x { sent = x.sent ++ (o ∷ []) })

  abbrev pub raw_now : Frame N → Client → RoomContext N S → RoomContext N S
  raw_now f = send_out (bytes f)

  abbrev pub close_transport : ℕ → Text → Client → RoomContext N S → RoomContext N S
  close_transport code reason = send_out (close code reason)

  unfoldable pub leave : Option ℕ → Option Text → Client → RoomContext N S → RoomContext N S
  unfolding code_or reason_or
  leave code reason c ctx =
      send_out (close (code_or code) (reason_or reason)) c (set_state leaving c ctx)

  -- A frame after its room's next patch, at once, after the join, or dropped.
  unfoldable pub deliver : Frame N → Bool → Client → RoomContext N S → RoomContext N S
  deliver f after_next_patch c ctx =
      let x = cell ctx c in
      if after_next_patch && x.after_patch
      then record ctx {
        after_patch =
            ctx.after_patch ++ (record { target = to_client c.session_id; frame = f } ∷ []);
      }
      else (if is_joined_state x.state
          then raw_now f c ctx
          else (if is_waiting_state x.state
              then modify c (λ y. record y { pending = y.pending ++ (f ∷ []) }) ctx
              else ctx))

  unfoldable pub send : MessageType → Value N → Bool → Client → RoomContext N S → RoomContext N S
  send t v after_next_patch = deliver (room_data t v) after_next_patch

  unfoldable pub send_bytes : MessageType → List ℕ → Client → RoomContext N S → RoomContext N S
  send_bytes t payload = deliver (room_data_bytes t payload) false

  unfoldable pub error : ℕ → Text → Client → RoomContext N S → RoomContext N S
  error code message = raw_now (error_frame code message)

  unfoldable pub raw_all : List (Frame N) → Client → RoomContext N S → RoomContext N S
  raw_all [] c ctx = ctx
  raw_all (f ∷ fs) c ctx = raw_all fs c (raw_now f c ctx)

  unfoldable pub flush_pending : Client → RoomContext N S → RoomContext N S
  flush_pending c ctx =
      raw_all (cell ctx c).pending c (modify c (λ x. record x { pending = [] }) ctx)

  unfoldable pub check_rate : Option ℕ → ℕ → Client → RoomContext N S → RoomContext N S × Bool
  check_rate none now c ctx = (ctx, true)
  check_rate (some max) now c ctx =
      let r = rate_step max now (cell ctx c).rate in
      (modify c (λ x. record x { rate = r.0 }) ctx, r.1)
