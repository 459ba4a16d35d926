-- ===== src/Room/Actor/Leave/Capacity.antt =====
-- Messages and disconnects keep the number of clients within the limit.
use colyseus_rs.Base.{ℕ, true, false, not, Option, none, some, List, [], ◌∷◌, if◌then◌else◌}
use colyseus_rs.Base.Result.{Result, ok, err}
use colyseus_rs.Json.{Value}
use colyseus_rs.Driver.{Numbers}
use colyseus_rs.Room.{
  Client, ServerError, MessageType, ClientMessage, leave_message, ping_message, data_message,
  data_bytes,
}
use colyseus_rs.Room.Handle.{modify, is_joined, check_rate, error}
use colyseus_rs.Room.Context.{get_client}
use colyseus_rs.Room.Actor.{Handled, RoomProgram, RoomActor, with_ctx, with_both}
use colyseus_rs.Room.Actor.Leave.{
  is_stale, leave_client, on_disconnected, report, run_handlers, run_any, on_data, on_data_bytes,
  dispatch, unseated, message_with, on_client_message,
}
use colyseus_rs.Room.Capacity.{Fits, roster}
use colyseus_rs.Room.Capacity.Careful.{IsCareful, branch-Fits}
use colyseus_rs.Room.Capacity.Endings.{leave_client-Fits}

module _ {R N S : Type 0} where
  check_rate-Fits :
      (max : Option ℕ) (now : ℕ) (c : Client) (a : RoomActor R N S)
      → Fits (roster a.ctx)
      → Fits (roster (check_rate max now c a.ctx).0)
  unfolding check_rate modify
  check_rate-Fits none now c a f = f
  check_rate-Fits (some m) now c a f = f

module _ {R N S : Type 0} (num : Numbers N) (program : RoomProgram R N S) (now : ℕ) where
  report-Fits :
      (c : Client) (r : Handled R N S × Result ServerError Unit)
      → Fits (roster r.0.1)
      → Fits (roster (report num program now c r).1)
  unfolding report error modify
  report-Fits c (h, ok u) f = f
  report-Fits c (h, err e) f = f

  run_handlers-Fits :
      (run : ℕ → Handled R N S → Handled R N S × Result ServerError Unit) (c : Client)
      → ((i : ℕ) (h : Handled R N S) → Fits (roster h.1) → Fits (roster (run i h).0.1))
      → (is : List ℕ) (h : Handled R N S) → Fits (roster h.1)
      → Fits (roster (run_handlers num program now run c is h).1)
  unfolding run_handlers
  run_handlers-Fits run c keeps [] h f = f
  run_handlers-Fits run c keeps (i ∷ is) h f =
      run_handlers-Fits run c keeps is _ (report-Fits c (run i h) (keeps i h f))

  run_any-Fits :
      (run : ℕ → Handled R N S → Handled R N S)
      → ((i : ℕ) (h : Handled R N S) → Fits (roster h.1) → Fits (roster (run i h).1))
      → (is : List ℕ) (h : Handled R N S) → Fits (roster h.1)
      → Fits (roster (run_any num program now run is h).1)
  unfolding run_any
  run_any-Fits run keeps [] h f = f
  run_any-Fits run keeps (i ∷ is) h f = run_any-Fits run keeps is _ (keeps i h f)

module _ {R N S : Type 0} (num : Numbers N) (program : RoomProgram R N S) (now : ℕ)
    (careful : IsCareful program) where
  on_data-Fits :
      (a : RoomActor R N S) (c : Client) (t : MessageType) (v : Value N)
      → Fits (roster a.ctx)
      → Fits (roster (on_data num program now a c t v).ctx)
  unfolding on_data
  on_data-Fits a c t v f =
      let r = check_rate a.ctx.max_messages_per_second now c a.ctx in
      let run = λ (i : ℕ) (h : Handled R N S). program.on_message i h.0 h.1 c v in
      let typed = run_handlers num program now run c (a.ctx.message_handlers t) (a.room, r.0) in
      let every =
        run_any num program now (λ i h. program.on_any_message i h.0 h.1 c t v) typed.1.any_handlers
          typed in
      let limited = check_rate-Fits a.ctx.max_messages_per_second now c a f in
      branch-Fits (not (is_joined a.ctx c)) a (if r.1 then with_both a every else with_ctx a r.0) f
        (branch-Fits r.1 (with_both a every) (with_ctx a r.0)
          (run_any-Fits num program now _ (λ i h g. careful.any_message_keeps i h.0 h.1 c t v g) _
            typed
            (run_handlers-Fits num program now run c
              (λ i h g. careful.message_keeps i h.0 h.1 c v g) (a.ctx.message_handlers t)
              (a.room, r.0) limited))
          limited)

  on_data_bytes-Fits :
      (a : RoomActor R N S) (c : Client) (t : MessageType) (bs : List ℕ)
      → Fits (roster a.ctx)
      → Fits (roster (on_data_bytes num program now a c t bs).ctx)
  unfolding on_data_bytes
  on_data_bytes-Fits a c t bs f =
      let r = check_rate a.ctx.max_messages_per_second now c a.ctx in
      let run = λ (i : ℕ) (h : Handled R N S). program.on_message_bytes i h.0 h.1 c bs in
      let typed = run_handlers num program now run c (a.ctx.bytes_handlers t) (a.room, r.0) in
      let limited = check_rate-Fits a.ctx.max_messages_per_second now c a f in
      branch-Fits (not (is_joined a.ctx c)) a (if r.1 then with_both a typed else with_ctx a r.0) f
        (branch-Fits r.1 (with_both a typed) (with_ctx a r.0)
          (run_handlers-Fits num program now run c
            (λ i h g. careful.message_bytes_keeps i h.0 h.1 c bs g) (a.ctx.bytes_handlers t)
            (a.room, r.0) limited)
          limited)

  dispatch-Fits :
      (a : RoomActor R N S) (c : Client) (m : ClientMessage N)
      → Fits (roster a.ctx)
      → Fits (roster (dispatch num program now a c m).ctx)
  unfolding modify
  dispatch-Fits a c ping_message f = f
  dispatch-Fits a c leave_message f = leave_client-Fits num program now careful a c 4000 true f
  dispatch-Fits a c (data_message t v) f = on_data-Fits a c t v f
  dispatch-Fits a c (data_bytes t bs) f = on_data_bytes-Fits a c t bs f

  unseated-Fits :
      (a : RoomActor R N S) (c : Client) (m : ClientMessage N)
      → Fits (roster a.ctx)
      → Fits (roster (unseated num program now a c m).ctx)
  unfolding modify
  unseated-Fits a c ping_message f = f
  unseated-Fits a c leave_message f = f
  unseated-Fits a c (data_message t v) f = f
  unseated-Fits a c (data_bytes t bs) f = f

  message_with-Fits :
      (a : RoomActor R N S) (c : Client) (m : ClientMessage N) (o : Option Client)
      → Fits (roster a.ctx)
      → Fits (roster (message_with num program now a c m o).ctx)
  message_with-Fits a c m none f = unseated-Fits a c m f
  message_with-Fits a c m (some d) f =
      branch-Fits (is_stale (some d) c) a (dispatch num program now a c m) f (dispatch-Fits a c m f)

  pub on_client_message-Fits :
      (a : RoomActor R N S) (c : Client) (m : ClientMessage N)
      → Fits (roster a.ctx)
      → Fits (roster (on_client_message num program now a c m).ctx)
  unfolding on_client_message
  on_client_message-Fits a c m f = message_with-Fits a c m (get_client a.ctx c.session_id) f

  pub on_disconnected-Fits :
      (a : RoomActor R N S) (c : Client) (code : ℕ)
      → Fits (roster a.ctx)
      → Fits (roster (on_disconnected num program now a c code).ctx)
  unfolding on_disconnected
  on_disconnected-Fits a c code f =
      branch-Fits (is_stale (get_client a.ctx c.session_id) c) a
        (leave_client num program now a c code false) f
        (leave_client-Fits num program now careful a c code false f)
