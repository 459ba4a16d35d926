-- ===== src/Room/Snapshot/Deadlines.antt =====
-- Expiry times across a restart.
use colyseus_rs.Base.{ℕ, ◌-◌, ◌≤◌, Bool-cases, inl, inr, leb, leb→le, leb→gt, ◌≡◌, arith}
use colyseus_rs.Room.{Clocks}
use colyseus_rs.Room.Snapshot.{instant_to_wallclock_ms, wallclock_ms_to_instant}

-- A deadline that is saved and restored while the wall clock runs on has the time left that it had, less
-- the time between, and none where that is used up; the two monotonic clocks need not be related.
pub wallclock_round_trip :
    (before after : Clocks) (t : ℕ)
    → before.wallclock ≤ after.wallclock
    → wallclock_ms_to_instant after (instant_to_wallclock_ms before t) - after.instant
      ≡ t - before.instant - (after.wallclock - before.wallclock)
unfolding instant_to_wallclock_ms wallclock_ms_to_instant
wallclock_round_trip before after t h = elim (Bool-cases (leb t before.instant)) [
  | inl past ↦
      let p = leb→le t before.instant past in
      rw (past, instant_to_wallclock_ms) (omega (arith, h, p))
  | inr ahead ↦
      let p = leb→gt t before.instant ahead in
      rw (ahead, instant_to_wallclock_ms) (omega (arith, h, p))
]
