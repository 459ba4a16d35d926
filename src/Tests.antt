-- ===== src/Tests.antt =====
-- Runs of the models at concrete inputs, and the theorems at inputs that meet their hypotheses.
mod DiffRuns
mod StateRuns
mod RoomRuns
mod SeatRuns
mod DriverRuns
mod MatchRuns
mod PatchRuns
mod FileRuns
mod DemoRuns
mod TriviaRuns
