-- ===== src/Demos.antt =====
-- The demo servers under demos/.
pub mod TicTacToe
pub mod Trivia
