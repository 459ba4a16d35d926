-- ===== src/Demos/TicTacToe/Lines.antt =====
-- What `check_winner` of demos/tictactoe/server/src/main.rs decides, against the lines of the board.
use mathlib.Core.List.{Memᴰ}
use colyseus_rs.Base.{ℕ, true, false, Option, none, some, List, All, all, ◌≡◌}
use colyseus_rs.Base.Maps.{is_some}
use colyseus_rs.Demos.TicTacToe.{Symbol, Outcome, won, draw, Board, win_lines, at}

-- The symbol stands in all three cells of the line.
abbrev pub Fills : Board → Symbol → ℕ × ℕ × ℕ → Type 0
Fills board s line =
    (at board line.0 ≡ some s) × (at board line.1 ≡ some s) × (at board line.2 ≡ some s)

-- What each outcome says of the board.
abbrev pub Verdict : Board → Option Outcome → Type 0
Verdict board (some (won s)) = (line : ℕ × ℕ × ℕ) × Memᴰ line win_lines × Fills board s line
Verdict board (some draw) =
    All (λ line. (s : Symbol) → Fills board s line → ⊥) win_lines × (all is_some board ≡ true)
Verdict board none =
    All (λ line. (s : Symbol) → Fills board s line → ⊥) win_lines × (all is_some board ≡ false)
