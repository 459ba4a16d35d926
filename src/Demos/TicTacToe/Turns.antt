-- ===== src/Demos/TicTacToe/Turns.antt =====
-- The turns of a game of demos/tictactoe/server/src/main.rs: when a room is sound, and that a move keeps
-- it so.
use colyseus_rs.Base.{
  ℕ, zero, suc, ◌+◌, ◌<◌, ◌&&◌, not, Bool, true, false, Option, none, some, Text, [], ◌∷◌, text_eq,
  nat_eq, ltb, length, ◌≡◌, refl, sym, ap, ◌∙◌, subst, arith, and_both,
}
use colyseus_rs.Base.Result.{Result, ok, bind_ok, ok_or}
use colyseus_rs.Base.Maps.{lookup, is_some}
use colyseus_rs.Demos.TicTacToe.{
  Symbol, x, o, Status, waiting, playing, finished, Outcome, PlayerInfo, Board, TttState, TttRoom,
  symbol_eqb, at, check_winner, set_cell, other, settled, is_playing, check, play, is_finished,
}

abbrev pub one_if : Bool → ℕ
one_if true = 1
one_if false = 0

abbrev pub holds : Symbol → Option Symbol → Bool
holds s none = false
holds s (some t) = symbol_eqb s t

-- The cells with the symbol.
abbrev pub count : Symbol → Board → ℕ
count s [] = 0
count s (c ∷ board) = one_if (holds s c) + count s board

-- By how much the cells of X exceed those of O: X moves first, and the turn of the last move stands.
abbrev pub ahead : Status → Symbol → ℕ
ahead finished x = 1
ahead finished o = 0
ahead _ x = 0
ahead _ o = 1

abbrev pub is_waiting : Status → Bool
is_waiting waiting = true
is_waiting _ = false

-- The board, turn, status, winner and players agree.
pub record IsSound (s : TttState) : Type 0 where
  pub nine : length s.board ≡ 9
  pub balance : count x s.board ≡ count o s.board + ahead s.status s.turn
  pub winner_checked : s.winner ≡ check_winner s.board
  pub ended : is_finished s.status ≡ is_some s.winner
  pub two_players : is_waiting s.status ≡ false → length s.players ≡ 2

length-set_cell : (i : ℕ) (s : Symbol) (board : Board) → length (set_cell i s board) ≡ length board
unfolding set_cell
length-set_cell i s [] = refl
length-set_cell zero s (c ∷ board) = refl
length-set_cell (suc i) s (c ∷ board) = ap suc (length-set_cell i s board)

count-set_cell :
    (t : Symbol) (i : ℕ) (s : Symbol) (board : Board)
    → is_some (at board i) ≡ false
    → i < length board
    → count t (set_cell i s board) ≡ count t board + one_if (symbol_eqb t s)
unfolding set_cell
count-set_cell t i s [] free inside = absurd (omega (arith, inside))
count-set_cell t zero s (none ∷ board) free inside = omega arith
count-set_cell t zero s (some c ∷ board) free inside = cc free
count-set_cell t (suc i) s (c ∷ board) free inside =
    omega (arith, count-set_cell t i s board free (omega (arith, inside)))

symbol_sound : (a b : Symbol) → symbol_eqb a b ≡ true → a ≡ b
symbol_sound x x h = refl
symbol_sound o o h = refl
symbol_sound x o h = cc h
symbol_sound o x h = cc h

check_passed : (b : Bool) (m : Text) {u : Unit} → check b m ≡ ok u → b ≡ true
check_passed true m h = refl
check_passed false m h = cc h

playing_status : (s : Status) → is_playing s ≡ true → s ≡ playing
playing_status playing h = refl
playing_status waiting h = cc h
playing_status finished h = cc h

after_move :
    (turn : Symbol) (xs os : ℕ)
    → xs ≡ os + ahead playing turn
    → (xs + one_if (symbol_eqb x turn) ≡ os + one_if (symbol_eqb o turn) + ahead finished turn)
      × (xs + one_if (symbol_eqb x turn)
          ≡ os + one_if (symbol_eqb o turn) + ahead playing (other turn))
after_move x xs os h = (omega (arith, h), omega (arith, h))
after_move o xs os h = (omega (arith, h), omega (arith, h))

settled-IsSound :
    (player : PlayerInfo) (s : TttState) (room : TttRoom) (w : Option Outcome)
    → length s.board ≡ 9
    → s.status ≡ playing
    → s.winner ≡ none
    → length s.players ≡ 2
    → check_winner s.board ≡ w
    → count x s.board ≡ count o s.board + ahead finished player.symbol
    → count x s.board ≡ count o s.board + ahead playing (other player.symbol)
    → player.symbol ≡ s.turn
    → IsSound (settled player s room w).state
unfolding settled
settled-IsSound player s room (some winner) nine status open_game two checked last next turn =
    record {
      nine = nine;
      balance = last ∙ ap (λ (t : Symbol). count o s.board + ahead finished t) turn;
      winner_checked = sym checked;
      ended = refl;
      two_players = λ h. two;
    }
settled-IsSound player s room none nine status open_game two checked last next turn = record {
  nine = nine;
  balance =
      next ∙ ap (λ (t : Status). count o s.board + ahead t (other player.symbol)) (sym status);
  winner_checked = open_game ∙ sym checked;
  ended = cc (status, open_game);
  two_players = λ h. two;
}

not_ended : {w : Option Outcome} → is_some w ≡ false → w ≡ none
not_ended {w = none} h = refl
not_ended {w = some a} h = cc h

not-true : (b : Bool) → not b ≡ true → b ≡ false
not-true false h = refl
not-true true h = cc h

ltb→lt : (a b : ℕ) → ltb a b ≡ true → a < b
ltb→lt a b h = ground arith

same_ok : {E A : Type 0} {a b : A} → ◌≡◌ {A = Result E A} (ok a) (ok b) → a ≡ b
same_ok h = cc h

-- A move keeps the room sound, if its handler accepts it.
pub play-IsSound :
    (session_id : Text) (cell : ℕ) (room room' : TttRoom)
    → play session_id cell room ≡ ok room'
    → IsSound room.state
    → IsSound room'.state
unfolding play
play-IsSound session_id cell room room' played sound =
    let (u, started, h1) = bind_ok (check (is_playing room.state.status) _) _ played in
    let (player, known, h2) = bind_ok (ok_or (lookup session_id room.state.players) _) _ h1 in
    let (v, turn, h3) = bind_ok (check (symbol_eqb player.symbol room.state.turn) _) _ h2 in
    let (w, free, h4) =
      bind_ok (check (ltb cell 9 && not (is_some (at room.state.board cell))) _) _ h3 in
    let mine = symbol_sound player.symbol room.state.turn (check_passed _ _ turn) in
    let status = playing_status room.state.status (check_passed _ _ started) in
    let (inside, empty) = and_both (ltb cell 9) _ (check_passed _ _ free) in
    let open_game : room.state.winner ≡ none =
      not_ended (sym sound.ended ∙ ap is_finished status) in
    let in_board : cell < length room.state.board =
      omega (arith, sound.nine, ltb→lt cell 9 inside) in
    let was_empty = not-true _ empty in
    let balance : count x room.state.board
        ≡ count o room.state.board + ahead playing player.symbol =
      subst
        (λ (a : Status).
          count x room.state.board ≡ count o room.state.board + ahead a player.symbol)
        status
        (subst
          (λ (t : Symbol).
            count x room.state.board ≡ count o room.state.board + ahead room.state.status t)
          (sym mine) sound.balance) in
    let xs = count-set_cell x cell player.symbol room.state.board was_empty in_board in
    let os = count-set_cell o cell player.symbol room.state.board was_empty in_board in
    let (last, next) =
      after_move player.symbol (count x room.state.board) (count o room.state.board) balance in
    let s = record room.state { board = set_cell cell player.symbol room.state.board } in
    subst (λ (r : TttRoom). IsSound r.state) (same_ok h4)
      (settled-IsSound player s room (check_winner s.board)
        (length-set_cell cell player.symbol room.state.board ∙ sound.nine) status open_game
        (sound.two_players (ap is_waiting status)) refl (omega (arith, xs, os, last))
        (omega (arith, xs, os, next)) mine)
