-- ===== src/Game/Screens.antt =====
-- game/draw.c: the screens of the game. A text is the bytes before its NUL.
pub mod Fit
use nju_oslab.Prelude.{
  ℕ, zero, suc, ◌+◌, ◌-◌, ◌*◌, ◌/◌, Bool, true, false, List, [], ◌∷◌, length, ltb, leb, ok, M, pure,
  get, put, in_range, ◌>>=◌, ◌>>◌,
}
use nju_oslab.LibString.{itoa}
use nju_oslab.Game.{Game, GameM, length_of}
use nju_oslab.Game.Video.{scr_width, scr_height, prepare_buffer, draw_character, draw_string}

-- "PRESS R TO RESTART"
abbrev pub end_tip : List ℕ
end_tip =
    80 ∷ 82 ∷ 69 ∷ 83 ∷ 83 ∷ 32 ∷ 82 ∷ 32 ∷ 84 ∷ 79 ∷ 32 ∷ 82 ∷ 69 ∷ 83 ∷ 84 ∷ 65 ∷ 82 ∷ 84 ∷ []

-- "Congratulations! You win."
abbrev pub endword_win : List ℕ
endword_win =
    67 ∷ 111 ∷ 110 ∷ 103 ∷ 114 ∷ 97 ∷ 116 ∷ 117 ∷ 108 ∷ 97 ∷ 116 ∷ 105 ∷ 111 ∷ 110 ∷ 115 ∷ 33 ∷ 32
    ∷ 89 ∷ 111 ∷ 117 ∷ 32 ∷ 119 ∷ 105 ∷ 110 ∷ 46 ∷ []

-- "Guess the word:"
abbrev pub tip : List ℕ
tip = 71 ∷ 117 ∷ 101 ∷ 115 ∷ 115 ∷ 32 ∷ 116 ∷ 104 ∷ 101 ∷ 32 ∷ 119 ∷ 111 ∷ 114 ∷ 100 ∷ 58 ∷ []

-- "MISS:"
abbrev pub miss_label : List ℕ
miss_label = 77 ∷ 73 ∷ 83 ∷ 83 ∷ 58 ∷ []

-- "TIME:"
abbrev pub time_label : List ℕ
time_label = 84 ∷ 73 ∷ 77 ∷ 69 ∷ 58 ∷ []

-- `strlen(i) / 2 * 8`
unfoldable pub c_width : List ℕ → ℕ
c_width text = length text / 2 * 8

-- A text in the middle of the columns. A start left of the screen is outside the model: the run
-- fails.
unfoldable pub draw_centered : List ℕ → ℕ → ℕ → GameM (Unit {0})
draw_centered text x color = do
  in_range (leb (c_width text) (scr_width / 2))
  draw_string text x (scr_width / 2 - c_width text) color

-- The wrong guesses, in capitals, with the number of those left.
unfoldable pub draw_guesses : ℕ → ℕ → ℕ → GameM (Unit {0})
draw_guesses zero i skip = pure tt
draw_guesses (suc n) i skip = do
  in_range (ltb i 26)
  g ← get
  draw_character (g.wrong_guess i + 65 - 97) (scr_height - 9) skip 12
  draw_guesses n (i + 1) (skip + 12)

unfoldable pub draw_miss : GameM (Unit {0})
draw_miss = do
  g ← get
  draw_string miss_label (scr_height - 18) 0 12
  draw_string (itoa g.miss) (scr_height - 18) (length miss_label * 8) 12
  draw_guesses g.miss 0 0

-- The first n bytes of a global.
unfoldable pub bytes_of : ℕ → ℕ → (ℕ → ℕ) → List ℕ
bytes_of zero i s = []
bytes_of (suc n) i s = s i ∷ bytes_of n (i + 1) s

-- `display_buffer` is a system call that leaves the game's memory alone.
unfoldable pub redraw_screen : GameM (Unit {0})
redraw_screen = do
  prepare_buffer
  draw_centered tip (scr_height / 4 - 8) 48
  g ← get
  n ← length_of g.show_str
  let shown = bytes_of n 0 g.show_str
  draw_centered shown (scr_height / 4 + 8) 48
  draw_string (itoa g.hit) 0 (scr_width - length (itoa g.hit) * 8) 10
  draw_miss
  draw_string time_label 0 0 14
  draw_string (itoa g.count_down) 0 (length time_label * 8) 14

-- `draw_fail`, and `draw_win` with its own text, without the system call of `display_buffer`.
unfoldable pub draw_end : List ℕ → GameM (Unit {0})
draw_end endword = do
  prepare_buffer
  draw_centered endword (scr_height / 2 - 12) 14
  draw_centered end_tip (scr_height / 2) 14

unfoldable pub draw_fail : List ℕ → GameM (Unit {0})
draw_fail = draw_end

unfoldable pub draw_win : GameM (Unit {0})
draw_win = draw_end endword_win
