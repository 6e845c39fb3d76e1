-- ===== src/Game/Loop.antt =====
-- game/game.c: `main_loop`, over the interrupts that arrive.
pub mod Drawing
pub mod Unknowns
pub mod Playing
pub mod Guesses
pub mod Clock
pub mod Ends
use nju_oslab.Prelude.{
  ℕ, zero, suc, ◌+◌, ◌-◌, ◌^◌, Bool, false, not, ◌&&◌, ◌||◌, List, [], ◌∷◌, ltb, leb, ◌==◌,
  if◌then◌else◌, hang, pure, get, put, my_assert, ◌>>=◌, ◌>>◌,
}
use nju_oslab.Game.{GameM, Event, handle_events, interrupt, query_key, update_keypress}
use nju_oslab.Game.Round.{hangman_init, check_win, advance}
use nju_oslab.Game.Screens.{redraw_screen, draw_fail, draw_win}

abbrev pub miss_end : ℕ
miss_end = 10

-- "TIME IS UP! "
abbrev pub time_is_up : List ℕ
time_is_up = b'T' ∷ b'I' ∷ b'M' ∷ b'E' ∷ b' ' ∷ b'I' ∷ b'S' ∷ b' ' ∷ b'U' ∷ b'P' ∷ b'!' ∷ b' ' ∷ []

-- "The man was hung to death. CRUEL YOU"
abbrev pub cruel_you : List ℕ
cruel_you =
    b'T' ∷ b'h' ∷ b'e' ∷ b' ' ∷ b'm' ∷ b'a' ∷ b'n' ∷ b' ' ∷ b'w' ∷ b'a' ∷ b's' ∷ b' ' ∷ b'h' ∷ b'u'
    ∷ b'n' ∷ b'g' ∷ b' ' ∷ b't' ∷ b'o' ∷ b' ' ∷ b'd' ∷ b'e' ∷ b'a' ∷ b't' ∷ b'h' ∷ b'.' ∷ b' '
    ∷ b'C' ∷ b'R' ∷ b'U' ∷ b'E' ∷ b'L' ∷ b' ' ∷ b'Y' ∷ b'O' ∷ b'U' ∷ []

-- `0 < i`, at an int
abbrev pub is_positive : ℕ → Bool
is_positive i = ltb 0 i && ltb i (2 ^ 31)

-- `sel_words` are the words; `before` is what the variable `found` holds (see `guess`); `meanwhile` are
-- the interrupts that come while the game computes (see `interrupt`), and `arrivals k` those of the
-- k-th wait.
module _ (sel_words : ℕ → ℕ → ℕ) (before : ℕ → Bool) (meanwhile arrivals : ℕ → List Event) where
  -- The loop's body at `now != tick`.
  unfoldable pub play_ticks : GameM (Unit {0})
  play_ticks = do
    interrupt meanwhile
    g ← get
    my_assert (ltb g.now g.tick)
    interrupt meanwhile
    g ← get
    let target = g.tick
    update_keypress meanwhile before
    g ← get
    redraw ← advance (target - g.now) false
    if redraw
        then (do g ← get; put (record g { num_draw = g.num_draw + 1 }); redraw_screen)
        else pure tt

  -- `while (!check_win() && count_down > 0 && get_miss() < MISS_END)`, with the rounds that are
  -- allowed and the number of the next wait.
  unfoldable pub play : ℕ → ℕ → GameM ℕ
  play zero k = λ g. hang
  play (suc fuel) k =
      let waited = play fuel (k + 1) in
      let played = play fuel k in
      (do
        won ← check_win
        g ← get
        if not won && (is_positive g.count_down && ltb g.miss miss_end)
            then (do
              interrupt meanwhile
              g ← get
              if g.now == g.tick
                  then (do handle_events (arrivals k); waited)
                  else (do play_ticks; played))
            else pure k)

  unfoldable pub draw_result : GameM (Unit {0})
  draw_result = do
    g ← get
    if not (is_positive g.count_down) then draw_fail time_is_up else (do
      won ← check_win
      if won then draw_win else if leb miss_end g.miss then draw_fail cruel_you else pure tt)

  -- `while(TRUE) { if(query_key('r' - 'a')) break; }`, with the looks that are allowed.
  unfoldable pub wait_restart : ℕ → GameM (Unit {0})
  wait_restart zero = λ g. hang
  wait_restart (suc fuel) =
      let again = wait_restart fuel in
      (do interrupt meanwhile; pressed ← query_key 17; if pressed then pure tt else again)

  -- A game up to its last screen.
  unfoldable pub play_game : ℕ → ℕ → GameM ℕ
  play_game fuel k = do hangman_init sel_words; k ← play fuel k; draw_result; pure k

  -- The body of the endless loop.
  unfoldable pub one_game : ℕ → ℕ → GameM ℕ
  one_game fuel k = do k ← play_game fuel k; wait_restart fuel; pure k

  -- The endless loop, up to the number of games.
  unfoldable pub main_loop : ℕ → ℕ → ℕ → GameM ℕ
  main_loop fuel zero k = pure k
  main_loop fuel (suc games) k = do k ← one_game fuel k; main_loop fuel games k
