-- ===== src/Game/Round.antt =====
-- game/game.c: a round of the game. `sel_words` is the list of words in game/sel_words.h, a
-- parameter of the model, as functions into bytes.
pub mod Win
pub mod Hide
use nju_oslab.Prelude.{
  ℕ, zero, suc, ◌+◌, ◌-◌, ◌*◌, ◌/◌, ◌%◌, ◌^◌, Bool, true, false, not, ◌&&◌, ◌||◌, min, ltb, leb,
  ◌==◌, if◌then◌else◌, ok, M, pure, get, put, in_range, my_assert, ◌>>=◌, ◌>>◌, update, sub32,
}
use nju_oslab.LibString.{strcpy}
use nju_oslab.Game.{
  Game, GameM, LetterState, unknown, in_word, is_unknown, is_in_word, rand, release_key, length_of,
  known_at, set_known, nr_key, ans_size,
}

abbrev pub nr_words : ℕ
nr_words = 126

abbrev pub prob_hide : ℕ
prob_hide = 70

abbrev pub countdown : ℕ
countdown = 50

-- `for(int i = 0; i < NR_KEY; i++) release_key(i);`, with the keys left.
unfoldable pub release_keys : ℕ → ℕ → GameM (Unit {0})
release_keys zero i = pure tt
release_keys (suc n) i = do release_key i; release_keys n (i + 1)

-- The letters that are shown from the start, with the bytes left.
unfoldable pub show_letters : ℕ → ℕ → GameM (Unit {0})
show_letters zero i = pure tt
show_letters (suc n) i = do
  r ← rand
  g ← get
  if ltb prob_hide (r % 100)
      then (do in_range (leb 97 (g.ans i) && ltb (g.ans i) 123); set_known (g.ans i - 97) in_word)
      else pure tt
  show_letters n (i + 1)

-- `if(letter_known[ans[i] - 'a'] == UNKNOWN) show_str[i] = '_';`, with the bytes left.
unfoldable pub hide_letters : ℕ → ℕ → GameM (Unit {0})
hide_letters zero i = pure tt
hide_letters (suc n) i = do
  g ← get
  k ← known_at (g.ans i)
  put (if is_unknown k then record g { show_str = update g.show_str i 95 } else g)
  hide_letters n (i + 1)

unfoldable pub hangman_init : (sel_words : ℕ → ℕ → ℕ) → GameM (Unit {0})
hangman_init sel_words = do
  g ← get
  put (record g { miss = 0; hit = 0; now = 0; tick = 0 })
  r ← rand
  n ← length_of (sel_words (r % nr_words))
  g ← get
  put (record g {
    ans = strcpy g.ans (sel_words (r % nr_words)) n;
    count_down = countdown;
    letter_known = λ _. unknown;
  })
  release_keys nr_key 0
  show_letters n 0
  g ← get
  put (record g { show_str = strcpy g.show_str g.ans n })
  hide_letters n 0

-- The loop of `check_win`, with the bytes left.
unfoldable pub check_win_from : ℕ → ℕ → GameM Bool
check_win_from zero i = pure true
check_win_from (suc n) i = do
  g ← get
  k ← known_at (g.ans i)
  if is_in_word k then check_win_from n (i + 1) else pure false

unfoldable pub check_win : GameM Bool
check_win = do g ← get; n ← length_of g.ans; check_win_from n 0

unfoldable pub set_fps : ℕ → GameM (Unit {0})
set_fps value g = ok tt (record g { real_fps = value })

unfoldable pub get_fps : GameM ℕ
get_fps g = ok g.real_fps g

abbrev pub fps : ℕ
fps = 30

-- The frame rate is set every 50 ticks, from the screens drawn since then.
unfoldable pub count_frames : GameM (Unit {0})
count_frames = do
  g ← get
  set_fps (min (g.num_draw * 2 + 1) fps)
  g ← get
  put (record g { num_draw = 0 })

-- `while (now < target)` of `main_loop`, with the ticks left: the time, the count-down, which loses
-- one every 50 ticks, and whether the screen is to be drawn.
unfoldable pub advance : ℕ → Bool → GameM Bool
advance zero redraw = pure redraw
advance (suc n) redraw = do
  g ← get
  put (record g { count_down = if g.now % 50 == 0 then sub32 g.count_down 1 else g.count_down })
  if g.now % 50 == 0 then count_frames else pure tt
  g ← get
  put (record g { now = g.now + 1 })
  advance n (redraw || (g.now % 3 == 0))
