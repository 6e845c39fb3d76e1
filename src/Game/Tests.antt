-- ===== src/Game/Tests.antt =====
-- Games on which the theorems on game/ are used.
use nju_oslab.Prelude.{
  ℕ, zero, suc, ◌-◌, ◌%◌, ◌^◌, Bool, Bool-cases, inl, inr, ◌<◌, ◌≤◌, ◌≡◌, ◌↔◌, refl, true, false,
  List, [], ◌∷◌, get_or, ◌==◌, if◌then◌else◌, ok, Returns, arith, ◌>>◌,
}
use nju_oslab.Game.{
  Game, Event, timer, key, unknown, in_word, is_in_word, letter_code, press_from, query_key,
  keyboard_event, uncover,
}
use nju_oslab.Game.Keys.{query_key-keyboard_event}
use nju_oslab.Game.Round.{check_win, hide_letters}
use nju_oslab.Game.Round.Win.{IsWord, check_win_iff}
use nju_oslab.Game.Round.Hide.{IsMasked, found_at, hide_letters-IsMasked, uncover-check_win}
use nju_oslab.Game.Loop.{play_game}
use nju_oslab.Game.Loop.Playing.{ticks, IsCalm}
use nju_oslab.Game.Loop.Ends.{HasEnded}
use nju_oslab.Game.Loop.Ends.Begin.{play_game-HasEnded}
use nju_oslab.Game.Video.{draw_character}
use nju_oslab.Game.Video.Pixels.{Painted, rows_lit, draw_character-Painted}

-- "oak", of which the letter a is known.
abbrev oak : Game
oak = record {
  letter_pressed = λ _. false;
  letter_known = λ i. if i == 0 then in_word else unknown;
  key_code = 0;
  ans = λ i. get_or (b'o' ∷ b'a' ∷ b'k' ∷ []) i 0;
  show_str = λ i. get_or (b'_' ∷ b'a' ∷ b'_' ∷ []) i 0;
  wrong_guess = λ _. 0;
  hit = 0;
  miss = 0;
  tick = 0;
  now = 0;
  count_down = 50;
  real_fps = 0;
  num_draw = 0;
  seed = 0;
  tried = 0;
  moment = 0;
  vbuf = λ _. 0;
}

oak_letters : (i : ℕ) → i < 3 → (97 ≤ oak.ans i) × (oak.ans i < 123)
oak_letters zero p = omega arith
oak_letters (suc zero) p = omega arith
oak_letters (suc (suc zero)) p = omega arith
oak_letters (suc (suc (suc i))) p = absurd (omega arith)

oak-IsWord : IsWord oak.ans 3
oak-IsWord = record { fits = omega arith; letters = oak_letters; ends = refl }

check_win_iff_example :
    Returns
      (λ won t.
        (t ≡ oak)
        × ((won ≡ true)
            ↔ ((j : ℕ) → j < 3 → is_in_word (oak.letter_known (oak.ans j - 97)) ≡ true)))
      (check_win oak)
check_win_iff_example = check_win_iff oak 3 oak-IsWord

query_key-keyboard_event_example :
    (do keyboard_event 30; query_key 0) oak
    ≡ ok true (record oak { key_code = 30; letter_pressed = press_from 26 0 30 oak.letter_pressed })
unfolding letter_code
query_key-keyboard_event_example = query_key-keyboard_event 30 0 oak (omega arith)

draw_character-Painted_example :
    Returns (λ _ t. Painted oak (rows_lit 65 192 312 0 8) 12 t) (draw_character 65 192 312 12 oak)
draw_character-Painted_example =
    draw_character-Painted 65 192 312 12 oak (omega arith) (omega arith) (omega arith)

uncover-check_win_example :
    Returns
      (λ won t.
        ((j : ℕ) → j < 3 → t.show_str j ≡ (if found_at oak j then oak.ans j else oak.show_str j))
        × ((won ≡ true) → (j : ℕ) → j < 3 → t.show_str j ≡ oak.ans j))
      ((do uncover 3 0; check_win) oak)
uncover-check_win_example = uncover-check_win 3 oak oak-IsWord

-- "oak" before its letters are hidden.
abbrev bare_oak : Game
bare_oak = record oak { show_str = oak.ans }

hide_letters-IsMasked_example :
    Returns
      (λ _ t. (t.ans ≡ bare_oak.ans) × ((t.letter_known ≡ bare_oak.letter_known) × IsMasked t 3))
      (hide_letters 3 0 bare_oak)
hide_letters-IsMasked_example = hide_letters-IsMasked 3 bare_oak oak-IsWord (λ _ _. refl)

-- A tick for each wait, and the letter k pressed every time.
abbrev tick_and_key : ℕ → List Event
tick_and_key k = timer ∷ key 37 ∷ []

one_tick_each : (k : ℕ) → (0 < ticks (tick_and_key k)) × (ticks (tick_and_key k) ≤ 2 ^ 24)
unfolding ticks
one_tick_each k = (omega arith, omega arith)

-- Ticks, and presses of the letters e and k, while the game computes.
abbrev tick_or_keys : ℕ → List Event
tick_or_keys k = if k % 7 == 0 then timer ∷ key 18 ∷ [] else key 37 ∷ []

tick_or_keys-IsCalm : IsCalm tick_or_keys
unfolding ticks
tick_or_keys-IsCalm k = elim (Bool-cases (k % 7 == 0)) [
  | inl e ↦ rw e (omega arith)
  | inr e ↦ rw e (omega arith)
]

-- `found` is false at every other try.
abbrev every_other : ℕ → Bool
every_other k = k % 2 == 0

play_game-HasEnded_example :
    Returns
      (λ _ t. (n : ℕ) × HasEnded n t)
      (play_game (λ _. oak.ans) every_other tick_or_keys tick_and_key 4904 0 oak)
play_game-HasEnded_example =
    play_game-HasEnded (λ _. oak.ans) (λ i p. (3, oak-IsWord)) every_other tick_or_keys tick_and_key
      4904 0 oak (omega arith) tick_or_keys-IsCalm one_tick_each
