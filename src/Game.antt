-- ===== src/Game.antt =====
-- The game of game/: its globals, the keyboard of game/keyboard.c, the random numbers of
-- game/rand.c, and the key presses of game/effect.c.
pub mod Font
pub mod Round
pub mod Video
pub mod Screens
pub mod Calls
pub mod Loop
pub mod Keys
mod Tests
use nju_oslab.Prelude.{
  ℕ, zero, suc, ◌+◌, ◌-◌, ◌*◌, ◌/◌, ◌%◌, ◌^◌, Bool, true, false, not, ◌&&◌, ◌||◌, Option, none,
  some, List, [], ◌∷◌, get_or, ltb, leb, ◌==◌, if◌then◌else◌, ok, fault, M, pure, get, put,
  in_range, my_assert, ◌>>=◌, ◌>>◌, update,
}
use nju_oslab.LibString.{strlen}

pub data LetterState : Type 0 where
  unknown in_word out_word : LetterState

abbrev pub is_unknown : LetterState → Bool
is_unknown unknown = true
is_unknown _ = false

abbrev pub is_in_word : LetterState → Bool
is_in_word in_word = true
is_in_word _ = false

abbrev pub nr_key : ℕ
nr_key = 26

-- The room in `ans` and in `show_str`.
abbrev pub ans_size : ℕ
ans_size = 30

-- The globals of the game. `count_down` is an int. `tried` and `moment` count how often `guess` and
-- `interrupt` have been reached: they stand for what the program's text does not fix.
pub record Game : Type 0 where
  pub letter_pressed : ℕ → Bool
  pub letter_known : ℕ → LetterState
  pub key_code : ℕ
  pub ans : ℕ → ℕ
  pub show_str : ℕ → ℕ
  pub wrong_guess : ℕ → ℕ
  pub hit : ℕ
  pub miss : ℕ
  pub tick : ℕ
  pub now : ℕ
  pub count_down : ℕ
  pub real_fps : ℕ
  pub num_draw : ℕ
  pub seed : ℕ
  pub tried : ℕ
  pub moment : ℕ
  pub vbuf : ℕ → ℕ

abbrev pub GameM : Type 0 → Type 0
GameM A = M Game A

unfoldable pub srand : ℕ → GameM (Unit {0})
srand s g = ok tt (record g { seed = s })

unfoldable pub rand : GameM ℕ
rand g =
    let seed = (0x015A4E35 * g.seed + 1) % 2 ^ 32 in
    ok (seed / 2 ^ 16 % 2 ^ 15) (record g { seed = seed })

unfoldable pub letter_code : ℕ → ℕ
letter_code i =
    get_or
      (30 ∷ 48 ∷ 46 ∷ 32 ∷ 18 ∷ 33 ∷ 34 ∷ 35 ∷ 23 ∷ 36 ∷ 37 ∷ 38 ∷ 50 ∷ 49 ∷ 24 ∷ 25 ∷ 16 ∷ 19 ∷ 31
        ∷ 20 ∷ 22 ∷ 47 ∷ 17 ∷ 45 ∷ 21 ∷ 44 ∷ [])
      i 0

-- The loop of `press_key`, with the letters left.
unfoldable pub press_from : ℕ → ℕ → ℕ → (ℕ → Bool) → ℕ → Bool
press_from zero i scan_code pressed = pressed
press_from (suc n) i scan_code pressed =
    press_from n (i + 1) scan_code
      (if letter_code i == scan_code then update pressed i true else pressed)

unfoldable pub press_key : ℕ → GameM (Unit {0})
press_key scan_code g =
    ok tt (record g { letter_pressed = press_from 26 0 scan_code g.letter_pressed })

-- At an index that is not negative.
unfoldable pub release_key : ℕ → GameM (Unit {0})
release_key index = do
  my_assert (ltb index 26)
  g ← get
  put (record g { letter_pressed = update g.letter_pressed index false })

unfoldable pub query_key : ℕ → GameM Bool
query_key index = do my_assert (ltb index 26); g ← get; pure (g.letter_pressed index)

unfoldable pub keyboard_event : ℕ → GameM (Unit {0})
keyboard_event code = do g ← get; put (record g { key_code = code }); press_key code

unfoldable pub timer_event : GameM (Unit {0})
timer_event g = ok tt (record g { tick = g.tick + 1 })

-- An interrupt that the game handles.
pub data Event : Type 0 where
  timer : Event
  key : ℕ → Event

unfoldable pub handle_event : Event → GameM (Unit {0})
handle_event timer = timer_event
handle_event (key code) = keyboard_event code

unfoldable pub handle_events : List Event → GameM (Unit {0})
handle_events [] = pure tt
handle_events (e ∷ es) = do handle_event e; handle_events es

-- A moment at which interrupts may come while the game computes: `meanwhile` has those of each moment
-- in turn. They change `tick`, `letter_pressed` and `key_code` only, so that it is enough to let them
-- in between the accesses to these.
unfoldable pub interrupt : (ℕ → List Event) → GameM (Unit {0})
interrupt meanwhile = do
  g ← get
  put (record g { moment = g.moment + 1 })
  handle_events (meanwhile g.moment)

-- The answer of `strlen`; without a NUL in the array it runs out of it.
unfoldable pub length_or_fault : Option ℕ → GameM ℕ
length_or_fault none g = fault
length_or_fault (some n) g = ok n g

-- `strlen` of a global of 30 bytes
unfoldable pub length_of : (ℕ → ℕ) → GameM ℕ
length_of s = length_or_fault (strlen ans_size s)

-- `letter_known[c - 'a']`
unfoldable pub known_at : ℕ → GameM LetterState
known_at c = do in_range (leb 97 c && ltb c 123); g ← get; pure (g.letter_known (c - 97))

unfoldable pub set_known : ℕ → LetterState → GameM (Unit {0})
set_known i k g = ok tt (record g { letter_known = update g.letter_known i k })

-- The loop over the word for the letter i, with the bytes left, the index, and `found` so far.
unfoldable pub find_letter : ℕ → ℕ → ℕ → Bool → GameM Bool
find_letter zero j i found g = ok found g
find_letter (suc n) j i found g =
    let rest = find_letter n (j + 1) i in
    (if g.ans j == i + 97 then (do set_known i in_word; rest true) else rest found) g

unfoldable pub wrong_letter : ℕ → GameM (Unit {0})
wrong_letter i = do
  g ← get
  in_range (ltb g.miss 26)
  put (record g { wrong_guess = update g.wrong_guess g.miss (97 + i); miss = g.miss + 1 })
  set_known i out_word

-- What `update_keypress` does with a letter that was pressed and is still unknown. `found` is not
-- initialised: `before` is what the variable holds at each try.
unfoldable pub guess : (ℕ → Bool) → ℕ → GameM (Unit {0})
guess before i = do
  g ← get
  put (record g { tried = g.tried + 1 })
  n ← length_of g.ans
  found ← find_letter n 0 i (before g.tried)
  if found then pure tt else wrong_letter i

-- The loop over the keys, with the keys left. A letter that was tried before ends it.
unfoldable pub try_keys : (ℕ → List Event) → (ℕ → Bool) → ℕ → ℕ → GameM (Unit {0})
try_keys meanwhile before zero i = pure tt
try_keys meanwhile before (suc n) i =
    let rest = try_keys meanwhile before n (i + 1) in
    (do
      interrupt meanwhile
      pressed ← query_key i
      if not pressed then rest else (do
        interrupt meanwhile
        release_key i
        g ← get
        if is_unknown (g.letter_known i) then (do guess before i; rest) else pure tt))

-- The loop that uncovers the letters found, with the bytes left.
unfoldable pub uncover : ℕ → ℕ → GameM (Unit {0})
uncover zero i = pure tt
uncover (suc n) i = do
  g ← get
  k ← known_at (g.ans i)
  put (if is_in_word k then record g { show_str = update g.show_str i (g.ans i) } else g)
  uncover n (i + 1)

unfoldable pub update_keypress : (ℕ → List Event) → (ℕ → Bool) → GameM (Unit {0})
update_keypress meanwhile before = do
  try_keys meanwhile before nr_key 0
  g ← get
  n ← length_of g.ans
  uncover n 0
