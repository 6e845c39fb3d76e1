-- ===== src/Game/Loop/Ends/Begin.antt =====
-- The start of a game, and the whole of it.
use nju_oslab.Prelude.{
  ℕ, zero, suc, ◌+◌, ◌-◌, ◌*◌, ◌/◌, ◌%◌, ◌^◌, ◌≤◌, ◌<◌, ◌≡◌, refl, ap, ◌∙◌, sym, subst, Bool, true,
  false, ◌&&◌, Bool-cases, inl, inr, List, ltb, leb, lt→ltb, update, Returns, returns, Returns-bind,
  Returns-mono, arith,
}
use nju_oslab.LibString.{strcpy}
use nju_oslab.Game.{Game, Event, unknown, in_word, nr_key, rand, release_key, set_known}
use nju_oslab.Game.Round.{nr_words, countdown, prob_hide, release_keys, show_letters, hangman_init}
use nju_oslab.Game.Round.Win.{IsWord, IsText, IsWord-IsText, length_of-IsWord}
use nju_oslab.Game.Round.Hide.{Shows, unknown_at, hide_letters-from}
use nju_oslab.Game.Loop.{play_game}
use nju_oslab.Game.Loop.Playing.{IsPlaying, ticks, many, IsCalm}
use nju_oslab.Game.Loop.Unknowns.{unknowns-most}
use nju_oslab.Game.Loop.Guesses.{Shows-IsText}
use nju_oslab.Game.Loop.Clock.{time_left}
use nju_oslab.Game.Loop.Ends.{IsOnTime, rounds_left, HasEnded, play-HasEnded, draw_result-HasEnded}

release_keys-same :
    (m i : ℕ) (g : Game)
    → i + m ≤ 26
    → Returns (λ _ t. t ≡ record g { letter_pressed = t.letter_pressed }) (release_keys m i g)
unfolding release_keys release_key
release_keys-same zero i g le = returns refl
release_keys-same (suc m) i g le = rw (lt→ltb i 26 (omega arith)) (
    Returns-mono
      (release_keys-same m (i + 1) (record g { letter_pressed = update g.letter_pressed i false })
        (omega arith))
      (λ _ t e. e))

show_letters-same :
    (m i : ℕ) (g : Game)
    → ((j : ℕ) → i ≤ j → j < i + m → (97 ≤ g.ans j) × (g.ans j < 123))
    → Returns
        (λ _ t. t ≡ record g { letter_known = t.letter_known; seed = t.seed })
        (show_letters m i g)
unfolding show_letters rand set_known
show_letters-same zero i g l = returns refl
show_letters-same (suc m) i g l =
    let letter = l i (omega arith) (omega arith) in
    let e : (leb 97 (g.ans i) && ltb (g.ans i) 123) ≡ true = ground (arith, letter) in
    elim (Bool-cases (ltb prob_hide ((0x015A4E35 * g.seed + 1) % 2 ^ 32 / 2 ^ 16 % 2 ^ 15 % 100))) [
      | inl f ↦
          let t : Game = record g {
            seed = (0x015A4E35 * g.seed + 1) % 2 ^ 32;
            letter_known = update g.letter_known (g.ans i - 97) in_word;
          } in
          rw (f, e)
            (Returns-mono (show_letters-same m (i + 1) t (λ j a b. l j (omega arith) (omega arith)))
              (λ _ u h. h))
      | inr f ↦
          let t : Game = record g { seed = (0x015A4E35 * g.seed + 1) % 2 ^ 32 } in
          rw f (
            Returns-mono (show_letters-same m (i + 1) t (λ j a b. l j (omega arith) (omega arith)))
              (λ _ u h. h))
    ]

copied : (d s : ℕ → ℕ) (n j : ℕ) → j ≤ n → strcpy d s n j ≡ s j
unfolding strcpy
copied d s n j le =
    let low : leb 0 j ≡ true = ground arith in
    rw (low, lt→ltb j (0 + (n + 1)) (omega arith)) (ap s (omega arith))

copied-IsWord : (d s : ℕ → ℕ) (n : ℕ) → IsWord s n → IsWord (strcpy d s n) n
copied-IsWord d s n w = record {
  fits = w.fits;
  letters = λ j lt. rw (copied d s n j (omega (arith, lt))) (w.letters j lt);
  ends = copied d s n n (omega arith) ∙ w.ends;
}

-- Between the steps of the start.
record IsReady (n : ℕ) (g : Game) : Type 0 where
  word : IsWord g.ans n
  miss : g.miss ≡ 0
  now : g.now ≡ 0
  tick : g.tick ≡ 0
  count_down : g.count_down ≡ 50

-- A game that has begun.
pub record HasBegun (n : ℕ) (g : Game) : Type 0 where
  pub playing : IsPlaying n g
  pub now : g.now ≡ 0
  pub tick : g.tick ≡ 0
  pub count_down : g.count_down ≡ 50

-- Each of the words is a word.
abbrev pub AreWords : (ℕ → ℕ → ℕ) → Type 0
AreWords sel_words = (i : ℕ) → i < nr_words → (n : ℕ) × IsWord (sel_words i) n

after_keys :
    (n : ℕ) (g t : Game)
    → t ≡ record g { letter_pressed = t.letter_pressed }
    → IsReady n g
    → IsReady n t
after_keys n g t e r =
    subst (λ x. IsReady n x) (sym e)
      record { word = r.word; miss = r.miss; now = r.now; tick = r.tick; count_down = r.count_down }

after_letters :
    (n : ℕ) (g t : Game)
    → t ≡ record g { letter_known = t.letter_known; seed = t.seed }
    → IsReady n g
    → IsReady n t
after_letters n g t e r =
    subst (λ x. IsReady n x) (sym e)
      record { word = r.word; miss = r.miss; now = r.now; tick = r.tick; count_down = r.count_down }

-- The text that is shown hides the letters that are unknown.
after_text :
    (n : ℕ) (g t : Game)
    → Shows g (unknown_at g) (λ _. 95) 0 n t
    → IsText g.show_str n
    → IsReady n g
    → HasBegun n t
after_text n g t s text r =
    let shown =
      Shows-IsText n g t (unknown_at g) (λ _. 95) s text (λ j lt. (omega arith, omega arith)) in
    let none_missed : t.miss ≡ 0 = ap (λ (x : Game). x.miss) s.same ∙ r.miss in
    record {
      playing = record {
        word = subst (λ a. IsWord a n) (sym s.same_word) r.word;
        shown = record {
          text = shown;
          few = omega (arith, none_missed);
          letters = λ j lt. absurd (omega (arith, lt, none_missed));
        };
        room = omega (arith, none_missed, unknowns-most 26 t.letter_known);
      };
      now = ap (λ (x : Game). x.now) s.same ∙ r.now;
      tick = ap (λ (x : Game). x.tick) s.same ∙ r.tick;
      count_down = ap (λ (x : Game). x.count_down) s.same ∙ r.count_down;
    }

HasBegun-IsOnTime : (n : ℕ) (g : Game) → HasBegun n g → IsOnTime n 60 g
HasBegun-IsOnTime n g b = record {
  playing = b.playing;
  count_down = b.count_down ∙ ap time_left {x = 0} {y = g.now} (sym b.now);
  now = omega (arith, b.now);
  behind = omega (arith, b.now);
  near = omega (arith, b.tick);
}

HasBegun-rounds :
    (n : ℕ) (g : Game) → HasBegun n g → (fuel : ℕ) → 4904 ≤ fuel → rounds_left g < fuel
HasBegun-rounds n g b fuel enough = rw (b.now, b.tick) (omega (arith, enough))

module _ (sel_words : ℕ → ℕ → ℕ) (words : AreWords sel_words) where
  hangman_init-HasBegun :
      (g : Game) → Returns (λ _ t. (n : ℕ) × HasBegun n t) (hangman_init sel_words g)
  unfolding hangman_init rand
  hangman_init-HasBegun g =
      let seed : ℕ = (0x015A4E35 * g.seed + 1) % 2 ^ 32 in
      let i : ℕ = seed / 2 ^ 16 % 2 ^ 15 % nr_words in
      let (n, w) = words i (omega arith) in
      let g1 : Game = record g { miss = 0; hit = 0; now = 0; tick = 0; seed = seed } in
      let g2 : Game = record g1 {
        ans = strcpy g.ans (sel_words i) n;
        count_down = countdown;
        letter_known = λ _. unknown;
      } in
      let ready : IsReady n g2 = record {
        word = copied-IsWord g.ans (sel_words i) n w;
        miss = refl;
        now = refl;
        tick = refl;
        count_down = refl;
      } in
      rw (length_of-IsWord g1 (sel_words i) n w) (
        Returns-bind (release_keys-same nr_key 0 g2 (omega arith)) (λ _ t a.
          let r = after_keys n g2 t a ready in
          Returns-bind (show_letters-same n 0 t (λ j p q. r.word.letters j (omega (arith, q))))
            (λ _ u b.
              let q = after_letters n t u b r in
              let u' : Game = record u { show_str = strcpy u.show_str u.ans n } in
              Returns-mono (hide_letters-from n 0 u' (λ j x y. q.word.letters j (omega (arith, y))))
                (λ _ v s. (
                  n,
                  after_text n u' v s
                      (IsWord-IsText u'.show_str n (copied-IsWord u.show_str u.ans n q.word))
                      record {
                        word = q.word;
                        miss = q.miss;
                        now = q.now;
                        tick = q.tick;
                        count_down = q.count_down;
                      },
                )))))

  module _ (before : ℕ → Bool) (meanwhile arrivals : ℕ → List Event) where
    -- Let each of the words be one of lower-case letters that fits `ans`; let every wait bring
    -- at least one tick of the timer and at most 2 ^ 24, among any presses of keys; and let
    -- other interrupts come at any moment of the steps (before `now == tick`, before the
    -- assertion, before `target = tick`, before each key is looked at and before it is
    -- released), with at most 2 ^ 24 ticks each and any presses of keys. Then 4904 rounds are
    -- enough for a whole game, from `hangman_init` to its last screen, whatever the
    -- uninitialised `found` holds at each try, a value of its own for each. No assertion fails
    -- and no array is left on the way; at the end there is a word of lower-case letters in
    -- `ans`, every wrong guess is a letter, there are at most 26, and every letter of the word
    -- is found, or the time is up (2451 ticks at least have been worked off, and the int
    -- `count_down` is zero or negative), or there are ten misses.
    pub play_game-HasEnded :
        (fuel k : ℕ) (g : Game)
        → 4904 ≤ fuel
        → IsCalm meanwhile
        → ((k : ℕ) → (0 < ticks (arrivals k)) × (ticks (arrivals k) ≤ many))
        → Returns
            (λ _ t. (n : ℕ) × HasEnded n t)
            (play_game sel_words before meanwhile arrivals fuel k g)
    unfolding play_game
    play_game-HasEnded fuel k g enough calm a =
        Returns-bind (hangman_init-HasBegun g) (λ _ t (n, b).
          Returns-bind
            (play-HasEnded sel_words before meanwhile arrivals calm n fuel k t a
              (HasBegun-IsOnTime n t b) (HasBegun-rounds n t b fuel enough))
            (λ k' u e.
              Returns-bind (draw_result-HasEnded sel_words before meanwhile arrivals calm n u e)
                (λ _ v f. returns (n, f))))
