-- ===== src/Game/Loop/Guesses.antt =====
-- The key presses of a game that is played.
use nju_oslab.Prelude.{
  ◌*◌, List, ℕ, zero, suc, ◌+◌, ◌≤◌, ◌<◌, ◌≡◌, refl, ◌∙◌, sym, subst, Bool, true, false, ◌&&◌,
  Bool-cases, inl, inr, ltb, lt→ltb, ◌==◌, if◌then◌else◌, update, Returns, returns, Returns-bind,
  Returns-mono, arith,
}
use nju_oslab.Game.{
  Event, Game, in_word, out_word, is_unknown, find_letter, set_known, wrong_letter, guess,
  query_key, release_key, try_keys, nr_key, uncover, update_keypress,
}
use nju_oslab.Game.Round.Win.{IsText, length_of-IsWord}
use nju_oslab.Game.Round.Hide.{Shows, uncover-from, found_at, hit_from}
use nju_oslab.Game.Loop.Unknowns.{unknowns, unknowns-update}
use nju_oslab.Game.Loop.Drawing.{AreLetters}
use nju_oslab.Game.Loop.Playing.{IsPlaying, IsCalm, Plays, Plays-trans, Plays-from, interrupt-Plays}

-- What the search for a letter in the word leaves.
record HasSearched (g : Game) (found : Bool) (r : Bool) (t : Game) : Type 0 where
  same : t ≡ record g { letter_known = t.letter_known }
  stays : found ≡ true → r ≡ true
  nothing : r ≡ false → t ≡ g
  fewer : unknowns 26 t.letter_known ≤ unknowns 26 g.letter_known

find_letter-HasSearched :
    (n j i : ℕ) (found : Bool) (g : Game)
    → Returns (λ r t. HasSearched g found r t) (find_letter n j i found g)
unfolding find_letter set_known
find_letter-HasSearched zero j i found g =
    returns record { same = refl; stays = λ e. e; nothing = λ e. refl; fewer = omega arith }
find_letter-HasSearched (suc n) j i found g = elim (Bool-cases (g.ans j == i + 97)) [
  | inl e ↦
      let t : Game = record g { letter_known = update g.letter_known i in_word } in
      rw e (
        Returns-mono (find_letter-HasSearched n (j + 1) i true t) (λ r u h. record {
          same = h.same;
          stays = λ _. h.stays refl;
          nothing = λ f. absurd (ground (arith, f, h.stays refl));
          fewer = omega (arith, h.fewer, unknowns-update 26 i in_word g.letter_known refl);
        }))
  | inr e ↦ rw e (find_letter-HasSearched n (j + 1) i found g)
]

-- A text that is shown, after some of its places have been replaced by characters of the font.
pub Shows-IsText :
    (n : ℕ) (g t : Game) (hits : ℕ → Bool) (c : ℕ → ℕ)
    → Shows g hits c 0 n t
    → IsText g.show_str n
    → ((j : ℕ) → j < n → (0 < c j) × (c j < 128))
    → IsText t.show_str n
Shows-IsText n g t hits c s h chars = record {
  fits = h.fits;
  chars = λ j lt. rw (s.text j) (char j lt);
  ends = s.text n ∙ last;
}
  where
    char :
        (j : ℕ)
        → j < n
        → (0 < (if hit_from hits 0 n j then c j else g.show_str j))
          × ((if hit_from hits 0 n j then c j else g.show_str j) < 128)
    char j lt = elim (Bool-cases (hit_from hits 0 n j)) [
      | inl f ↦ rw f (chars j lt)
      | inr f ↦ rw f (h.chars j lt)
    ]

    last : (if hit_from hits 0 n n then c n else g.show_str n) ≡ zero
    last = let out : hit_from hits 0 n n ≡ false = ground arith in rw out h.ends

module _ (n : ℕ) where
  wrong_letter-Plays :
      (i : ℕ) (g : Game)
      → i < 26
      → is_unknown (g.letter_known i) ≡ true
      → IsPlaying n g
      → Returns (λ _ t. Plays n 0 g t) (wrong_letter i g)
  unfolding wrong_letter set_known
  wrong_letter-Plays i g lt e p =
      let count = unknowns-update 26 i out_word g.letter_known refl in
      let one : (if ltb i 26 && is_unknown (g.letter_known i) then 1 else 0) ≡ suc zero =
        rw (lt→ltb i 26 lt, e) refl in
      rw (lt→ltb g.miss 26 (omega (arith, p.room, count, one))) (
        returns record {
          playing = record {
            word = p.word;
            shown = record {
              text = p.shown.text;
              few = omega (arith, p.room, count, one);
              letters = letters;
            };
            room = omega (arith, p.room, count, one);
          };
          clock = record { from = omega arith; to = omega arith; now = refl; count_down = refl };
        })
    where
      letters : AreLetters (update g.wrong_guess g.miss (97 + i)) (g.miss + 1)
      letters j q = elim (Bool-cases (g.miss == j)) [
        | inl f ↦ rw f (omega arith, omega (arith, lt))
        | inr f ↦ rw f (p.shown.letters j (ground (arith, f, q)))
      ]

  guess-Plays :
      (before : ℕ → Bool) (i : ℕ) (g : Game)
      → i < 26
      → is_unknown (g.letter_known i) ≡ true
      → IsPlaying n g
      → Returns (λ _ t. Plays n 0 g t) (guess before i g)
  unfolding guess
  guess-Plays before i g lt e p =
      let g' : Game = record g { tried = g.tried + 1 } in
      rw (length_of-IsWord g' g.ans n p.word) (
        Returns-bind (find_letter-HasSearched n 0 i (before g.tried) g') (λ r t h.
          elim (Bool-cases r) [
            | inl y ↦ rw y (
                returns (
                  subst (λ x. Plays n 0 g x) (sym h.same)
                    record {
                      playing = record {
                        word = p.word;
                        shown = record {
                          text = p.shown.text;
                          few = p.shown.few;
                          letters = p.shown.letters;
                        };
                        room = omega (arith, h.fewer, p.room);
                      };
                      clock = record {
                        from = omega arith;
                        to = omega arith;
                        now = refl;
                        count_down = refl;
                      };
                    }))
            | inr y ↦
                rw (y, h.nothing y)
                  (Returns-mono (wrong_letter-Plays i g' lt e p)
                    (λ _ u w. Plays-from n 0 g g' u refl refl refl w))
          ]))

  try_keys-Plays :
      (meanwhile : ℕ → List Event) (before : ℕ → Bool) (m i : ℕ) (g : Game)
      → IsCalm meanwhile
      → i + m ≤ 26
      → IsPlaying n g
      → Returns (λ _ t. Plays n (2 * m) g t) (try_keys meanwhile before m i g)
  unfolding try_keys query_key release_key
  try_keys-Plays meanwhile before zero i g calm le p = returns record {
    playing = p;
    clock = record { from = omega arith; to = omega arith; now = refl; count_down = refl };
  }
  try_keys-Plays meanwhile before (suc m) i g calm le p =
      Returns-bind (interrupt-Plays n meanwhile g calm p) (λ _ u a.
        rw (lt→ltb i 26 (omega arith)) (elim (Bool-cases (u.letter_pressed i)) [
          | inl e ↦ rw e (
              Returns-bind (interrupt-Plays n meanwhile u calm a.playing) (λ _ v b.
                let v' : Game = record v { letter_pressed = update v.letter_pressed i false } in
                elim (Bool-cases (is_unknown (v.letter_known i))) [
                  | inl q ↦ rw q (
                      Returns-bind (guess-Plays before i v' (omega arith) q b.playing) (λ _ w c.
                        Returns-mono
                          (try_keys-Plays meanwhile before m (i + 1) w calm (omega arith) c.playing)
                          (λ _ x d.
                            Plays-trans n 1 (1 + 2 * m) (2 * suc m) g u x (omega arith) a.clock (
                              Plays-trans n 1 (2 * m) (1 + 2 * m) u v x (omega arith) b.clock (
                                Plays-from n (2 * m) v v' x refl refl refl (
                                  Plays-trans n 0 (2 * m) (2 * m) v' w x (omega arith) c.clock
                                    d))))))
                  | inr q ↦ rw q (
                      returns (
                        Plays-trans n 1 1 (2 * suc m) g u v' (omega arith) a.clock record {
                          playing = b.playing;
                          clock = record {
                            from = b.clock.from;
                            to = b.clock.to;
                            now = b.clock.now;
                            count_down = b.clock.count_down;
                          };
                        }))
                ]))
          | inr e ↦ rw e (
              Returns-mono
                (try_keys-Plays meanwhile before m (i + 1) u calm (omega arith) a.playing)
                (λ _ v b. Plays-trans n 1 (2 * m) (2 * suc m) g u v (omega arith) a.clock b))
        ]))

  uncover-Plays : (g : Game) → IsPlaying n g → Returns (λ _ t. Plays n 0 g t) (uncover n 0 g)
  uncover-Plays g p =
      Returns-mono (uncover-from n 0 g (λ j a b. p.word.letters j (omega (arith, b)))) (λ _ t s.
        subst (λ x. Plays n 0 g x) (sym s.same)
          record {
            playing = record {
              word = p.word;
              shown = record {
                text =
                    Shows-IsText n g t (found_at g) g.ans s p.shown.text
                      (λ j lt. let l = p.word.letters j lt in (omega (arith, l), omega (arith, l)));
                few = p.shown.few;
                letters = p.shown.letters;
              };
              room = p.room;
            };
            clock = record { from = omega arith; to = omega arith; now = refl; count_down = refl };
          })

  -- The key presses leave a game that is played.
  pub update_keypress-Plays :
      (meanwhile : ℕ → List Event) (before : ℕ → Bool) (g : Game)
      → IsCalm meanwhile
      → IsPlaying n g
      → Returns (λ _ t. Plays n 52 g t) (update_keypress meanwhile before g)
  unfolding update_keypress
  update_keypress-Plays meanwhile before g calm p =
      Returns-bind (try_keys-Plays meanwhile before nr_key 0 g calm (omega arith) p) (λ _ t a.
        rw (length_of-IsWord t t.ans n a.playing.word) (
          Returns-mono (uncover-Plays t a.playing)
            (λ _ u b. Plays-trans n 52 0 52 g t u (omega arith) a.clock b)))
