-- ===== src/Game/Loop/Drawing.antt =====
-- The screen of a game that is played fits.
use nju_oslab.Prelude.{
  Run, and_then, ℕ, zero, suc, ◌+◌, ◌-◌, ◌*◌, ◌/◌, ◌%◌, ◌^◌, ◌≤◌, ◌<◌, ◌≡◌, refl, ap, sym, subst,
  Bool-cases, inl, inr, List, [], ◌∷◌, length, ltb, lt→ltb, ◌==◌, Returns, returns, Returns-bind,
  Returns-mono, arith,
}
use nju_oslab.LibString.{itoa, itoa_from, itoa_negative}
use nju_oslab.Game.{Game, GameM}
use nju_oslab.Game.Round.Win.{IsText, length_of-IsText}
use nju_oslab.Game.Video.{scr_width, scr_height, prepare_buffer}
use nju_oslab.Game.Screens.{
  tip, miss_label, time_label, draw_guesses, draw_miss, bytes_of, redraw_screen,
}
use nju_oslab.Game.Screens.Fit.{
  Drawn, Drawn-trans, IsAscii, no_more, one_more, all_ascii, all_ascii-IsAscii,
  draw_character-Drawn, draw_string-Drawn, draw_centered-Drawn,
}

-- A text of the font of at most `room` characters.
abbrev Prints : ℕ → List ℕ → Type 0
Prints room text = IsAscii text × (length text ≤ room)

itoa_from-Prints :
    (room a most : ℕ) (text : List ℕ)
    → IsAscii text
    → length text + room ≤ most
    → Prints most (itoa_from room a text)
unfolding itoa_from
itoa_from-Prints zero a most text h p = (h, omega arith)
itoa_from-Prints (suc room) a most text h p = elim (Bool-cases (a / 10 == 0)) [
  | inl e ↦ rw e (one_more (omega arith) h, omega arith)
  | inr e ↦ rw e (
      itoa_from-Prints room (a / 10) most ((48 + a % 10) ∷ text) (one_more (omega arith) h)
        (omega arith))
]

itoa_negative-Prints :
    (room a most : ℕ) (text : List ℕ)
    → IsAscii text
    → length text + room ≤ most
    → Prints most (itoa_negative room a text)
unfolding itoa_negative
itoa_negative-Prints zero a most text h p = (h, omega arith)
itoa_negative-Prints (suc room) a most text h p = elim (Bool-cases (a / 10 == 0)) [
  | inl e ↦ rw e (one_more (omega arith) h, omega arith)
  | inr e ↦ rw e (
      itoa_negative-Prints room (a / 10) most ((48 - a % 10) ∷ text) (one_more (omega arith) h)
        (omega arith))
]

itoa-Prints : (a : ℕ) → Prints 29 (itoa a)
unfolding itoa
itoa-Prints a = elim (Bool-cases (ltb a (2 ^ 31))) [
  | inl e ↦ rw e (itoa_from-Prints 29 a 29 [] no_more (omega arith))
  | inr e ↦ rw e (itoa_negative-Prints 29 (2 ^ 32 - a) 29 [] no_more (omega arith))
]

-- The bytes of a text.
bytes_of-Prints :
    (n i : ℕ) (s : ℕ → ℕ) → ((j : ℕ) → i ≤ j → j < i + n → s j < 128) → Prints n (bytes_of n i s)
unfolding bytes_of
bytes_of-Prints zero i s h = (no_more, omega arith)
bytes_of-Prints (suc n) i s h =
    let rest = bytes_of-Prints n (i + 1) s (λ j p q. h j (omega arith) (omega arith)) in
    (one_more (h i (omega arith) (omega arith)) rest.0, omega (arith, rest.1))

-- The first n wrong guesses are letters.
abbrev pub AreLetters : (ℕ → ℕ) → ℕ → Type 0
AreLetters w n = (j : ℕ) → j < n → (97 ≤ w j) × (w j < 123)

draw_guesses-Drawn :
    (n i : ℕ) (g : Game)
    → i + n ≤ 26
    → AreLetters g.wrong_guess (i + n)
    → Returns (Drawn g) (draw_guesses n i (12 * i) g)
unfolding draw_guesses
draw_guesses-Drawn zero i g p l = returns refl
draw_guesses-Drawn (suc n) i g p l =
    let next : 12 * i + 12 ≡ 12 * (i + 1) = omega arith in
    let letter = l i (omega arith) in
    rw (lt→ltb i 26 (omega arith), next)
      (Returns-bind
        (draw_character-Drawn (g.wrong_guess i + 65 - 97) (scr_height - 9) (12 * i) 12 g
          (omega (arith, letter)) (omega arith) (omega arith))
        (λ _ t d.
          Returns-mono
            (draw_guesses-Drawn n (i + 1) t (omega arith) (
              subst (λ w. AreLetters w (i + 1 + n)) (sym (ap (λ (x : Game). x.wrong_guess) d))
                (λ j q. l j (omega arith))))
            (λ _ u e. Drawn-trans g t u d e)))

-- What the screen needs of the globals.
pub record CanShow (show_str : ℕ → ℕ) (miss : ℕ) (wrong_guess : ℕ → ℕ) (n : ℕ) : Type 0 where
  pub text : IsText show_str n
  pub few : miss ≤ 26
  pub letters : AreLetters wrong_guess miss

abbrev pub IsShown : Game → ℕ → Type 0
IsShown g n = CanShow g.show_str g.miss g.wrong_guess n

pub IsShown-Drawn : (g t : Game) (n : ℕ) → Drawn g tt t → IsShown g n → IsShown t n
IsShown-Drawn g t n d h = subst (λ x. IsShown x n) (sym d) h

-- A drawing after another.
Drawn-then :
    {r : Run Game (Unit {0})} (k : Unit {0} → GameM (Unit {0})) (g : Game)
    → Returns (Drawn g) r
    → ((t : Game) → Drawn g tt t → Returns (Drawn t) (k tt t))
    → Returns (Drawn g) (and_then r k)
Drawn-then k g r next =
    Returns-bind r (λ _ t d. Returns-mono (next t d) (λ _ u e. Drawn-trans g t u d e))

label-IsAscii : IsAscii tip × (IsAscii miss_label × IsAscii time_label)
unfolding all_ascii
label-IsAscii = (
  all_ascii-IsAscii tip refl,
  (all_ascii-IsAscii miss_label refl, all_ascii-IsAscii time_label refl),
)

draw_miss-Drawn : (g : Game) (n : ℕ) → IsShown g n → Returns (Drawn g) (draw_miss g)
unfolding draw_miss
draw_miss-Drawn g n h =
    Drawn-then _ g
      (draw_string-Drawn miss_label (scr_height - 18) 0 12 g label-IsAscii.1.0 (omega arith)
        (omega arith))
      (λ t d.
        Drawn-then _ t
          (draw_string-Drawn (itoa g.miss) (scr_height - 18) (length miss_label * 8) 12 t
            (itoa-Prints g.miss).0 (omega arith) (omega (arith, (itoa-Prints g.miss).1)))
          (λ u e.
            let q = IsShown-Drawn g u n (Drawn-trans g t u d e) h in
            let same : u.miss ≡ g.miss = ap (λ (x : Game). x.miss) (Drawn-trans g t u d e) in
            draw_guesses-Drawn g.miss 0 u (omega (arith, h.few))
              (λ j a. q.letters j (omega (arith, a, same)))))

-- The screen is drawn, and nothing else changes.
pub redraw_screen-Drawn : (g : Game) (n : ℕ) → IsShown g n → Returns (Drawn g) (redraw_screen g)
unfolding redraw_screen prepare_buffer
redraw_screen-Drawn g n h =
    Drawn-then _ g
      (draw_centered-Drawn tip (scr_height / 4 - 8) 48 _ label-IsAscii.0 (omega arith)
        (omega arith))
      (λ t d.
        let q = IsShown-Drawn g t n d h in
        let shown =
          bytes_of-Prints n 0 t.show_str (λ j a b. (q.text.chars j (omega (arith, b))).1) in
        rw (length_of-IsText t t.show_str n q.text) (
          Drawn-then _ t
            (draw_centered-Drawn (bytes_of n 0 t.show_str) (scr_height / 4 + 8) 48 t shown.0
              (omega (arith, shown.1, q.text.fits)) (omega arith))
            (λ t1 d1.
              Drawn-then _ t1
                (draw_string-Drawn (itoa t.hit) 0 (scr_width - length (itoa t.hit) * 8) 10 t1
                  (itoa-Prints t.hit).0 (omega arith) (omega (arith, (itoa-Prints t.hit).1)))
                (λ t2 d2.
                  Drawn-then _ t2
                    (draw_miss-Drawn t2 n (IsShown-Drawn t t2 n (Drawn-trans t t1 t2 d1 d2) q))
                    (λ t3 d3.
                      Drawn-then _ t3
                        (draw_string-Drawn time_label 0 0 14 t3 label-IsAscii.1.1 (omega arith)
                          (omega arith))
                        (λ t4 d4.
                          draw_string-Drawn (itoa t.count_down) 0 (length time_label * 8) 14 t4
                            (itoa-Prints t.count_down).0 (omega arith)
                            (omega (arith, (itoa-Prints t.count_down).1))))))))
