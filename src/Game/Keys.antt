-- ===== src/Game/Keys.antt =====
-- What a key press leaves to be asked.
use nju_oslab.Prelude.{
  ℕ, zero, suc, ◌+◌, ◌<◌, ◌≡◌, refl, ap, ◌∙◌, Bool, true, ◌&&◌, ◌||◌, Bool-cases, inl, inr, ltb,
  leb, lt→ltb, ◌==◌, ==→eq, if◌then◌else◌, update, ok, ◌>>◌, arith,
}
use nju_oslab.Game.{Game, letter_code, press_from, press_key, query_key, keyboard_event}

press_from-pressed :
    (n i scan_code : ℕ) (pressed : ℕ → Bool) (k : ℕ)
    → press_from n i scan_code pressed k
      ≡ (pressed k || ((leb i k && ltb k (i + n)) && (letter_code k == scan_code)))
unfolding press_from
press_from-pressed zero i scan_code pressed k = ground arith
press_from-pressed (suc n) i scan_code pressed k =
    press_from-pressed n (i + 1) scan_code
      (if letter_code i == scan_code then update pressed i true else pressed) k
    ∙ elim (Bool-cases (i == k)) [
      | inl e ↦
          let f : (letter_code i == scan_code) ≡ (letter_code k == scan_code) =
            ap (λ j. letter_code j == scan_code) (==→eq i k e) in
          elim (Bool-cases (letter_code k == scan_code)) [
            | inl g ↦ rw (f, g, e) (ground (arith, e))
            | inr g ↦ rw (f, g) (ground (arith, e))
          ]
      | inr e ↦ elim (Bool-cases (letter_code i == scan_code)) [
        | inl g ↦ rw (g, e) (ground (arith, e))
        | inr g ↦ rw g (ground (arith, e))
      ]
    ]

-- After the keyboard's event with a scan code, `query_key` at one of the 26 letters says
-- whether the letter was pressed before or has that scan code, and the code is the last one.
pub query_key-keyboard_event :
    (code index : ℕ) (g : Game)
    → index < 26
    → (do keyboard_event code; query_key index) g
      ≡ ok
          (g.letter_pressed index || (letter_code index == code))
          (record g { key_code = code; letter_pressed = press_from 26 0 code g.letter_pressed })
unfolding keyboard_event press_key query_key
query_key-keyboard_event code index g h =
    let e : press_from 26 0 code g.letter_pressed index
        ≡ (g.letter_pressed index || (letter_code index == code)) =
      press_from-pressed 26 0 code g.letter_pressed index ∙ ground arith in
    rw (lt→ltb index 26 h, e) refl
