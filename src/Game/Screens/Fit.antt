-- ===== src/Game/Screens/Fit.antt =====
-- The texts that lie on the screen.
use nju_oslab.Prelude.{
  ℕ, ◌+◌, ◌-◌, ◌*◌, ◌/◌, ◌≤◌, ◌<◌, ◌≡◌, refl, Bool, true, false, Bool-cases, inl, inr, List, [],
  ◌∷◌, length, ltb, leb, ltb→lt, ◌==◌, ◌&&◌, ◌∙◌, ap, ◌%◌, zero, suc, bit, update, Ensures,
  Ensures-bind, Ensures-mono, Returns-Ensures, if◌then◌else◌, Returns, returns, Returns-bind,
  Returns-mono, arith,
}
use nju_oslab.Game.{Game}
use nju_oslab.Game.Video.{
  scr_width, scr_height, prepare_buffer, draw_character, draw_string, draw_row, draw_rows,
  draw_pixel, pixel_index,
}
use nju_oslab.Game.Font.{font_row}
use nju_oslab.Game.Video.Pixels.{draw_character-Painted}
use nju_oslab.Game.Screens.{end_tip, c_width, draw_end, draw_fail, draw_centered}

-- Nothing but the pixels differs.
abbrev pub Drawn : Game → Unit {0} → Game → Type 0
Drawn g _ t = t ≡ record g { vbuf = t.vbuf }

pub Drawn-trans : (g t u : Game) → Drawn g tt t → Drawn t tt u → Drawn g tt u
Drawn-trans g t u p q = q ∙ ap (λ (x : Game). record x { vbuf = u.vbuf }) p

draw_row-Drawn :
    (n j row x y color : ℕ) (g : Game) → Ensures (Drawn g) (draw_row n j row x y color g)
unfolding draw_row draw_pixel
draw_row-Drawn zero j row x y color g = refl
draw_row-Drawn (suc n) j row x y color g = elim (Bool-cases (bit row j == 1)) [
  | inl e ↦ rw e (elim (Bool-cases (ltb x scr_height && ltb (y + j) scr_width)) [
    | inl f ↦
        let t : Game = record g { vbuf = update g.vbuf (pixel_index x (y + j)) (color % 256) } in
        rw f (
          Ensures-mono (Drawn t) (Drawn g) (draw_row n (j + 1) row x y color t)
            (draw_row-Drawn n (j + 1) row x y color t) (λ _ u q. q))
    | inr f ↦ rw f tt
  ])
  | inr e ↦ rw e (draw_row-Drawn n (j + 1) row x y color g)
]

draw_rows-Drawn :
    (n i ch x y color : ℕ) (g : Game) → Ensures (Drawn g) (draw_rows n i ch x y color g)
unfolding draw_rows
draw_rows-Drawn zero i ch x y color g = refl
draw_rows-Drawn (suc n) i ch x y color g =
    Ensures-bind (Drawn g) (Drawn g) (draw_row 8 0 (font_row ch i) (x + i) y color g)
      (λ _. draw_rows n (i + 1) ch x y color) (draw_row-Drawn 8 0 (font_row ch i) (x + i) y color g)
      (λ _ t p.
        Ensures-mono (Drawn t) (Drawn g) (draw_rows n (i + 1) ch x y color t)
          (draw_rows-Drawn n (i + 1) ch x y color t) (λ _ u q. Drawn-trans g t u p q))

-- Every byte is a character of the font.
pub data IsAscii : List ℕ → Type 0 where
  no_more : IsAscii []
  one_more : {c : ℕ} {text : List ℕ} → c < 128 → IsAscii text → IsAscii (c ∷ text)

pub draw_character-Drawn :
    (ch x y color : ℕ) (g : Game)
    → ch < 128
    → x + 8 ≤ scr_height
    → y + 8 ≤ scr_width
    → Returns (Drawn g) (draw_character ch x y color g)
unfolding draw_character
draw_character-Drawn ch x y color g h p q =
    let e : (ch / 128 % 2 == 0) ≡ true = ground arith in
    Returns-mono
      (Returns-Ensures (draw_character-Painted ch x y color g h p q)
        (rw e (draw_rows-Drawn 8 0 ch x y color g)))
      (λ _ _ r. r.1)

pub draw_string-Drawn :
    (text : List ℕ) (x y color : ℕ) (g : Game)
    → IsAscii text
    → x + 8 ≤ scr_height
    → y + 8 * length text ≤ scr_width
    → Returns (Drawn g) (draw_string text x y color g)
unfolding draw_string
draw_string-Drawn [] x y color g a p q = returns refl
draw_string-Drawn (c ∷ []) x y color g (one_more h a) p q =
    Returns-bind (draw_character-Drawn c x y color g h p (omega (arith, q))) (λ _ t d.
      elim (Bool-cases (leb scr_width (y + 8))) [
        | inl e ↦ rw e (returns d)
        | inr e ↦ rw e (returns d)
      ])
draw_string-Drawn (c ∷ d ∷ text) x y color g (one_more h a) p q =
    let e : leb scr_width (y + 8) ≡ false = ground (arith, q) in
    Returns-bind (draw_character-Drawn c x y color g h p (omega (arith, q))) (λ _ t r. rw e (
      Returns-mono (draw_string-Drawn (d ∷ text) x (y + 8) color t a p (omega (arith, q)))
        (λ _ u s. Drawn-trans g t u r s)))

-- The test of IsAscii.
unfoldable pub all_ascii : List ℕ → Bool
all_ascii [] = true
all_ascii (c ∷ text) = if ltb c 128 then all_ascii text else false

pub all_ascii-IsAscii : (text : List ℕ) → all_ascii text ≡ true → IsAscii text
unfolding all_ascii
all_ascii-IsAscii [] h = no_more
all_ascii-IsAscii (c ∷ text) h = elim (Bool-cases (ltb c 128)) [
  | inl e ↦ one_more (ltb→lt c 128 e) (all_ascii-IsAscii text (ground (arith, h, e)))
  | inr e ↦ ground (arith, h, e)
]

end_tip-IsAscii : IsAscii end_tip
unfolding all_ascii
end_tip-IsAscii = all_ascii-IsAscii end_tip refl

pub draw_centered-Drawn :
    (text : List ℕ) (x color : ℕ) (g : Game)
    → IsAscii text
    → length text ≤ 40
    → x + 8 ≤ scr_height
    → Returns (Drawn g) (draw_centered text x color g)
unfolding draw_centered c_width
draw_centered-Drawn text x color g a h p =
    let e : leb (length text / 2 * 8) (scr_width / 2) ≡ true = ground (arith, h) in
    rw e (
      draw_string-Drawn text x (scr_width / 2 - length text / 2 * 8) color g a p (omega (arith, h)))

-- An end text of up to 40 characters, each below 128, is drawn with the tip below it:
-- `draw_fail` returns, so that no assertion of `draw_character` or `draw_pixel` fails.
pub draw_fail-Drawn :
    (endword : List ℕ) (g : Game)
    → IsAscii endword
    → length endword ≤ 40
    → Returns (Drawn g) (draw_fail endword g)
unfolding draw_fail draw_end prepare_buffer
draw_fail-Drawn endword g a h =
    Returns-bind (draw_centered-Drawn endword (scr_height / 2 - 12) 14 _ a h (omega arith))
      (λ _ t p.
        Returns-mono
          (draw_centered-Drawn end_tip (scr_height / 2) 14 t end_tip-IsAscii (omega arith)
            (omega arith))
          (λ _ u q. Drawn-trans g t u p q))
