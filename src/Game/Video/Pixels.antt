-- ===== src/Game/Video/Pixels.antt =====
-- A character on the screen.
use nju_oslab.Prelude.{
  ℕ, zero, suc, ◌+◌, ◌-◌, ◌/◌, ◌%◌, ◌≤◌, ◌<◌, ◌≡◌, refl, ap, ◌∙◌, Bool, true, false, ◌&&◌,
  Bool-cases, inl, inr, ltb, leb, ◌==◌, ==→eq, if◌then◌else◌, update, ok, Returns, returns,
  Returns-mono, Returns-bind, arith, bit,
}
use nju_oslab.Game.{Game}
use nju_oslab.Game.Font.{font_row}
use nju_oslab.Game.Video.{
  scr_width, scr_height, pixel_index, draw_pixel, draw_row, draw_rows, draw_character,
}

-- The pixels that satisfy `lit` have the colour, and the others of the screen what they had.
abbrev pub Painted : Game → (ℕ → ℕ → Bool) → ℕ → Game → Type 0
Painted g lit color t =
    (u v : ℕ)
    → v < scr_width
    → t.vbuf (pixel_index u v) ≡ (if lit u v then color % 256 else g.vbuf (pixel_index u v))

-- The columns j to j + n of a row of a glyph, at x and y.
abbrev row_lit : (row x y j n : ℕ) → ℕ → ℕ → Bool
row_lit row x y j n u v =
    (x == u) && (leb (y + j) v && ltb v (y + (j + n))) && (bit row (v - y) == 1)

pixel_index-eq :
    (x y u v : ℕ)
    → y < scr_width
    → v < scr_width
    → (pixel_index x y == pixel_index u v) ≡ ((x == u) && (y == v))
unfolding pixel_index
pixel_index-eq x y u v p q = ground arith

draw_pixel-ok :
    (x y color : ℕ) (g : Game)
    → x < scr_height
    → y < scr_width
    → draw_pixel x y color g
      ≡ ok tt (record g { vbuf = update g.vbuf (pixel_index x y) (color % 256) })
unfolding draw_pixel
draw_pixel-ok x y color g p q =
    let e : (ltb x scr_height && ltb y scr_width) ≡ true = ground arith in rw e refl

-- The pixel of column j, before the columns after it.
row_lit-lit :
    (row x y j n u v c w : ℕ)
    → (bit row j == 1) ≡ true
    → (if row_lit row x y (j + 1) n u v then c else if (x == u) && (y + j == v) then c else w)
      ≡ (if row_lit row x y j (suc n) u v then c else w)
row_lit-lit row x y j n u v c w e = elim (Bool-cases (y + j == v)) [
  | inl f ↦
      let b : (bit row (v - y) == 1) ≡ true =
        ap (λ k. bit row k == 1) (omega (arith, ==→eq (y + j) v f)) ∙ e in
      rw (f, b) (ground (arith, f))
  | inr f ↦ rw f (ground (arith, f))
]

row_lit-dark :
    (row x y j n u v c w : ℕ)
    → (bit row j == 1) ≡ false
    → (if row_lit row x y (j + 1) n u v then c else w)
      ≡ (if row_lit row x y j (suc n) u v then c else w)
row_lit-dark row x y j n u v c w e = elim (Bool-cases (y + j == v)) [
  | inl f ↦
      let b : (bit row (v - y) == 1) ≡ false =
        ap (λ k. bit row k == 1) (omega (arith, ==→eq (y + j) v f)) ∙ e in
      rw b (ground (arith, f))
  | inr f ↦ ground (arith, f)
]

lit_step :
    (n j row x y color : ℕ) (g : Game)
    → y + (j + suc n) ≤ scr_width
    → (bit row j == 1) ≡ true
    → (u v : ℕ) → v < scr_width
    → (if row_lit row x y (j + 1) n u v
        then color % 256
        else update g.vbuf (pixel_index x (y + j)) (color % 256) (pixel_index u v))
      ≡ (if row_lit row x y j (suc n) u v then color % 256 else g.vbuf (pixel_index u v))
lit_step n j row x y color g q e u v r =
    rw (pixel_index-eq x (y + j) u v (omega arith) r)
      (row_lit-lit row x y j n u v (color % 256) (g.vbuf (pixel_index u v)) e)

draw_row-Painted :
    (n j row x y color : ℕ) (g : Game)
    → x < scr_height
    → y + (j + n) ≤ scr_width
    → Returns (λ _ t. Painted g (row_lit row x y j n) color t) (draw_row n j row x y color g)
unfolding draw_row
draw_row-Painted zero j row x y color g p q = returns (λ u v r. ground arith)
draw_row-Painted (suc n) j row x y color g p q = elim (Bool-cases (bit row j == 1)) [
  | inl e ↦
      rw (e, draw_pixel-ok x (y + j) color g p (omega arith))
        (Returns-mono
          (draw_row-Painted n (j + 1) row x y color
            (record g { vbuf = update g.vbuf (pixel_index x (y + j)) (color % 256) }) p
            (omega arith))
          (λ _ t h u v r. h u v r ∙ lit_step n j row x y color g q e u v r))
  | inr e ↦ rw e (
      Returns-mono (draw_row-Painted n (j + 1) row x y color g p (omega arith)) (λ _ t h u v r.
        h u v r ∙ row_lit-dark row x y j n u v (color % 256) (g.vbuf (pixel_index u v)) e))
]

-- The rows i to i + n of the glyph of a character, at x and y.
abbrev pub rows_lit : (ch x y i n : ℕ) → ℕ → ℕ → Bool
rows_lit ch x y i n u v =
    (leb (x + i) u && ltb u (x + (i + n)))
    && (leb y v && ltb v (y + 8))
    && (bit (font_row ch (u - x)) (v - y) == 1)

rows_lit-row :
    (ch x y i n u v c w : ℕ)
    → (if rows_lit ch x y (i + 1) n u v
        then c
        else if row_lit (font_row ch i) (x + i) y 0 8 u v
        then c
        else w)
      ≡ (if rows_lit ch x y i (suc n) u v then c else w)
rows_lit-row ch x y i n u v c w = elim (Bool-cases (x + i == u)) [
  | inl f ↦
      let b : (bit (font_row ch (u - x)) (v - y) == 1) ≡ (bit (font_row ch i) (v - y) == 1) =
        ap (λ k. bit (font_row ch k) (v - y) == 1) (omega (arith, ==→eq (x + i) u f)) in
      rw (f, b) (ground (arith, f))
  | inr f ↦ rw f (ground (arith, f))
]

draw_rows-Painted :
    (n i ch x y color : ℕ) (g : Game)
    → x + (i + n) ≤ scr_height
    → y + 8 ≤ scr_width
    → Returns (λ _ t. Painted g (rows_lit ch x y i n) color t) (draw_rows n i ch x y color g)
unfolding draw_rows
draw_rows-Painted zero i ch x y color g p q = returns (λ u v r. ground arith)
draw_rows-Painted (suc n) i ch x y color g p q =
    Returns-bind
      (draw_row-Painted 8 0 (font_row ch i) (x + i) y color g (omega arith) (omega arith))
      (λ _ t h.
        Returns-mono (draw_rows-Painted n (i + 1) ch x y color t (omega arith) q) (λ _ t' h' u v r.
          h' u v r
          ∙ ap (λ w. if rows_lit ch x y (i + 1) n u v then color % 256 else w) (h u v r)
          ∙ rows_lit-row ch x y i n u v (color % 256) (g.vbuf (pixel_index u v))))

-- A character below 128 whose box of 8 by 8 lies on the screen is drawn: `draw_character`
-- returns, each pixel of the box that the glyph has a bit for has the colour, and every other
-- pixel in the columns of the screen is what it was.
pub draw_character-Painted :
    (ch x y color : ℕ) (g : Game)
    → ch < 128
    → x + 8 ≤ scr_height
    → y + 8 ≤ scr_width
    → Returns (λ _ t. Painted g (rows_lit ch x y 0 8) color t) (draw_character ch x y color g)
unfolding draw_character
draw_character-Painted ch x y color g h p q =
    let e : (ch / 128 % 2 == 0) ≡ true = ground arith in
    rw e (draw_rows-Painted 8 0 ch x y color g (omega arith) q)
