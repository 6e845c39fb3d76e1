-- ===== src/Game/Video.antt =====
-- game/video.c and inc/video.h.
pub mod Pixels
use nju_oslab.Prelude.{
  ℕ, zero, suc, ◌+◌, ◌-◌, ◌*◌, ◌/◌, ◌%◌, ◌^◌, Bool, true, false, ◌&&◌, List, [], ◌∷◌, length, ltb,
  leb, ◌==◌, if◌then◌else◌, ok, M, pure, get, put, my_assert, ◌>>=◌, ◌>>◌, update, bit,
}
use nju_oslab.Game.{Game, GameM}
use nju_oslab.Game.Font.{font_row}

abbrev pub scr_width : ℕ
scr_width = 320

abbrev pub scr_height : ℕ
scr_height = 200

-- `(x << 8) + (x << 6) + y`
unfoldable pub pixel_index : ℕ → ℕ → ℕ
pixel_index x y = x * 2 ^ 8 + x * 2 ^ 6 + y

-- At coordinates that are not negative.
unfoldable pub draw_pixel : ℕ → ℕ → ℕ → GameM (Unit {0})
draw_pixel x y color = do
  my_assert (ltb x scr_height && ltb y scr_width)
  g ← get
  put (record g { vbuf = update g.vbuf (pixel_index x y) (color % 256) })

unfoldable pub prepare_buffer : GameM (Unit {0})
prepare_buffer g =
    ok tt (record g { vbuf = λ k. if ltb k (scr_width * scr_height) then 0 else g.vbuf k })

-- The inner loop of `draw_character`, with the columns left.
unfoldable pub draw_row : ℕ → ℕ → ℕ → ℕ → ℕ → ℕ → GameM (Unit {0})
draw_row zero j row x y color = pure tt
draw_row (suc n) j row x y color =
    let rest = draw_row n (j + 1) row x y color in
    if bit row j == 1 then (do draw_pixel x (y + j) color; rest) else rest

unfoldable pub draw_rows : ℕ → ℕ → ℕ → ℕ → ℕ → ℕ → GameM (Unit {0})
draw_rows zero i ch x y color = pure tt
draw_rows (suc n) i ch x y color = do
  draw_row 8 0 (font_row ch i) (x + i) y color
  draw_rows n (i + 1) ch x y color

unfoldable pub draw_character : ℕ → ℕ → ℕ → ℕ → GameM (Unit {0})
draw_character ch x y color = do my_assert (ch / 128 % 2 == 0); draw_rows 8 0 ch x y color

-- Over the bytes before the NUL.
unfoldable pub draw_string : List ℕ → ℕ → ℕ → ℕ → GameM (Unit {0})
draw_string [] x y color = pure tt
draw_string (c ∷ str) x y color =
    let below = draw_string str (x + 8) 0 color in
    let beside = draw_string str x (y + 8) color in
    (do draw_character c x y color; if leb scr_width (y + 8) then below else beside)
