-- ===== src/Game/Loop/Clock.antt =====
-- The clock of a game: the interrupts that bring ticks, and the ticks that are worked off.
use nju_oslab.Prelude.{
  pure, ◌≢◌, ==→ne, ℕ, zero, suc, ◌+◌, ◌-◌, ◌/◌, ◌%◌, ◌^◌, ◌<◌, ◌≡◌, refl, ap, ◌∙◌, sym, Bool, ◌||◌,
  Bool-cases, inl, inr, ◌==◌, ==→eq, if◌then◌else◌, sub32, Returns, returns, Returns-bind,
  Returns-mono, arith,
}
use nju_oslab.Game.{Game}
use nju_oslab.Game.Round.{advance, count_frames, set_fps}
use nju_oslab.Game.Loop.Playing.{IsPlaying, HasHandled}

-- The count-down at a time of a game, as a word: it loses one at each multiple of 50.
abbrev pub time_left : ℕ → ℕ
time_left now = (50 + 2 ^ 32 - (now + 49) / 50) % 2 ^ 32

pub record HasAdvanced (n : ℕ) (g : Game) (m : ℕ) (t : Game) : Type 0 where
  pub playing : IsPlaying n t
  pub tick : t.tick ≡ g.tick
  pub now : t.now ≡ g.now + m
  pub count_down : t.count_down ≡ time_left t.now

one_tick :
    (now : ℕ)
    → now < 2 ^ 37
    → (if now % 50 == 0 then sub32 (time_left now) 1 else time_left now) ≡ time_left (now + 1)
one_tick now lt = elim (Bool-cases (now % 50 == 0)) [
  | inl e ↦ let z : now % 50 ≡ 0 = ==→eq (now % 50) 0 e in rw e (omega (arith, z))
  | inr e ↦
      let ne : now % 50 ≢ 0 = ==→ne (now % 50) 0 e in
      rw e (
        ap (λ h. (50 + 2 ^ 32 - h) % 2 ^ 32) {x = (now + 49) / 50} {y = (now + 1 + 49) / 50}
          (omega (arith, ne)))
]

-- The frame rate is no matter.
frames :
    (n : ℕ) (g : Game)
    → IsPlaying n g
    → Returns (λ _ t. HasHandled n g 0 t) ((if g.now % 50 == 0 then count_frames else pure tt) g)
unfolding count_frames set_fps
frames n g p = elim (Bool-cases (g.now % 50 == 0)) [
  | inl e ↦ rw e (returns record { playing = p; tick = omega arith; now = refl; count_down = refl })
  | inr e ↦ rw e (returns record { playing = p; tick = omega arith; now = refl; count_down = refl })
]

pub advance-HasAdvanced :
    (n m : ℕ) (redraw : Bool) (g : Game)
    → IsPlaying n g
    → g.now + m < 2 ^ 37
    → g.count_down ≡ time_left g.now
    → Returns (λ _ t. HasAdvanced n g m t) (advance m redraw g)
unfolding advance
advance-HasAdvanced n zero redraw g p lt e =
    returns record { playing = p; tick = refl; now = omega arith; count_down = e }
advance-HasAdvanced n (suc m) redraw g p lt e =
    let counted : Game = record g {
      count_down = if g.now % 50 == 0 then sub32 g.count_down 1 else g.count_down;
    } in
    let left : counted.count_down ≡ time_left (g.now + 1) = rw e (one_tick g.now (omega arith)) in
    Returns-bind (frames n counted p) (λ _ t f.
      Returns-mono
        (advance-HasAdvanced n m (redraw || (t.now % 3 == 0)) (record t { now = t.now + 1 })
          f.playing (omega (arith, f.now))
          (f.count_down ∙ left ∙ ap (λ x. time_left (x + 1)) (sym f.now)))
        (λ _ u h. record {
          playing = h.playing;
          tick = h.tick ∙ f.tick ∙ omega arith;
          now = omega (arith, h.now, f.now);
          count_down = h.count_down;
        }))
