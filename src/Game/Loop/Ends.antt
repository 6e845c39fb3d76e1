-- ===== src/Game/Loop/Ends.antt =====
-- A game comes to its end.
pub mod Begin
use nju_oslab.Prelude.{
  get, put, ◌>>◌, ◌>>=◌, eq→==, ne→==, ltb→ge, pure, ℕ, zero, suc, ◌+◌, ◌-◌, ◌*◌, ◌/◌, ◌%◌, ◌^◌,
  ◌≤◌, ◌<◌, ◌≡◌, refl, ap, ◌∙◌, sym, subst, Bool, true, false, not, ◌&&◌, Bool-cases, inl, inr, ◌⊎◌,
  List, length, ltb, leb, lt→ltb, ◌==◌, ==→eq, ==→ne, if◌then◌else◌, Returns, returns, Returns-bind,
  Returns-mono, arith,
}
use nju_oslab.Game.{Game, Event, is_in_word, handle_events, interrupt, update_keypress}
use nju_oslab.Game.Round.{advance}
use nju_oslab.Game.Round.Win.{check_win_iff}
use nju_oslab.Game.Screens.{redraw_screen, endword_win, draw_fail, draw_win}
use nju_oslab.Game.Screens.Fit.{Drawn, IsAscii, all_ascii, all_ascii-IsAscii, draw_fail-Drawn}
use nju_oslab.Game.Loop.{
  is_positive, miss_end, time_is_up, cruel_you, play_ticks, play, draw_result,
}
use nju_oslab.Game.Loop.Playing.{
  IsPlaying, ticks, HasHandled, handle_events-HasHandled, many, IsCalm, Later, Plays,
  interrupt-Plays,
}
use nju_oslab.Game.Loop.Drawing.{IsShown, IsShown-Drawn, redraw_screen-Drawn}
use nju_oslab.Game.Loop.Guesses.{update_keypress-Plays}
use nju_oslab.Game.Loop.Clock.{time_left, HasAdvanced, advance-HasAdvanced}

-- While a game is played: the time is the one of the count-down, and behind the ticks by c
-- moments at most.
pub record IsOnTime (n c : ℕ) (g : Game) : Type 0 where
  pub playing : IsPlaying n g
  pub count_down : g.count_down ≡ time_left g.now
  pub now : g.now ≤ 2500 + 64 * many
  pub behind : g.now ≤ g.tick
  pub near : g.tick ≤ g.now + c * many

IsOnTime-Plays : (n c d : ℕ) (g t : Game) → IsOnTime n c g → Plays n d g t → IsOnTime n (c + d) t
IsOnTime-Plays n c d g t h p = record {
  playing = p.playing;
  count_down = p.clock.count_down ∙ h.count_down ∙ ap time_left (sym p.clock.now);
  now = omega (arith, p.clock.now, h.now);
  behind = omega (arith, p.clock.now, p.clock.from, h.behind);
  near = omega (arith, p.clock.now, p.clock.to, h.near);
}

-- The time is up: 50 seconds of 50 ticks are over, the first of which is one tick long, and the
-- int `count_down` is zero or negative.
pub record IsTimeUp (now count_down : ℕ) : Type 0 where
  pub late : 2451 ≤ now
  pub none_left : (count_down ≡ 0) ⊎ (2 ^ 31 ≤ count_down)

-- The word is found, the time is up, or there are ten misses.
pub IsOver : (n : ℕ) (g : Game) → Type 0
IsOver n g =
    ((j : ℕ) → j < n → is_in_word (g.letter_known (g.ans j - 97)) ≡ true)
    ⊎ (IsTimeUp g.now g.count_down ⊎ (10 ≤ g.miss))

pub record HasEnded (n : ℕ) (g : Game) : Type 0 where
  pub playing : IsPlaying n g
  pub over : IsOver n g

-- The rounds that are left, at most: a wait and a step for each tick of the 2500.
abbrev pub rounds_left : Game → ℕ
rounds_left g = 2 * (2451 - g.now) + (if g.now == g.tick then 1 else 0)

in_time : (now : ℕ) → now < 2 ^ 32 → is_positive (time_left now) ≡ true → now ≤ 2450
in_time now lt e =
    let small : time_left now < 2 ^ 31 = ground (arith, e) in
    let some_left : 0 < time_left now = ground (arith, e) in omega (arith, small, some_left)

time_up :
    (n c : ℕ) (g : Game)
    → IsOnTime n c g
    → is_positive g.count_down ≡ false
    → IsTimeUp g.now g.count_down
time_up n c g h e =
    let none_left : (g.count_down ≡ 0) ⊎ (2 ^ 31 ≤ g.count_down) = ground (arith, e) in
    record {
      late = elim none_left [
        | inl z ↦ omega (arith, z, h.count_down)
        | inr z ↦ omega (arith, z, h.count_down)
      ];
      none_left = none_left;
    }

fewer_moments :
    (c : ℕ) (g u : Game) (fuel : ℕ)
    → g.now ≤ g.tick
    → Later c g u
    → rounds_left g < fuel
    → rounds_left u < fuel
fewer_moments c g u fuel behind l lt = elim (Bool-cases (u.now == u.tick)) [
  | inl e ↦
      let together : (g.now == g.tick) ≡ true =
        eq→== g.now g.tick (omega (arith, ==→eq u.now u.tick e, behind, l.now, l.from)) in
      let left : 2 * (2451 - g.now) + 1 < fuel =
        subst (λ b. 2 * (2451 - g.now) + (if b then 1 else 0) < fuel) together lt in
      rw e (omega (arith, left, l.now))
  | inr e ↦ rw e (omega (arith, lt, l.now))
]

fewer_waits :
    (g u : Game) (m fuel : ℕ)
    → (g.now == g.tick) ≡ true
    → u.now ≡ g.now
    → u.tick ≡ g.tick + m
    → 0 < m
    → rounds_left g < suc fuel
    → rounds_left u < fuel
fewer_waits g u m fuel e now tick some_ticks lt =
    let apart : (u.now == u.tick) ≡ false =
      ne→== u.now u.tick
        (λ z. absurd (omega (arith, z, now, tick, some_ticks, ==→eq g.now g.tick e))) in
    let left : 2 * (2451 - g.now) + 1 < suc fuel =
      subst (λ b. 2 * (2451 - g.now) + (if b then 1 else 0) < suc fuel) e lt in
    rw apart (omega (arith, left, now))

fewer_steps :
    (g u : Game) (fuel : ℕ)
    → g.now ≤ 2450
    → g.now < u.now
    → rounds_left g < suc fuel
    → rounds_left u < fuel
fewer_steps g u fuel early later lt = elim (Bool-cases (u.now == u.tick)) [
  | inl e ↦ rw e (omega (arith, lt, early, later))
  | inr e ↦ rw e (omega (arith, lt, early, later))
]

stop-IsOver :
    (n c : ℕ) (g : Game) (won : Bool)
    → IsOnTime n c g
    → (won ≡ true → (j : ℕ) → j < n → is_in_word (g.letter_known (g.ans j - 97)) ≡ true)
    → (not won && (is_positive g.count_down && ltb g.miss miss_end)) ≡ false
    → IsOver n g
unfolding IsOver
stop-IsOver n c g true h all stop = inl (all refl)
stop-IsOver n c g false h all stop = elim (Bool-cases (is_positive g.count_down)) [
  | inl e ↦
      inr (inr (ltb→ge g.miss miss_end (subst (λ b. (b && ltb g.miss miss_end) ≡ false) e stop)))
  | inr e ↦ inr (inl (time_up n c g h e))
]

IsPlaying-Drawn : (n : ℕ) (g t : Game) → Drawn g tt t → IsPlaying n g → IsPlaying n t
IsPlaying-Drawn n g t d p = subst (λ x. IsPlaying n x) (sym d) p

HasEnded-Drawn : (n : ℕ) (g t : Game) → Drawn g tt t → HasEnded n g → HasEnded n t
unfolding IsOver
HasEnded-Drawn n g t d h = record {
  playing = IsPlaying-Drawn n g t d h.playing;
  over = subst (λ x. IsOver n x) (sym d) h.over;
}

-- What a step at `now != tick` leaves.
record HasPlayed (n : ℕ) (g t : Game) : Type 0 where
  time : IsOnTime n 60 t
  later : g.now < t.now

module _ (sel_words : ℕ → ℕ → ℕ) (before : ℕ → Bool) (meanwhile arrivals : ℕ → List Event)
    (calm : IsCalm meanwhile) (n : ℕ) where
  draw-HasAdvanced :
      (redraw : Bool) (g t : Game) (m : ℕ)
      → HasAdvanced n g m t
      → Returns
          (λ _ u. HasAdvanced n g m u)
          ((if redraw
              then (do g ← get; put (record g { num_draw = g.num_draw + 1 }); redraw_screen)
              else pure tt)
            t)
  draw-HasAdvanced true g t m h =
      let counted : Game = record t { num_draw = t.num_draw + 1 } in
      Returns-mono (redraw_screen-Drawn counted n h.playing.shown) (λ _ u d. record {
        playing = IsPlaying-Drawn n counted u d h.playing;
        tick = ap (λ (x : Game). x.tick) d ∙ h.tick;
        now = ap (λ (x : Game). x.now) d ∙ h.now;
        count_down =
            ap (λ (x : Game). x.count_down) d
            ∙ h.count_down
            ∙ ap time_left (sym (ap (λ (x : Game). x.now) d));
      })
  draw-HasAdvanced false g t m h = returns h

  worked_off-HasPlayed :
      (g w x t : Game)
      → IsOnTime n 63 w
      → g.now < w.tick
      → w.now ≤ 2450
      → Plays n 52 w x
      → HasAdvanced n x (w.tick - x.now) t
      → HasPlayed n g t
  worked_off-HasPlayed g w x t h lt early p b =
      let now : t.now ≡ w.tick = omega (arith, b.now, p.clock.now, h.behind) in
      record {
        time = record {
          playing = b.playing;
          count_down = b.count_down;
          now = omega (arith, now, h.near, early);
          behind = omega (arith, now, b.tick, p.clock.from);
          near = omega (arith, now, b.tick, p.clock.to);
        };
        later = omega (arith, now, lt);
      }

  play_ticks-HasPlayed :
      (g : Game)
      → IsOnTime n 61 g
      → g.now < g.tick
      → g.now ≤ 2450
      → Returns (λ _ t. HasPlayed n g t) (play_ticks sel_words before meanwhile arrivals g)
  unfolding play_ticks
  play_ticks-HasPlayed g h lt early =
      Returns-bind (interrupt-Plays n meanwhile g calm h.playing) (λ _ v p.
        let hv : IsOnTime n 62 v = IsOnTime-Plays n 61 1 g v h p in
        rw (lt→ltb v.now v.tick (omega (arith, p.clock.now, p.clock.from, lt))) (
          Returns-bind (interrupt-Plays n meanwhile v calm hv.playing) (λ _ w q.
            let hw : IsOnTime n 63 w = IsOnTime-Plays n 62 1 v w hv q in
            Returns-bind (update_keypress-Plays n meanwhile before w calm hw.playing) (λ _ x r.
              Returns-bind
                (advance-HasAdvanced n (w.tick - x.now) false x r.playing
                  (omega (arith, r.clock.now, hw.now, hw.near, hw.behind))
                  (r.clock.count_down ∙ hw.count_down ∙ ap time_left (sym r.clock.now)))
                (λ redraw u b.
                  Returns-mono (draw-HasAdvanced redraw x u (w.tick - x.now) b) (λ _ t d.
                    worked_off-HasPlayed g w x t hw (omega (arith, p.clock.from, q.clock.from, lt))
                      (omega (arith, p.clock.now, q.clock.now, early)) r d))))))

  after_wait :
      (g u : Game) (k : ℕ)
      → ((k : ℕ) → (0 < ticks (arrivals k)) × (ticks (arrivals k) ≤ many))
      → IsOnTime n 61 g
      → (g.now == g.tick) ≡ true
      → HasHandled n g (ticks (arrivals k)) u
      → IsOnTime n 60 u
  after_wait g u k a h e b = record {
    playing = b.playing;
    count_down = b.count_down ∙ h.count_down ∙ ap time_left (sym b.now);
    now = omega (arith, b.now, h.now);
    behind = omega (arith, b.now, b.tick, h.behind);
    near = omega (arith, b.now, b.tick, ==→eq g.now g.tick e, a k);
  }

  pub play-HasEnded :
      (fuel k : ℕ) (g : Game)
      → ((k : ℕ) → (0 < ticks (arrivals k)) × (ticks (arrivals k) ≤ many))
      → IsOnTime n 60 g
      → rounds_left g < fuel
      → Returns (λ _ t. HasEnded n t) (play sel_words before meanwhile arrivals fuel k g)
  unfolding play
  play-HasEnded zero k g a h lt = absurd (omega arith)
  play-HasEnded (suc fuel) k g a h lt = Returns-bind (check_win_iff g n h.playing.word) (λ won t r.
      rw r.0 (elim (Bool-cases (not won && (is_positive g.count_down && ltb g.miss miss_end))) [
        | inl go ↦
            let positive : is_positive g.count_down ≡ true = ground (arith, go) in
            let early : g.now ≤ 2450 =
              in_time g.now (omega (arith, h.now)) (ap is_positive (sym h.count_down) ∙ positive) in
            rw go (
              Returns-bind (interrupt-Plays n meanwhile g calm h.playing) (λ _ v p.
                let hv : IsOnTime n 61 v = IsOnTime-Plays n 60 1 g v h p in
                let left = fewer_moments 1 g v (suc fuel) h.behind p.clock lt in
                elim (Bool-cases (v.now == v.tick)) [
                  | inl e ↦ rw e (
                      Returns-bind (handle_events-HasHandled n (arrivals k) v hv.playing) (λ _ u b.
                        play-HasEnded fuel (k + 1) u a (after_wait v u k a hv e b)
                          (fewer_waits v u (ticks (arrivals k)) fuel e b.now b.tick (a k).0 left)))
                  | inr e ↦ rw e (
                      Returns-bind
                        (play_ticks-HasPlayed v hv (ground (arith, e, hv.behind))
                          (omega (arith, early, p.clock.now)))
                        (λ _ u b.
                          play-HasEnded fuel k u a b.time (
                            fewer_steps v u fuel (omega (arith, early, p.clock.now)) b.later left)))
                ]))
        | inr stop ↦
            rw stop
              (returns record { playing = h.playing; over = stop-IsOver n 60 g won h r.1.0 stop })
      ]))

  -- The last screen fits, and changes nothing else.
  pub draw_result-HasEnded :
      (g : Game)
      → HasEnded n g
      → Returns (λ _ t. HasEnded n t) (draw_result sel_words before meanwhile arrivals g)
  unfolding draw_result draw_win draw_fail all_ascii
  draw_result-HasEnded g h = elim (Bool-cases (is_positive g.count_down)) [
    | inl e ↦ rw e (
        Returns-bind (check_win_iff g n h.playing.word) (λ won t r. rw r.0 (elim (Bool-cases won) [
          | inl w ↦ rw w (drawn endword_win (all_ascii-IsAscii endword_win refl) (omega arith))
          | inr w ↦ rw w (elim (Bool-cases (leb miss_end g.miss)) [
            | inl m ↦ rw m (drawn cruel_you (all_ascii-IsAscii cruel_you refl) (omega arith))
            | inr m ↦ rw m (returns h)
          ])
        ])))
    | inr e ↦ rw e (drawn time_is_up (all_ascii-IsAscii time_is_up refl) (omega arith))
  ]
    where
      drawn :
          (text : List ℕ)
          → IsAscii text
          → length text ≤ 40
          → Returns (λ _ t. HasEnded n t) (draw_fail text g)
      drawn text a le =
          Returns-mono (draw_fail-Drawn text g a le) (λ _ t d. HasEnded-Drawn n g t d h)
