-- ===== src/Game/Loop/Playing.antt =====
-- A game that is being played, and the interrupts in it.
use nju_oslab.Prelude.{
  ℕ, suc, ◌+◌, ◌*◌, ◌^◌, ◌≤◌, ◌≡◌, refl, ◌∙◌, List, [], ◌∷◌, Returns, returns, Returns-mono, arith,
}
use nju_oslab.Game.{
  Game, LetterState, timer_event, keyboard_event, press_key, Event, timer, key, handle_event,
  handle_events, interrupt,
}
use nju_oslab.Game.Round.Win.{IsWord}
use nju_oslab.Game.Loop.Unknowns.{unknowns}
use nju_oslab.Game.Loop.Drawing.{CanShow}

-- A game that is being played: a word of n letters, a text that is shown, and a miss for no more
-- than the letters that are known.
pub record CanPlay (n : ℕ) (ans show_str : ℕ → ℕ) (miss : ℕ) (wrong_guess : ℕ → ℕ)
    (letter_known : ℕ → LetterState) : Type 0 where
  pub word : IsWord ans n
  pub shown : CanShow show_str miss wrong_guess n
  pub room : miss + unknowns 26 letter_known ≤ 26

abbrev pub IsPlaying : ℕ → Game → Type 0
IsPlaying n g = CanPlay n g.ans g.show_str g.miss g.wrong_guess g.letter_known

-- The ticks that interrupts bring.
unfoldable pub ticks : List Event → ℕ
ticks [] = 0
ticks (timer ∷ es) = suc (ticks es)
ticks (key code ∷ es) = ticks es

pub record HasHandled (n : ℕ) (g : Game) (m : ℕ) (t : Game) : Type 0 where
  pub playing : IsPlaying n t
  pub tick : t.tick ≡ g.tick + m
  pub now : t.now ≡ g.now
  pub count_down : t.count_down ≡ g.count_down

pub handle_events-HasHandled :
    (n : ℕ) (es : List Event) (g : Game)
    → IsPlaying n g
    → Returns (λ _ t. HasHandled n g (ticks es) t) (handle_events es g)
unfolding handle_events handle_event timer_event keyboard_event press_key ticks
handle_events-HasHandled n [] g p =
    returns record { playing = p; tick = omega arith; now = refl; count_down = refl }
handle_events-HasHandled n (timer ∷ es) g p =
    Returns-mono (handle_events-HasHandled n es (record g { tick = g.tick + 1 }) p) (λ _ t h.
      record {
        playing = h.playing;
        tick = omega (arith, h.tick);
        now = h.now;
        count_down = h.count_down;
      })
handle_events-HasHandled n (key code ∷ es) g p =
    Returns-mono (handle_events-HasHandled n es _ p) (λ _ t h. record {
      playing = h.playing;
      tick = h.tick;
      now = h.now;
      count_down = h.count_down;
    })

-- The most ticks that the interrupts of one moment may bring.
abbrev pub many : ℕ
many = 2 ^ 24

abbrev pub IsCalm : (ℕ → List Event) → Type 0
IsCalm meanwhile = (k : ℕ) → ticks (meanwhile k) ≤ many

-- Later, by c moments at most, in a step that leaves the time of the game alone.
pub record Later (c : ℕ) (g t : Game) : Type 0 where
  pub from : g.tick ≤ t.tick
  pub to : t.tick ≤ g.tick + c * many
  pub now : t.now ≡ g.now
  pub count_down : t.count_down ≡ g.count_down

pub record Plays (n c : ℕ) (g t : Game) : Type 0 where
  pub playing : IsPlaying n t
  pub clock : Later c g t

pub Plays-trans :
    (n c d e : ℕ) (g t u : Game) → c + d ≤ e → Later c g t → Plays n d t u → Plays n e g u
Plays-trans n c d e g t u le a p = record {
  playing = p.playing;
  clock = record {
    from = omega (arith, a.from, p.clock.from);
    to = omega (arith, a.to, p.clock.to, le);
    now = p.clock.now ∙ a.now;
    count_down = p.clock.count_down ∙ a.count_down;
  };
}

-- What is no part of the time does not matter at the start.
pub Plays-from :
    (n c : ℕ) (g h t : Game)
    → h.tick ≡ g.tick
    → h.now ≡ g.now
    → h.count_down ≡ g.count_down
    → Plays n c h t
    → Plays n c g t
Plays-from n c g h t tick now count_down p = record {
  playing = p.playing;
  clock = record {
    from = omega (arith, p.clock.from, tick);
    to = omega (arith, p.clock.to, tick);
    now = p.clock.now ∙ now;
    count_down = p.clock.count_down ∙ count_down;
  };
}

pub interrupt-Plays :
    (n : ℕ) (meanwhile : ℕ → List Event) (g : Game)
    → IsCalm meanwhile
    → IsPlaying n g
    → Returns (λ _ t. Plays n 1 g t) (interrupt meanwhile g)
unfolding interrupt
interrupt-Plays n meanwhile g calm p =
    Returns-mono
      (handle_events-HasHandled n (meanwhile g.moment) (record g { moment = g.moment + 1 }) p)
      (λ _ t h. record {
        playing = h.playing;
        clock = record {
          from = omega (arith, h.tick);
          to = omega (arith, h.tick, calm g.moment);
          now = h.now;
          count_down = h.count_down;
        };
      })
