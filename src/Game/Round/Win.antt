-- ===== src/Game/Round/Win.antt =====
-- When the game is won.
use nju_oslab.Prelude.{
  ℕ, zero, suc, ◌+◌, ◌-◌, ◌≤◌, ◌<◌, ◌≡◌, ◌↔◌, refl, ap, ◌∙◌, sym, true, ◌&&◌, Bool-cases, inl, inr,
  some, ltb, leb, ◌==◌, ==→eq, ==→ne, eq→==, ne→==, ok, Returns, returns, Returns-mono, arith,
}
use nju_oslab.LibString.{strlen, strlen_from}
use nju_oslab.Game.{Game, is_in_word, length_of, length_or_fault, known_at, ans_size}
use nju_oslab.Game.Round.{check_win_from, check_win}

-- `s` is a word of n lower-case letters, in the room of `ans`.
pub record IsWord (s : ℕ → ℕ) (n : ℕ) : Type 0 where
  pub fits : n < ans_size
  pub letters : (i : ℕ) → i < n → (97 ≤ s i) × (s i < 123)
  pub ends : s n ≡ 0

-- `s` is a text of n characters of the font, in the room of a global of 30 bytes.
pub record IsText (s : ℕ → ℕ) (n : ℕ) : Type 0 where
  pub fits : n < ans_size
  pub chars : (i : ℕ) → i < n → (0 < s i) × (s i < 128)
  pub ends : s n ≡ 0

pub IsWord-IsText : (s : ℕ → ℕ) (n : ℕ) → IsWord s n → IsText s n
IsWord-IsText s n w = record {
  fits = w.fits;
  chars = λ i p. (omega (arith, w.letters i p), omega (arith, w.letters i p));
  ends = w.ends;
}

strlen_from-IsText :
    (s : ℕ → ℕ) (n room len : ℕ)
    → IsText s n
    → len ≤ n
    → n < len + room
    → strlen_from room s len ≡ some n
unfolding strlen_from
strlen_from-IsText s n zero len w p q = absurd (omega arith)
strlen_from-IsText s n (suc room) len w p q = elim (Bool-cases (len == n)) [
  | inl e ↦ let f : len ≡ n = ==→eq len n e in rw (eq→== (s len) 0 (ap s f ∙ w.ends)) (ap some f)
  | inr e ↦
      let lt : len < n = ground arith in
      rw (ne→== (s len) 0 (omega (arith, w.chars len lt)))
        (strlen_from-IsText s n room (len + 1) w (omega arith) (omega arith))
]

pub length_of-IsText : (g : Game) (s : ℕ → ℕ) (n : ℕ) → IsText s n → length_of s g ≡ ok n g
unfolding length_of length_or_fault strlen
length_of-IsText g s n w = rw (strlen_from-IsText s n ans_size 0 w (omega arith) w.fits) refl

pub length_of-IsWord : (g : Game) (s : ℕ → ℕ) (n : ℕ) → IsWord s n → length_of s g ≡ ok n g
length_of-IsWord g s n w = length_of-IsText g s n (IsWord-IsText s n w)

pub known_at-letter :
    (g : Game) (c : ℕ) → 97 ≤ c → c < 123 → known_at c g ≡ ok (g.letter_known (c - 97)) g
unfolding known_at
known_at-letter g c p q = let e : (leb 97 c && ltb c 123) ≡ true = ground arith in rw e refl

-- From index i on, every letter is known to be in the word.
abbrev AllFound : Game → ℕ → ℕ → Type 0
AllFound g i n = (j : ℕ) → i ≤ j → j < i + n → is_in_word (g.letter_known (g.ans j - 97)) ≡ true

AllFound-suc :
    (g : Game) (i n : ℕ)
    → is_in_word (g.letter_known (g.ans i - 97)) ≡ true
    → AllFound g (i + 1) n
    → AllFound g i (suc n)
AllFound-suc g i n e f j p q = elim (Bool-cases (i == j)) [
  | inl here ↦ ap (λ k. is_in_word (g.letter_known (g.ans k - 97))) (sym (==→eq i j here)) ∙ e
  | inr there ↦ f j (omega (arith, ==→ne i j there)) (omega arith)
]

check_win_from-AllFound :
    (g : Game) (n i : ℕ)
    → ((j : ℕ) → i ≤ j → j < i + n → (97 ≤ g.ans j) × (g.ans j < 123))
    → Returns (λ won t. (t ≡ g) × ((won ≡ true) ↔ AllFound g i n)) (check_win_from n i g)
unfolding check_win_from
check_win_from-AllFound g zero i w = returns (refl, ((λ _ j p q. absurd (omega arith)), λ _. refl))
check_win_from-AllFound g (suc n) i w =
    let here = w i (omega arith) (omega arith) in
    rw (known_at-letter g (g.ans i) here.0 here.1)
      (elim (Bool-cases (is_in_word (g.letter_known (g.ans i - 97)))) [
        | inl e ↦ rw e (
            Returns-mono
              (check_win_from-AllFound g n (i + 1) (λ j p q. w j (omega arith) (omega arith)))
              (λ won t r. (
                r.0,
                (
                  λ a. AllFound-suc g i n e (r.1.0 a),
                  λ f. r.1.1 (λ j p q. f j (omega arith) (omega arith)),
                ),
              )))
        | inr e ↦ rw e (
            returns (
              refl,
              ((λ z. absurd (ground (arith, z))), λ f. sym e ∙ f i (omega arith) (omega arith)),
            ))
      ])

-- At a word of n lower-case letters that fits `ans`, `check_win` returns, changes nothing, and
-- says yes exactly when every letter of the word is known to be in it.
pub check_win_iff :
    (g : Game) (n : ℕ)
    → IsWord g.ans n
    → Returns
        (λ won t.
          (t ≡ g)
          × ((won ≡ true) ↔ ((j : ℕ) → j < n → is_in_word (g.letter_known (g.ans j - 97)) ≡ true)))
        (check_win g)
unfolding check_win
check_win_iff g n w = rw (length_of-IsWord g g.ans n w) (
    Returns-mono (check_win_from-AllFound g n 0 (λ j p q. w.letters j (omega arith))) (λ won t r. (
      r.0,
      ((λ e j q. r.1.0 e j (omega arith) (omega arith)), λ f. r.1.1 (λ j p q. f j (omega arith))),
    )))
