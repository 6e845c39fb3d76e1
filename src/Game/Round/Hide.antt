-- ===== src/Game/Round/Hide.antt =====
-- What the player sees of the word.
use nju_oslab.Prelude.{
  ℕ, zero, suc, ◌+◌, ◌-◌, ◌≤◌, ◌<◌, ◌≡◌, refl, ap, ◌∙◌, sym, Bool, true, false, ◌&&◌, Bool-cases,
  inl, inr, ltb, leb, ◌==◌, ==→eq, if◌then◌else◌, update, Returns, returns, Returns-mono,
  Returns-bind, ◌>>◌, arith,
}
use nju_oslab.Game.{Game, is_unknown, is_in_word, uncover}
use nju_oslab.Game.Round.{hide_letters, check_win}
use nju_oslab.Game.Round.Win.{IsWord, check_win_iff, known_at-letter}

-- The places i to i + n that satisfy `hits`.
abbrev pub hit_from : (hits : ℕ → Bool) (i n : ℕ) → ℕ → Bool
hit_from hits i n j = leb i j && ltb j (i + n) && hits j

hit_from-yes :
    (hits : ℕ → Bool) (c : ℕ → ℕ) (i n j w : ℕ)
    → hits i ≡ true
    → (if hit_from hits (i + 1) n j then c j else if i == j then c i else w)
      ≡ (if hit_from hits i (suc n) j then c j else w)
hit_from-yes hits c i n j w e = elim (Bool-cases (i == j)) [
  | inl f ↦
      let h : hits j ≡ true = ap hits (sym (==→eq i j f)) ∙ e in
      let k : c i ≡ c j = ap c (==→eq i j f) in rw (h, k) (ground (arith, f))
  | inr f ↦ rw f (ground (arith, f))
]

hit_from-no :
    (hits : ℕ → Bool) (c : ℕ → ℕ) (i n j w : ℕ)
    → hits i ≡ false
    → (if hit_from hits (i + 1) n j then c j else w)
      ≡ (if hit_from hits i (suc n) j then c j else w)
hit_from-no hits c i n j w e = elim (Bool-cases (i == j)) [
  | inl f ↦ let h : hits j ≡ false = ap hits (sym (==→eq i j f)) ∙ e in rw h (ground (arith, f))
  | inr f ↦ ground (arith, f)
]

-- Only the text that is shown differs, and there the places i to i + n that satisfy `hits` have `c`.
pub record Shows (g : Game) (hits : ℕ → Bool) (c : ℕ → ℕ) (i n : ℕ) (t : Game) : Type 0 where
  pub text : (j : ℕ) → t.show_str j ≡ (if hit_from hits i n j then c j else g.show_str j)
  pub same : t ≡ record g { show_str = t.show_str }
  pub same_word : t.ans ≡ g.ans
  pub same_known : t.letter_known ≡ g.letter_known

abbrev pub unknown_at : Game → ℕ → Bool
unknown_at g j = is_unknown (g.letter_known (g.ans j - 97))

abbrev pub found_at : Game → ℕ → Bool
found_at g j = is_in_word (g.letter_known (g.ans j - 97))

pub hide_letters-from :
    (n i : ℕ) (g : Game)
    → ((j : ℕ) → i ≤ j → j < i + n → (97 ≤ g.ans j) × (g.ans j < 123))
    → Returns (λ _ t. Shows g (unknown_at g) (λ _. 95) i n t) (hide_letters n i g)
unfolding hide_letters
hide_letters-from zero i g w =
    returns record { text = λ j. ground arith; same = refl; same_word = refl; same_known = refl }
hide_letters-from (suc n) i g w =
    let here = w i (omega arith) (omega arith) in
    rw (known_at-letter g (g.ans i) here.0 here.1) (elim (Bool-cases (unknown_at g i)) [
      | inl e ↦ rw e (
          Returns-mono
            (hide_letters-from n (i + 1) (record g { show_str = update g.show_str i 95 })
              (λ j p q. w j (omega arith) (omega arith)))
            (λ _ t r. record {
              text = λ j. r.text j ∙ hit_from-yes (unknown_at g) (λ _. 95) i n j (g.show_str j) e;
              same = r.same;
              same_word = r.same_word;
              same_known = r.same_known;
            }))
      | inr e ↦ rw e (
          Returns-mono (hide_letters-from n (i + 1) g (λ j p q. w j (omega arith) (omega arith)))
            (λ _ t r. record {
              text = λ j. r.text j ∙ hit_from-no (unknown_at g) (λ _. 95) i n j (g.show_str j) e;
              same = r.same;
              same_word = r.same_word;
              same_known = r.same_known;
            }))
    ])

pub uncover-from :
    (n i : ℕ) (g : Game)
    → ((j : ℕ) → i ≤ j → j < i + n → (97 ≤ g.ans j) × (g.ans j < 123))
    → Returns (λ _ t. Shows g (found_at g) g.ans i n t) (uncover n i g)
unfolding uncover
uncover-from zero i g w =
    returns record { text = λ j. ground arith; same = refl; same_word = refl; same_known = refl }
uncover-from (suc n) i g w =
    let here = w i (omega arith) (omega arith) in
    rw (known_at-letter g (g.ans i) here.0 here.1) (elim (Bool-cases (found_at g i)) [
      | inl e ↦ rw e (
          Returns-mono
            (uncover-from n (i + 1) (record g { show_str = update g.show_str i (g.ans i) })
              (λ j p q. w j (omega arith) (omega arith)))
            (λ _ t r. record {
              text = λ j. r.text j ∙ hit_from-yes (found_at g) g.ans i n j (g.show_str j) e;
              same = r.same;
              same_word = r.same_word;
              same_known = r.same_known;
            }))
      | inr e ↦ rw e (
          Returns-mono (uncover-from n (i + 1) g (λ j p q. w j (omega arith) (omega arith)))
            (λ _ t r. record {
              text = λ j. r.text j ∙ hit_from-no (found_at g) g.ans i n j (g.show_str j) e;
              same = r.same;
              same_word = r.same_word;
              same_known = r.same_known;
            }))
    ])

-- The text of a word of n letters: `_` for an unknown letter.
pub record IsMasked (g : Game) (n : ℕ) : Type 0 where
  pub masked : (j : ℕ) → j < n → g.show_str j ≡ (if unknown_at g j then 95 else g.ans j)

hit_from-all :
    (hits : ℕ → Bool) (n j a b : ℕ)
    → j < n
    → (if hit_from hits 0 n j then a else b) ≡ (if hits j then a else b)
hit_from-all hits n j a b p = elim (Bool-cases (hits j)) [
  | inl e ↦ rw e (ground (arith, p))
  | inr e ↦ rw e (ground (arith, p))
]

-- At a word of n lower-case letters that fits `ans` and is copied to `show_str`, the last loop
-- of `hangman_init` returns, keeps the word and what is known, and shows `_` at the places of
-- the unknown letters and the letter itself at all others.
pub hide_letters-IsMasked :
    (n : ℕ) (g : Game)
    → IsWord g.ans n
    → ((j : ℕ) → j < n → g.show_str j ≡ g.ans j)
    → Returns
        (λ _ t. (t.ans ≡ g.ans) × ((t.letter_known ≡ g.letter_known) × IsMasked t n))
        (hide_letters n 0 g)
hide_letters-IsMasked n g w s =
    Returns-mono (hide_letters-from n 0 g (λ j p q. w.letters j (omega (arith, q)))) (λ _ t r. (
      r.same_word,
      (
        r.same_known,
        record {
          masked = λ j p.
              r.text j
              ∙ hit_from-all (unknown_at g) n j 95 (g.show_str j) p
              ∙ (rw (r.same_word, r.same_known, s j p) refl);
        },
      ),
    ))

-- At a word of n lower-case letters that fits `ans`, the end of `update_keypress` followed by
-- `check_win` returns: each letter of the word that is found is shown at its place and the
-- other places show what they did; and if `check_win` says yes, the whole word is shown.
pub uncover-check_win :
    (n : ℕ) (g : Game)
    → IsWord g.ans n
    → Returns
        (λ won t.
          ((j : ℕ) → j < n → t.show_str j ≡ (if found_at g j then g.ans j else g.show_str j))
          × ((won ≡ true) → (j : ℕ) → j < n → t.show_str j ≡ g.ans j))
        ((do uncover n 0; check_win) g)
uncover-check_win n g w =
    Returns-bind (uncover-from n 0 g (λ j p q. w.letters j (omega (arith, q)))) (λ _ t r.
      let text : (j : ℕ) → j < n → t.show_str j ≡ (if found_at g j then g.ans j else g.show_str j) =
        λ j p. r.text j ∙ hit_from-all (found_at g) n j (g.ans j) (g.show_str j) p in
      let known : (j : ℕ) → found_at t j ≡ true → found_at g j ≡ true =
        λ j e. (rw (r.same_known, r.same_word) refl) ∙ e in
      Returns-mono (check_win_iff t n (rw r.same_word w)) (λ won u c. (
        (λ j p. ap (λ v. v.show_str j) c.0 ∙ text j p),
        (λ e j p. ap (λ v. v.show_str j) c.0 ∙ text j p ∙ (rw (known j (c.1.0 e j p)) refl)),
      )))
