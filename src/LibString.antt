-- ===== src/LibString.antt =====
-- lib/string.c: strings as the bytes behind a pointer.
pub mod Laws
mod Tests
use nju_oslab.Prelude.{
  ℕ, zero, suc, ◌+◌, ◌-◌, ◌/◌, ◌%◌, ◌^◌, ltb, Bool, true, false, Option, none, some, List, [], ◌∷◌,
  ◌==◌, if◌then◌else◌, update, copy,
}

-- The loop of `strncmp`, with the rounds left and the index. 1 stands for `true`.
unfoldable pub strncmp_from : (s1 s2 : ℕ → ℕ) → ℕ → ℕ → ℕ
strncmp_from s1 s2 zero i = 0
strncmp_from s1 s2 (suc n) i =
    let rest = strncmp_from s1 s2 n (i + 1) in
    if s1 i == s2 i then (if s1 i == 0 then 0 else rest) else 1

unfoldable pub strncmp : (s1 s2 : ℕ → ℕ) → ℕ → ℕ
strncmp s1 s2 n = strncmp_from s1 s2 n 0

unfoldable pub strncpy_from : (dest src : ℕ → ℕ) → ℕ → ℕ → Bool → ℕ → ℕ
strncpy_from dest src zero i eos = dest
strncpy_from dest src (suc n) i true = strncpy_from (update dest i 0) src n (i + 1) true
strncpy_from dest src (suc n) i false =
    strncpy_from (update dest i (src i)) src n (i + 1) (src i == 0)

unfoldable pub strncpy : (dest src : ℕ → ℕ) → ℕ → ℕ → ℕ
strncpy dest src n = strncpy_from dest src n 0 false

-- The loop of `itoa`, with the room left in the buffer: at an int that is not negative, and at -a,
-- where the remainders are negative.
unfoldable pub itoa_from : ℕ → ℕ → List ℕ → List ℕ
itoa_from zero a text = text
itoa_from (suc room) a text =
    let text' = (48 + a % 10) ∷ text in
    let rest = itoa_from room (a / 10) text' in if a / 10 == 0 then text' else rest

unfoldable pub itoa_negative : ℕ → ℕ → List ℕ → List ℕ
itoa_negative zero a text = text
itoa_negative (suc room) a text =
    let text' = (48 - a % 10) ∷ text in
    let rest = itoa_negative room (a / 10) text' in if a / 10 == 0 then text' else rest

-- At an int as a word.
unfoldable pub itoa : ℕ → List ℕ
itoa a = if ltb a (2 ^ 31) then itoa_from 29 a [] else itoa_negative 29 (2 ^ 32 - a) []

-- The loop of `strlen` over an object with `room` bytes left: `none` is a string that does not end
-- in it.
unfoldable pub strlen_from : ℕ → (ℕ → ℕ) → ℕ → Option ℕ
strlen_from zero str len = none
strlen_from (suc room) str len =
    let rest = strlen_from room str (len + 1) in if str len == 0 then some len else rest

unfoldable pub strlen : ℕ → (ℕ → ℕ) → Option ℕ
strlen room str = strlen_from room str 0

-- `memcpy(d, s, strlen(s) + 1)`, over the length that `strlen` found.
unfoldable pub strcpy : (d s : ℕ → ℕ) → ℕ → ℕ → ℕ
strcpy d s len = copy d 0 s 0 (len + 1)
