-- ===== src/LibString/Tests.antt =====
-- Two names.
use nju_oslab.Prelude.{ℕ, ◌≡◌, ◌↔◌, [], ◌∷◌, get_or}
use nju_oslab.LibString.{strncmp}
use nju_oslab.LibString.Laws.{SameName, strncmp_iff}

-- "ab" and "ac"
abbrev ab : ℕ → ℕ
ab i = get_or (b'a' ∷ b'b' ∷ []) i 0

abbrev ac : ℕ → ℕ
ac i = get_or (b'a' ∷ b'c' ∷ []) i 0

strncmp_iff_example : (strncmp ab ac 24 ≡ 0) ↔ SameName ab ac 24
strncmp_iff_example = strncmp_iff ab ac 24
