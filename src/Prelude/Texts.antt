-- ===== src/Prelude/Texts.antt =====
-- Texts as lists of code points, and the pieces of regular expressions that the program matches.
use Prim.Native.Char.{code}
use Prim.Native.Nat.{ℕ, ◌+◌, ◌-◌, ◌*◌}
use Prim.Native.String.{String}
use mathlib.Core.Bool.{Bool, true, false, ◌&&◌, ◌||◌}
use mathlib.Core.List.{List, [], ◌∷◌}
use mathlib.Core.Option.{Option, none, some}
use ddrive.Prelude.Tests.{leb, ◌==◌, if◌then◌else◌}

-- The code points of a text.
unfoldable pub codes : String → List ℕ
codes String.[] = []
codes (String.◌∷◌ c s) = code c ∷ codes s

-- `s.startsWith(part)`, as what follows the part.
unfoldable pub strip_prefix : List ℕ → List ℕ → Option (List ℕ)
strip_prefix [] s = some s
strip_prefix (c ∷ cs) [] = none
strip_prefix (c ∷ cs) (d ∷ ds) = if c == d then strip_prefix cs ds else none

abbrev pub is_some {ℓ} : {A : Type ℓ} → Option A → Bool
is_some none = false
is_some (some a) = true

unfoldable pub starts_with : List ℕ → List ℕ → Bool
unfolding strip_prefix
starts_with part s = is_some (strip_prefix part s)

-- `s.includes(part)`.
unfoldable pub includes : List ℕ → List ℕ → Bool
unfolding starts_with
includes part [] = starts_with part []
includes part (c ∷ cs) = starts_with part (c ∷ cs) || includes part cs

-- `\d`.
abbrev pub is_digit : ℕ → Bool
is_digit c = leb b'0' c && leb c b'9'

-- `\d*`, with the number that the digits write behind `acc`: the number and what follows.
unfoldable pub digits_from : ℕ → List ℕ → ℕ × List ℕ
digits_from acc [] = (acc, [])
digits_from acc (c ∷ cs) =
    let rest = digits_from (acc * 10 + (c - b'0')) cs in if is_digit c then rest else (acc, c ∷ cs)

-- `\d+`.
unfoldable pub digits : List ℕ → Option (ℕ × List ℕ)
unfolding digits_from
digits [] = none
digits (c ∷ cs) = if is_digit c then some (digits_from (c - b'0') cs) else none

-- An expression that is not anchored matches at the first place where it can.
unfoldable pub search_in {ℓ} : {A : Type ℓ} → (List ℕ → Option A) → List ℕ → Option A
search_in at [] = at []
search_in at (c ∷ cs) = elim (at (c ∷ cs)) [ some a ↦ some a | none ↦ search_in at cs ]
