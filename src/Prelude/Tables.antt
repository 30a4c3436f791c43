-- ===== src/Prelude/Tables.antt =====
-- Maps keyed by texts, and database tables as lists of rows.
use Prim.Native.String.{String}
use mathlib.Core.Path.{◌≡◌, refl}
use mathlib.Core.Bool.{Bool}
use mathlib.Core.List.{List, [], ◌∷◌}
use mathlib.Core.Option.{Option, none, some}
use native.Mathlib.Omega.{arith}
use text.Mathlib.TextEquality.{eq_iff}
use ddrive.Prelude.Tests.{str_eq, if◌then◌else◌}

-- A JavaScript `Map` with text keys.
abbrev pub Map {ℓ} : Type ℓ → Type ℓ
Map V = List (String × V)

module _ {ℓ} {V : Type ℓ} where
  -- `map.get(key)`.
  unfoldable pub lookup : String → Map V → Option V
  lookup key [] = none
  lookup key (entry ∷ rest) = if str_eq entry.0 key then some entry.1 else lookup key rest

  -- `map.delete(key)`.
  unfoldable pub erase : String → Map V → Map V
  erase key [] = []
  erase key (entry ∷ rest) =
      let others = erase key rest in if str_eq entry.0 key then others else entry ∷ others

  -- `map.set(key, value)`: an entry that is there keeps its place.
  unfoldable pub insert : String → V → Map V → Map V
  insert key value [] = (key, value) ∷ []
  insert key value (entry ∷ rest) =
      let others = insert key value rest in
      if str_eq entry.0 key then (entry.0, value) ∷ rest else entry ∷ others

  pub lookup-erase :
      (key asked : String) (table : Map V)
      → lookup asked (erase key table) ≡ (if str_eq key asked then none else lookup asked table)
  unfolding lookup erase
  lookup-erase key asked [] = ground arith
  lookup-erase key asked (entry ∷ rest) =
      let same = lookup-erase key asked rest in
      ground (arith, same, eq_iff entry.0 key, eq_iff entry.0 asked, eq_iff key asked)

  pub lookup-insert :
      (key asked : String) (value : V) (table : Map V)
      → lookup asked (insert key value table)
        ≡ (if str_eq key asked then some value else lookup asked table)
  unfolding lookup insert
  lookup-insert key asked value [] = refl
  lookup-insert key asked value (entry ∷ rest) =
      let same = lookup-insert key asked value rest in
      ground (arith, same, eq_iff entry.0 key, eq_iff entry.0 asked, eq_iff key asked)

module _ {ℓ} {Row : Type ℓ} where
  -- `updateMany({ where: p, data: f })`, and the count that it returns.
  unfoldable pub update_many : (Row → Bool) → (Row → Row) → List Row → List Row
  update_many p f [] = []
  update_many p f (r ∷ rs) = (if p r then f r else r) ∷ update_many p f rs

  unfoldable pub delete_many : (Row → Bool) → List Row → List Row
  delete_many p [] = []
  delete_many p (r ∷ rs) = let rest = delete_many p rs in if p r then rest else r ∷ rest
