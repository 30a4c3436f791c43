-- ===== src/StreamEngine/Upload/Counting.antt =====
-- packages/stream-engine/src/upload.ts: how often an index stands in a list, and the bytes of chunks.
use ddrive.Prelude.{
  ℕ, zero, suc, ◌+◌, ◌<◌, ◌≡◌, refl, ap, List, [], ◌∷◌, ◌++◌, Option, none, some, if◌then◌else◌,
  length, replicate, arith, ◌==◌, take,
}
use ddrive.Processing.Chunker.{Bytes}
use ddrive.StreamEngine.Upload.{Done}
use ddrive.StreamEngine.Upload.Pool.{sum_lengths, chunk_at, store_at}

unfoldable pub count : ℕ → List ℕ → ℕ
count i [] = 0
count i (x ∷ xs) = (if x == i then 1 else 0) + count i xs

pub count-middle :
    (i x : ℕ) (before after : List ℕ)
    → count i (before ++ x ∷ after) ≡ count i (before ++ after) + (if x == i then 1 else 0)
unfolding count
count-middle i x [] after = ground arith
count-middle i x (y ∷ before) after = ground (arith, count-middle i x before after)

pub length-middle :
    (x : ℕ) (before after : List ℕ) → length (before ++ x ∷ after) ≡ length (before ++ after) + 1
length-middle x [] after = ground arith
length-middle x (y ∷ before) after = ground (arith, length-middle x before after)

unfoldable pub stored : ℕ → List (Option Done) → ℕ
stored i [] = 0
stored zero (none ∷ xs) = 0
stored zero (some a ∷ xs) = 1
stored (suc i) (x ∷ xs) = stored i xs

pub stored-store_at :
    (i x : ℕ) (a : Done) (xs : List (Option Done))
    → x < length xs
    → stored i (store_at x a xs) ≡ (if x == i then 1 else stored i xs)
unfolding stored
stored-store_at i x a [] lt = absurd (ground (arith, lt))
stored-store_at zero zero a (y ∷ xs) lt = refl
stored-store_at (suc i) zero a (y ∷ xs) lt = ground arith
stored-store_at zero (suc x) a (none ∷ xs) lt = ground arith
stored-store_at zero (suc x) a (some b ∷ xs) lt = ground arith
stored-store_at (suc i) (suc x) a (y ∷ xs) lt =
    ground (arith, stored-store_at i x a xs (ground (arith, lt)))

pub length-store_at :
    (x : ℕ) (a : Done) (xs : List (Option Done)) → length (store_at x a xs) ≡ length xs
length-store_at x a [] = refl
length-store_at zero a (y ∷ xs) = refl
length-store_at (suc x) a (y ∷ xs) = ap suc (length-store_at x a xs)

pub stored-replicate : (i n : ℕ) → stored i (replicate n none) ≡ 0
unfolding stored
stored-replicate i zero = refl
stored-replicate zero (suc n) = refl
stored-replicate (suc i) (suc n) = stored-replicate i n

-- The bytes of the chunks that tasks carry, and of those before an index.
unfoldable pub carried : List Bytes → List ℕ → ℕ
carried chunks [] = 0
carried chunks (i ∷ is) = length (chunk_at chunks i) + carried chunks is

pub carried-middle :
    (chunks : List Bytes) (x : ℕ) (before after : List ℕ)
    → carried chunks (before ++ x ∷ after)
      ≡ carried chunks (before ++ after) + length (chunk_at chunks x)
unfolding carried
carried-middle chunks x [] after = omega arith
carried-middle chunks x (y ∷ before) after = omega (arith, carried-middle chunks x before after)

pub sum-take_suc :
    (chunks : List Bytes) (k : ℕ)
    → sum_lengths (take (k + 1) chunks) ≡ sum_lengths (take k chunks) + length (chunk_at chunks k)
sum-take_suc [] zero = refl
sum-take_suc [] (suc k) = ground arith
sum-take_suc (c ∷ cs) zero = ground arith
sum-take_suc (c ∷ cs) (suc k) = ground (arith, sum-take_suc cs k)

pub take-all : (chunks : List Bytes) → take (length chunks) chunks ≡ chunks
take-all [] = refl
take-all (c ∷ cs) = ap (λ x. c ∷ x) (take-all cs)
