-- ===== src/Processing/Chunker.antt =====
-- packages/processing/src/chunker.ts. A `Uint8Array` is the list of its bytes, a stream the list of
-- the values that its reader delivers, and the generator's result the list of what it yields. Sizes
-- are natural numbers; `Math.ceil` of a quotient is taken exactly.
pub mod Split
pub mod Count
use ddrive.Prelude.{
  ℕ, zero, suc, ◌+◌, ◌-◌, ◌/◌, min, Bool, true, false, List, [], ◌∷◌, ◌++◌, Option, none, some, ltb,
  leb, ◌==◌, if◌then◌else◌, length, take, drop, replicate,
}
use ddrive.Prelude.Slices.{slice}

abbrev pub Bytes : Type 0
Bytes = List ℕ

-- What the generator yields: `{ index, data }`.
abbrev pub Chunk : Type 0
Chunk = ℕ × Bytes

-- `target.set(source, at)`; `none` is the RangeError of a source that does not fit.
unfoldable pub set_at : Bytes → Bytes → ℕ → Option Bytes
set_at target source at =
    if leb (at + length source) (length target)
    then some (take at target ++ (source ++ drop (at + length source) target))
    else none

-- The generator's variables, and what it has yielded so far.
pub record State : Type 0 where
  pub acc : Bytes
  pub acc_len : ℕ
  pub index : ℕ
  pub out : List Chunk

unfoldable pub init : ℕ → State
init chunk_size = record { acc = replicate chunk_size 0; acc_len = 0; index = 0; out = [] }

-- `if (accLen === chunkSize) { yield ...; acc = new Uint8Array(chunkSize); ... }`
flush : ℕ → State → State
flush chunk_size s =
    if s.acc_len == chunk_size
    then record {
      acc = replicate chunk_size 0;
      acc_len = 0;
      index = s.index + 1;
      out = s.out ++ (s.index, s.acc) ∷ [];
    }
    else s

-- The inner `while (offset < value.length)`, on fuel; `none` is a RangeError, or the end of the fuel.
fill : ℕ → ℕ → Bytes → ℕ → State → Option State
fill zero chunk_size value offset s = none
fill (suc fuel) chunk_size value offset s = elim (ltb offset (length value)) [
  | false ↦ some s
  | true ↦
      let n = min (chunk_size - s.acc_len) (length value - offset) in
      elim (set_at s.acc (slice offset (offset + n) value) s.acc_len) [
        | none ↦ none
        | some acc ↦
            fill fuel chunk_size value (offset + n)
              (flush chunk_size (record s { acc = acc; acc_len = s.acc_len + n }))
      ]
]

-- The outer `while (true)`: one value after another. One round of `fill` takes a byte at least.
read_all : ℕ → List Bytes → State → Option State
read_all chunk_size [] s = some s
read_all chunk_size (value ∷ values) s = elim (fill (suc (length value)) chunk_size value 0 s) [
  | none ↦ none
  | some s' ↦ read_all chunk_size values s'
]

-- The tail that follows the loop.
finish : State → List Chunk
finish s = if ltb 0 s.acc_len then s.out ++ (s.index, take s.acc_len s.acc) ∷ [] else s.out

unfoldable pub chunk_file_stream : List Bytes → ℕ → Option (List Chunk)
unfolding init read_all fill flush set_at finish
chunk_file_stream values chunk_size = elim (read_all chunk_size values (init chunk_size)) [
  | none ↦ none
  | some s ↦ some (finish s)
]

-- `Math.ceil(size / chunkSize)`, for a positive chunk size.
unfoldable pub calculate_chunk_count : ℕ → ℕ → ℕ
calculate_chunk_count file_size chunk_size = (file_size + chunk_size - 1) / chunk_size
