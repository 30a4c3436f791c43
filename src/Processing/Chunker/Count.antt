-- ===== src/Processing/Chunker/Count.antt =====
-- packages/processing/src/chunker.ts: `calculateChunkCount` is the number of chunks that the
-- generator yields.
use native.Mathlib.Nat.{add-div_left}
use native.Mathlib.Numerals.{add-one}
use ddrive.Prelude.{
  sym, ◌++◌, some, append-nil, ℕ, suc, ◌+◌, ◌-◌, ◌*◌, ◌/◌, ◌≤◌, ◌<◌, ◌≡◌, ap, ◌∙◌, List, [], ◌∷◌,
  arith, length, flatten, length-append,
}
use ddrive.Processing.Chunker.{Bytes, Chunk, chunk_file_stream, calculate_chunk_count}
use ddrive.Processing.Chunker.Split.{data_of, IsChunked, chunk_file_stream-splits}

div-eq : (x c q : ℕ) → q * c ≤ x → x < q * c + c → x / c ≡ q
div-eq x c q h k = grind arith

ceil_add : (x c : ℕ) → 0 < c → (c + x + c - 1) / c ≡ suc ((x + c - 1) / c)
ceil_add x c h = ap (λ n. n / c) (omega arith) ∙ add-div_left (x + c - 1) h ∙ add-one _

length-IsChunked :
    (c i : ℕ) (cs : List Chunk)
    → 0 < c
    → IsChunked c i cs
    → length cs ≡ calculate_chunk_count (length (flatten (data_of cs))) c
unfolding calculate_chunk_count
length-IsChunked c i [] p h = sym (div-eq (0 + c - 1) c 0 (omega arith) (omega arith))
length-IsChunked c i ((j, d) ∷ []) p h = sym (
    div-eq (length (d ++ []) + c - 1) c 1 (omega (arith, ap length (append-nil d)))
      (omega (arith, ap length (append-nil d))))
length-IsChunked c i ((j, d) ∷ x ∷ cs) p h =
    ap suc (length-IsChunked c (suc i) (x ∷ cs) p h.2)
    ∙ sym (ceil_add (length (flatten (data_of (x ∷ cs)))) c p)
    ∙ ap (λ n. (n + c - 1) / c) (omega (arith, h.1, length-append d (flatten (data_of (x ∷ cs)))))

-- The generator yields as many chunks as `calculateChunkCount` says of the stream's length.
pub chunk_file_stream-count :
    (values : List Bytes) (chunk_size : ℕ) (cs : List Chunk)
    → 0 < chunk_size
    → chunk_file_stream values chunk_size ≡ some cs
    → length cs ≡ calculate_chunk_count (length (flatten values)) chunk_size
chunk_file_stream-count values c cs p e =
    let (ds, run, chunked, same) = chunk_file_stream-splits values c p in
    let eq : cs ≡ ds = cc in
    rw eq (length-IsChunked c 0 ds p chunked ∙ ap (λ l. calculate_chunk_count (length l) c) same)
