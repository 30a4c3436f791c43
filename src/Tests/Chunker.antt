-- ===== src/Tests/Chunker.antt =====
-- packages/processing/src/chunker.ts on concrete streams.
use ddrive.Prelude.{◌≡◌, refl, List, [], ◌∷◌, some, arith, flatten}
use ddrive.Processing.Chunker.{Bytes, Chunk, chunk_file_stream, calculate_chunk_count}
use ddrive.Processing.Chunker.Split.{IsChunked, data_of, chunk_file_stream-splits}
use ddrive.Processing.Chunker.Count.{chunk_file_stream-count}

abbrev reads : List Bytes
reads = (1 ∷ 2 ∷ 3 ∷ []) ∷ [] ∷ (4 ∷ 5 ∷ 6 ∷ 7 ∷ 8 ∷ []) ∷ []

chunks_of_three :
    chunk_file_stream reads 3
    ≡ some ((0, 1 ∷ 2 ∷ 3 ∷ []) ∷ (1, 4 ∷ 5 ∷ 6 ∷ []) ∷ (2, 7 ∷ 8 ∷ []) ∷ [])
unfolding chunk_file_stream
chunks_of_three = refl

chunk_file_stream-splits_example :
    (cs : List Chunk) × (chunk_file_stream reads 3 ≡ some cs)
    × IsChunked 3 0 cs
    × (flatten (data_of cs) ≡ flatten reads)
chunk_file_stream-splits_example = chunk_file_stream-splits reads 3 (omega arith)

chunk_file_stream-count_example : 3 ≡ calculate_chunk_count 8 3
chunk_file_stream-count_example = chunk_file_stream-count reads 3 _ (omega arith) chunks_of_three
