-- ===== src/Tests/Stream.antt =====
-- apps/api/src/handlers/stream.ts on a file of two chunks.
use ddrive.Prelude.{
  ℕ, ◌+◌, ◌-◌, ◌≤◌, ◌<◌, ◌≡◌, refl, ◌⊎◌, List, [], ◌∷◌, none, some, arith, length, filter,
}
use ddrive.Prelude.Slices.{slice}
use ddrive.Prelude.Sort.{sort_by}
use ddrive.Processing.Chunker.{Bytes}
use ddrive.Storage.Rows.{ok}
use ddrive.Storage.Provider.{order_placements_for_read}
use ddrive.Storage.ServerCrypto.{decrypt_server_side, get_key}
use ddrive.Handlers.Reading.{PoolGet, read_blob_bytes}
use ddrive.Handlers.Stream.{
  ChunkMeta, total_size, match_range, parse_chunk_index, whole, partial, unsatisfiable, stream_file,
  load,
}
use ddrive.Handlers.Stream.Window.{content, Delivers}
use ddrive.Handlers.Stream.Answers.{last_byte, stream_file-range, stream_file-whole}
use ddrive.Tests.Fixtures.{toy, transport, sealed}

abbrev file_get : PoolGet
file_get kind role ref = ok (sealed (1 ∷ 2 ∷ 3 ∷ []))

abbrev chunk : ℕ → ChunkMeta
chunk n = record {
  index = n;
  blob = transport "f1:chunk:0" 31;
  plaintext_size_bytes = 3;
  placements = [];
}

abbrev file : List ChunkMeta
file = chunk 0 ∷ chunk 1 ∷ []

abbrev plain : ChunkMeta → Bytes
plain c = 1 ∷ 2 ∷ 3 ∷ []

range_headers :
    (match_range "bytes=2-10" ≡ some (2, some 10))
    × (match_range "bytes=7-" ≡ some (7, none))
    × (match_range "bytes=-7" ≡ none)
unfolding match_range
range_headers = (refl, refl, refl)

chunk_indices : (parse_chunk_index "f1:chunk:12" ≡ some 12) × (parse_chunk_index "f1:thumb" ≡ none)
unfolding parse_chunk_index
chunk_indices = (refl, refl)

delivers : (n : ℕ) → Delivers file_get 0 toy "k" plain (chunk n)
unfolding load read_blob_bytes order_placements_for_read filter sort_by decrypt_server_side get_key
delivers n = (λ t. refl, refl)

two_to_four :
    (stream_file file_get 0 toy "k" "video/mp4" file (some "bytes=2-4") []).0
    ≡ ok (partial "video/mp4" 2 4 6 (3 ∷ 1 ∷ 2 ∷ []))
unfolding stream_file match_range load read_blob_bytes order_placements_for_read filter sort_by
    decrypt_server_side get_key
two_to_four = refl

stream_file-whole_example :
    (stream_file file_get 0 toy "k" "video/mp4" file none []).0
    ≡ ok (whole "video/mp4" (content plain file))
unfolding total_size
stream_file-whole_example =
    stream_file-whole file_get 0 toy "k" plain "video/mp4" file [] (delivers 0, (delivers 1, tt))
      (omega arith)

stream_file-range_example :
    ((2 < total_size file)
      × (2 ≤ last_byte (some 10) (total_size file))
      × ((stream_file file_get 0 toy "k" "video/mp4" file (some "bytes=2-10") []).0
          ≡ ok (
              partial "video/mp4" 2
                (last_byte (some 10) (total_size file))
                (total_size file)
                (slice 2 (last_byte (some 10) (total_size file) + 1) (content plain file))))
      × (length (slice 2 (last_byte (some 10) (total_size file) + 1) (content plain file))
          ≡ last_byte (some 10) (total_size file) + 1 - 2))
    ⊎ (((total_size file ≤ 2) ⊎ (last_byte (some 10) (total_size file) < 2))
        × ((stream_file file_get 0 toy "k" "video/mp4" file (some "bytes=2-10") []).0
            ≡ ok (unsatisfiable (some (total_size file)))))
stream_file-range_example =
    stream_file-range file_get 0 toy "k" plain "video/mp4" "bytes=2-10" (chunk 0) (chunk 1 ∷ []) []
      2 (some 10) (delivers 0, (delivers 1, tt)) range_headers.0
