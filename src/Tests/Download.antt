-- ===== src/Tests/Download.antt =====
-- packages/stream-engine/src/download.ts on a file of five bytes in chunks of two.
use ddrive.Prelude.{
  ℕ, zero, suc, ◌+◌, ◌*◌, ◌≡◌, refl, ◌⊎◌, List, [], ◌∷◌, ◌++◌, Option, some, String, arith,
  replicate, All, filter,
}
use ddrive.Prelude.Slices.{slice}
use ddrive.Prelude.Tables.{lookup, insert}
use ddrive.Processing.Chunker.{Bytes, set_at}
use ddrive.Storage.Rows.{ok, err}
use ddrive.StreamEngine.Download.{
  StreamConfig, Engine, ChunkSource, Event, begins, settles, evicts, register, fetch_and_decrypt,
  get_index, delete_index, get_byte_range, download_all,
}
use ddrive.StreamEngine.Download.Cache.{IsHonest, IsHonestEvent}
use ddrive.StreamEngine.Download.Guarantees.{
  IsOwn, IsDelivered, register-Coherent, get_byte_range-own, get_byte_range-delivers,
}

abbrev five : Bytes
five = 1 ∷ 2 ∷ 3 ∷ 4 ∷ 5 ∷ []

-- A cipher that hides nothing.
abbrev clear : String → Bytes → Bytes → Option Bytes
clear fek iv ciphertext = some ciphertext

abbrev stream : StreamConfig
stream = record {
  file_id = "f";
  fek = "k";
  chunk_size = 2;
  chunk_count = 3;
  total_size = 5;
  mime_type = "text/plain";
  chunks_ahead = 1;
  chunks_behind = 0;
}

abbrev server : ChunkSource
server file_id ci = ok (replicate 12 0 ++ slice (ci * 2) (ci * 2 + 2) five)

abbrev engine : Engine
engine = register (record { streams = []; chunk_cache = []; fetching = [] }) stream

-- While chunk 0 is awaited, the prefetch of chunk 1 arrives and is evicted again.
abbrev busy : ℕ → List Event
busy zero = begins server "f" 2 ∷ settles "f" 1 ∷ evicts "f" 2 ∷ []
busy ci = []

range_across : (get_byte_range clear engine "f" 1 3 server busy).1 ≡ ok (2 ∷ 3 ∷ 4 ∷ [])
unfolding get_byte_range register lookup insert get_index delete_index fetch_and_decrypt filter
    set_at
range_across = refl

whole_file :
    (download_all clear engine "f" server busy).1 ≡ ok ((1 ∷ 2 ∷ []) ∷ (3 ∷ 4 ∷ []) ∷ (5 ∷ []) ∷ [])
unfolding download_all register lookup insert get_index delete_index fetch_and_decrypt filter
whole_file = refl

server-IsDelivered : IsHonest clear "f" stream (IsDelivered stream five) server
unfolding fetch_and_decrypt
server-IsDelivered ci below = refl

server-IsOwn : IsHonest clear "f" stream (IsOwn stream five) server
unfolding fetch_and_decrypt
server-IsOwn ci b is = cc

busy-IsDelivered :
    (ci : ℕ) → All (IsHonestEvent clear "f" stream (IsDelivered stream five)) (busy ci)
busy-IsDelivered zero = (server-IsDelivered, (tt, (tt, tt)))
busy-IsDelivered (suc ci) = tt

busy-IsOwn : (ci : ℕ) → All (IsHonestEvent clear "f" stream (IsOwn stream five)) (busy ci)
busy-IsOwn zero = (server-IsOwn, (tt, (tt, tt)))
busy-IsOwn (suc ci) = tt

get_byte_range-delivers_example :
    (get_byte_range clear engine "f" 1 3 server busy).1 ≡ ok (slice 1 4 five)
get_byte_range-delivers_example =
    get_byte_range-delivers clear "f" stream five server busy 1 3 engine (omega arith) (omega arith)
      (omega arith) server-IsDelivered busy-IsDelivered
      (register-Coherent clear stream (IsDelivered stream five)
        (record { streams = []; chunk_cache = []; fetching = [] }))

get_byte_range-own_example :
    ((get_byte_range clear engine "f" 1 3 server busy).1 ≡ ok (slice 1 4 five))
    ⊎ ((why : String) × ((get_byte_range clear engine "f" 1 3 server busy).1 ≡ err why))
get_byte_range-own_example =
    get_byte_range-own clear "f" stream five server busy 1 3 engine (omega arith) (omega arith)
      (omega arith) server-IsOwn busy-IsOwn
      (register-Coherent clear stream (IsOwn stream five)
        (record { streams = []; chunk_cache = []; fetching = [] }))
