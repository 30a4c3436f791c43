-- ===== src/Handlers/Stream.antt =====
-- apps/api/src/handlers/stream.ts: the range-proxy stream, from the file that the request names on.
-- `end` is the last byte of a range; the differences that may fall below 0 in the source are taken
-- one higher, as the byte behind the range. Numbers are exact, where the source has doubles.
pub mod Window
pub mod Answers
use ddrive.Prelude.{
  ℕ, ◌+◌, ◌-◌, min, Bool, ◌&&◌, ◌||◌, List, [], ◌∷◌, ◌++◌, Option, none, some, String, leb, ltb,
  str_eq, if◌then◌else◌, filter,
}
use ddrive.Prelude.Sort.{sort_by}
use ddrive.Prelude.Slices.{slice}
use ddrive.Prelude.Texts.{codes, strip_prefix, starts_with, digits, search_in}
use ddrive.Processing.Chunker.{Bytes}
use ddrive.Storage.Rows.{Placement, Transport, Result, ok, err}
use ddrive.Storage.ServerCrypto.{Gcm, decrypt_server_side, plaintext_size_for}
use ddrive.Handlers.Reading.{PoolGet, read_blob_bytes}

-- `ChunkMeta`: the row it is made from, with its placements and the sizes.
pub record ChunkMeta : Type 0 where
  pub index : ℕ
  pub blob : Transport
  pub plaintext_size_bytes : ℕ
  pub placements : List Placement

-- `/:chunk:(\d+)$/`, at one place.
chunk_suffix : List ℕ → Option ℕ
chunk_suffix s = elim (strip_prefix (codes ":chunk:") s) [
  | none ↦ none
  | some t ↦ elim (digits t) [ none ↦ none | some (n, []) ↦ some n | some (n, c ∷ cs) ↦ none ]
]

unfoldable pub parse_chunk_index : String → Option ℕ
unfolding codes strip_prefix digits search_in chunk_suffix
parse_chunk_index blob_id = search_in chunk_suffix (codes blob_id)

-- One row of the query of `getOrderedChunks`.
chunk_of_row : Transport × List Placement → List ChunkMeta
chunk_of_row (row, placements) = elim (parse_chunk_index row.blob_id) [
  | none ↦ []
  | some n ↦
      record {
        index = n;
        blob = row;
        plaintext_size_bytes = plaintext_size_for row.size_bytes;
        placements = placements;
      }
      ∷ []
]

chunks_of_rows : List (Transport × List Placement) → List ChunkMeta
chunks_of_rows [] = []
chunks_of_rows (r ∷ rs) = chunk_of_row r ++ chunks_of_rows rs

abbrev belongs : String → String → Transport × List Placement → Bool
belongs file_id owner (row, _) =
    str_eq row.owner_user_id owner
    && starts_with (codes file_id ++ codes ":chunk:") (codes row.blob_id)

unfoldable pub get_ordered_chunks :
    List (Transport × List Placement) → String → String → List ChunkMeta
unfolding chunks_of_rows chunk_of_row
get_ordered_chunks rows file_id owner =
    sort_by (λ c. c.index) (chunks_of_rows (filter (belongs file_id owner) rows))

unfoldable pub total_size : List ChunkMeta → ℕ
total_size [] = 0
total_size (c ∷ cs) = c.plaintext_size_bytes + total_size cs

-- Each chunk with its entry of `offsets`.
with_offsets : ℕ → List ChunkMeta → List (ℕ × ChunkMeta)
with_offsets running [] = []
with_offsets running (c ∷ cs) = (running, c) ∷ with_offsets (running + c.plaintext_size_bytes) cs

-- The chunks from `firstIdx` on; `[]` where `findIndex` finds none.
from_first : ℕ → List (ℕ × ChunkMeta) → List (ℕ × ChunkMeta)
from_first start [] = []
from_first start ((offset, c) ∷ cs) =
    if ltb start (offset + c.plaintext_size_bytes) then (offset, c) ∷ cs else from_first start cs

-- Of these, the chunks up to `lastIdx`.
to_last : ℕ → List (ℕ × ChunkMeta) → List (ℕ × ChunkMeta)
to_last end [] = []
to_last end ((offset, c) ∷ cs) =
    (offset, c) ∷ (if ltb end (offset + c.plaintext_size_bytes) then [] else to_last end cs)

-- `/bytes=(\d+)-(\d*)/` at one place: the first number, and the second if it is there.
range_at : List ℕ → Option (ℕ × Option ℕ)
range_at s = elim (strip_prefix (codes "bytes=") s) [
  | none ↦ none
  | some t ↦ elim (digits t) [
    | none ↦ none
    | some (from, rest) ↦ elim (strip_prefix (codes "-") rest) [
      | none ↦ none
      | some last ↦ elim (digits last) [
        | none ↦ some (from, none)
        | some (to, _) ↦ some (from, some to)
      ]
    ]
  ]
]

unfoldable pub match_range : String → Option (ℕ × Option ℕ)
unfolding range_at codes strip_prefix digits search_in
match_range header = search_in range_at (codes header)

-- What the handler answers.
pub data Response : Type 0 where
  -- `Response.json({ error }, { status })`
  failure : ℕ → String → Response
  -- 416, with the size of the file where the range was read
  unsatisfiable : Option ℕ → Response
  -- 200
  whole : String → Bytes → Response
  -- 206: the first and last byte, the size of the file, and the bytes
  partial : String → ℕ → ℕ → ℕ → Bytes → Response

-- `match[2] ? parseInt(match[2], 10) : totalSize - 1`.
abbrev pub requested : Option ℕ → ℕ → ℕ
requested none total = total - 1
requested (some n) total = n

module _ (get : PoolGet) (now : ℕ) (g : Gcm) (key : String) where
  unfoldable pub load : ChunkMeta → List Placement → Result Bytes × List Placement
  load c table =
      let (encrypted, table') = read_blob_bytes get now c.blob c.placements table in
      elim encrypted [
        | err e ↦ (err e, table')
        | ok bytes ↦ (decrypt_server_side g key bytes, table')
      ]

  -- The bytes of one chunk that lie in the range: `pieces.push(...)`, or nothing.
  piece : ℕ → ℕ → ℕ → ℕ → Bytes → Bytes
  piece start end chunk_start size plaintext =
      let slice_start = start - chunk_start in
      let slice_stop = min size (end + 1 - chunk_start) in
      if ltb slice_start slice_stop then slice slice_start slice_stop plaintext else []

  collect : ℕ → ℕ → List (ℕ × ChunkMeta) → List Placement → Result Bytes × List Placement
  collect start end [] table = (ok [], table)
  collect start end ((offset, c) ∷ cs) table =
      let (loaded, table') = load c table in
      elim loaded [
        | err e ↦ (err e, table')
        | ok plaintext ↦
            let (rest, table'') = collect start end cs table' in
            elim rest [
              | err e ↦ (err e, table'')
              | ok bytes ↦
                  (ok (piece start end offset c.plaintext_size_bytes plaintext ++ bytes), table'')
            ]
      ]

  -- From `firstIdx` to the joined body. With no chunk at `firstIdx` the loop reads a field of
  -- `undefined`, which throws.
  pub body_of : ℕ → ℕ → List ChunkMeta → List Placement → Result Bytes × List Placement
  body_of start end chunks table = elim (from_first start (with_offsets 0 chunks)) [
    | [] ↦ (err "TypeError", table)
    | first ∷ more ↦ collect start end (to_last end (first ∷ more)) table
  ]

  answer : (Bytes → Response) → Result Bytes × List Placement → Result Response × List Placement
  answer f (err e, table) = (err e, table)
  answer f (ok bytes, table) = (ok (f bytes), table)

  -- The handler behind its look-up of the file; an error is a rejected promise. An empty Range header
  -- counts as none, and is given as `none`.
  unfoldable pub stream_file :
      String → List ChunkMeta → Option String → List Placement → Result Response × List Placement
  unfolding total_size body_of answer collect piece with_offsets from_first to_last
  stream_file mime_type [] range_header table = (ok (failure 404 "File has no chunks"), table)
  stream_file mime_type (c ∷ cs) none table =
      answer (whole mime_type) (body_of 0 (total_size (c ∷ cs) - 1) (c ∷ cs) table)
  stream_file mime_type (c ∷ cs) (some header) table = elim (match_range header) [
    | none ↦ (ok (unsatisfiable none), table)
    | some (start, to) ↦
        let total = total_size (c ∷ cs) in
        let end = min (requested to total) (total - 1) in
        if leb total start || ltb end start
        then (ok (unsatisfiable (some total)), table)
        else answer (partial mime_type start end total) (body_of start end (c ∷ cs) table)
  ]
