-- ===== src/Handlers/Stream/Window.antt =====
-- apps/api/src/handlers/stream.ts: the chunks that a range covers, cut and joined, are the range of
-- the whole file.
use ddrive.Prelude.{
  ℕ, ◌+◌, ◌-◌, ◌≤◌, ◌<◌, min, ◌≡◌, refl, sym, ap, ap₂, take, ◌∙◌, inl, inr, List, [], ◌∷◌, ◌++◌,
  String, arith, length, All, ltb, Bool-cases, ltb→lt, ltb→le, append-nil, length-append,
}
use ddrive.Prelude.Slices.{
  slice, take-nil, drop-nil, slice-append_left, slice-append_right, slice-append_split, slice_empty,
}
use ddrive.Processing.Chunker.{Bytes}
use ddrive.Storage.Rows.{Placement, ok}
use ddrive.Storage.ServerCrypto.{Gcm}
use ddrive.Handlers.Reading.{PoolGet}
use ddrive.Handlers.Stream.{
  ChunkMeta, total_size, with_offsets, from_first, to_last, load, piece, collect, body_of,
}

-- The plaintext of the chunks, joined.
pub content : (ChunkMeta → Bytes) → List ChunkMeta → Bytes
content plain [] = []
content plain (c ∷ cs) = plain c ++ content plain cs

module _ (get : PoolGet) (now : ℕ) (g : Gcm) (key : String) (plain : ChunkMeta → Bytes) where
  -- The chunk can be read and decrypts to `plain c`, which is as long as its row says.
  abbrev pub Delivers : ChunkMeta → Type 0
  Delivers c =
      ((table : List Placement) → (load get now g key c table).0 ≡ ok (plain c))
      × (length (plain c) ≡ c.plaintext_size_bytes)

  pub length-content :
      (cs : List ChunkMeta) → All Delivers cs → length (content plain cs) ≡ total_size cs
  unfolding content total_size
  length-content [] d = refl
  length-content (c ∷ cs) (d, ds) =
      omega (arith, length-append (plain c) (content plain cs), length-content cs ds, d.1)

  piece-slice :
      (start end offset size : ℕ) (p : Bytes)
      → piece get now g key start end offset size p
        ≡ slice (start - offset) (min size (end + 1 - offset)) p
  unfolding piece
  piece-slice start end offset size p =
      elim (Bool-cases (ltb (start - offset) (min size (end + 1 - offset)))) [
        | inl e ↦ rw (e, piece)
        | inr e ↦ rw (e, piece) (sym (slice_empty _ _ p (ltb→le _ _ e)))
      ]

  -- One chunk in front of the rest.
  collect-cons :
      (start end offset : ℕ) (c : ChunkMeta) (more : List (ℕ × ChunkMeta)) (rest : Bytes)
      → Delivers c
      → ((table : List Placement) → (collect get now g key start end more table).0 ≡ ok rest)
      → (table : List Placement)
      → (collect get now g key start end ((offset, c) ∷ more) table).0
        ≡ ok (piece get now g key start end offset c.plaintext_size_bytes (plain c) ++ rest)
  unfolding collect
  collect-cons start end offset c more rest (loads, _) ih table =
      rw (loads table, ih (load get now g key c table).1, collect)

  collect-slice :
      (start end offset : ℕ) (cs : List ChunkMeta)
      → All Delivers cs
      → offset ≤ end
      → (table : List Placement)
      → (collect get now g key start end (to_last end (with_offsets offset cs)) table).0
        ≡ ok (slice (start - offset) (end + 1 - offset) (content plain cs))
  unfolding content to_last with_offsets collect
  collect-slice start end offset [] d o table =
      ap ok (sym (slice-nil (start - offset) (end + 1 - offset)))
    where
      slice-nil : (a b : ℕ) → slice {A = ℕ} a b [] ≡ []
      slice-nil a b = ap (take (b - a)) (drop-nil a) ∙ take-nil (b - a)
  collect-slice start end offset (c ∷ cs) (d, ds) o table =
      elim (Bool-cases (ltb end (offset + c.plaintext_size_bytes))) [
        | inl stop ↦
            let lt = ltb→lt _ _ stop in
            let size = d.1 in
            let stops : min c.plaintext_size_bytes (end + 1 - offset) ≡ end + 1 - offset =
              omega arith in
            rw (stop, to_last)
              (collect-cons start end offset c [] [] d (λ t. refl) table
                ∙ ap ok (
                    append-nil _
                    ∙ piece-slice start end offset c.plaintext_size_bytes (plain c)
                    ∙ ap (λ n. slice (start - offset) n (plain c)) stops
                    ∙ sym (
                        slice-append_left (start - offset) (end + 1 - offset) (plain c)
                          (content plain cs) (omega arith))))
        | inr go_on ↦
            let le = ltb→le _ _ go_on in
            let size = d.1 in
            let stops : min c.plaintext_size_bytes (end + 1 - offset) ≡ length (plain c) =
              omega arith in
            let next = offset + c.plaintext_size_bytes in
            rw (go_on, to_last)
              (collect-cons start end offset c _
                  (slice (start - next) (end + 1 - next) (content plain cs)) d
                  (λ t. collect-slice start end next cs ds le t) table
                ∙ ap ok (
                    ap₂ ◌++◌
                      (piece-slice start end offset c.plaintext_size_bytes (plain c)
                        ∙ ap (λ n. slice (start - offset) n (plain c)) stops)
                      (ap₂ (λ a b. slice a b (content plain cs)) (sub_sub start)
                        (sub_sub (end + 1)))
                    ∙ sym (
                        slice-append_split (start - offset) (end + 1 - offset) (plain c)
                          (content plain cs) (omega arith))))
      ]
    where
      sub_sub : (n : ℕ) → n - (offset + c.plaintext_size_bytes) ≡ n - offset - length (plain c)
      sub_sub n = omega (arith, d.1)

  from_first-slice :
      (start end offset : ℕ) (cs : List ChunkMeta)
      → All Delivers cs
      → offset ≤ start
      → start < offset + total_size cs
      → start ≤ end
      → (first : ℕ × ChunkMeta) × (more : List (ℕ × ChunkMeta)) × (from_first start
            (with_offsets offset cs)
          ≡ first ∷ more)
        × ((table : List Placement)
            → (collect get now g key start end (to_last end (first ∷ more)) table).0
              ≡ ok (slice (start - offset) (end + 1 - offset) (content plain cs)))
  unfolding content with_offsets from_first total_size
  from_first-slice start end offset [] d o h k = absurd (omega arith)
  from_first-slice start end offset (c ∷ cs) (d, ds) o h k =
      elim (Bool-cases (ltb start (offset + c.plaintext_size_bytes))) [
        | inl here ↦ (
          (offset, c),
          with_offsets (offset + c.plaintext_size_bytes) cs,
          rw (here, from_first),
          λ t.
              unfold with_offsets in
              collect-slice start end offset (c ∷ cs) (d, ds) (omega arith) t,
        )
        | inr later ↦
            let le = ltb→le _ _ later in
            let next = offset + c.plaintext_size_bytes in
            let (first, more, found, bytes) =
              from_first-slice start end next cs ds le (omega arith) k in
            (
              first,
              more,
              rw (later, from_first) found,
              λ t.
                  bytes t
                  ∙ ap ok (
                      ap₂ (λ a b. slice a b (content plain cs)) (sub_sub start) (sub_sub (end + 1))
                      ∙ sym (
                          slice-append_right (start - offset) (end + 1 - offset) (plain c)
                            (content plain cs) (omega (arith, d.1)))),
            )
      ]
    where
      sub_sub : (n : ℕ) → n - (offset + c.plaintext_size_bytes) ≡ n - offset - length (plain c)
      sub_sub n = omega (arith, d.1)

  -- The joined pieces of a range inside the file are the bytes `start .. end` of the file.
  pub body_of-slice :
      (start end : ℕ) (cs : List ChunkMeta) (table : List Placement)
      → All Delivers cs
      → start ≤ end
      → end < total_size cs
      → (body_of get now g key start end cs table).0 ≡ ok (slice start (end + 1) (content plain cs))
  unfolding body_of
  body_of-slice start end cs table d k h =
      let (first, more, found, bytes) =
        from_first-slice start end 0 cs d (omega arith) (omega arith) k in
      rw (found, body_of)
        (bytes table ∙ ap₂ (λ a b. ok (slice a b (content plain cs))) (omega arith) (omega arith))
