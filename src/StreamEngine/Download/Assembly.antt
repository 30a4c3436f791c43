-- ===== src/StreamEngine/Download/Assembly.antt =====
-- packages/stream-engine/src/download.ts: the bytes that `getByteRange` puts together are the range of
-- the file.
use ddrive.Prelude.{
  ℕ, zero, suc, ◌+◌, ◌-◌, ◌*◌, ◌≤◌, ◌<◌, min, max, ◌≡◌, ◌⊎◌, refl, sym, ap, ap₂, ◌∙◌, inl, inr,
  true, false, List, [], ◌∷◌, ◌++◌, Option, some, String, arith, ltb, leb, length, take, drop,
  replicate, length-append, length-replicate, append_assoc, append-nil, le→ltb, le→leb,
}
use ddrive.Prelude.Slices.{
  slice, slice_empty, take-take, drop-drop, take-nil, slice-append, length-slice, take-append_left,
  drop-append_right, take_all,
}
use ddrive.Processing.Chunker.{Bytes, set_at}
use ddrive.Storage.Rows.{Result, ok, err}
use ddrive.StreamEngine.Download.{
  StreamConfig, Engine, ChunkSource, Event, get_decrypted_chunk, assemble,
}

drop-take {ℓ} : {A : Type ℓ} (a n : ℕ) (xs : List A) → drop a (take n xs) ≡ take (n - a) (drop a xs)
drop-take zero n xs = ap (λ k. take k xs) (sub_zero n)
  where
    sub_zero : (n : ℕ) → n ≡ n - 0
    sub_zero n = omega arith
drop-take (suc a) zero xs = ap (λ k. take k (drop (suc a) xs)) (zero_sub a)
  where
    zero_sub : (a : ℕ) → 0 ≡ 0 - suc a
    zero_sub a = omega arith
drop-take (suc a) (suc n) [] = sym (take-nil (suc n - suc a))
drop-take (suc a) (suc n) (x ∷ xs) = drop-take a n xs ∙ ap (λ k. take k (drop a xs)) (sub_suc n a)
  where
    sub_suc : (n a : ℕ) → n - a ≡ suc n - suc a
    sub_suc n a = omega arith

-- A range of a range.
slice-slice :
    (a b c d : ℕ) (xs : Bytes) → b ≤ d - c → slice a b (slice c d xs) ≡ slice (c + a) (c + b) xs
slice-slice a b c d xs h =
    ap (take (b - a)) (drop-take a (d - c) (drop c xs))
    ∙ take-take (b - a) (d - c - a) (drop a (drop c xs))
    ∙ ap₂ take (omega arith) (drop-drop a c xs)

drop-replicate {ℓ} : {A : Type ℓ} (a n : ℕ) (x : A) → drop a (replicate (a + n) x) ≡ replicate n x
drop-replicate zero n x = ap (λ k. replicate k x) (zero_add n)
  where
    zero_add : (n : ℕ) → 0 + n ≡ n
    zero_add n = omega arith
drop-replicate (suc a) n x =
    ap (λ k. drop (suc a) (replicate k x)) (suc_add a n) ∙ drop-replicate a n x
  where
    suc_add : (a n : ℕ) → suc a + n ≡ suc (a + n)
    suc_add a n = omega arith

-- The next bytes go where the zeros begin.
set_at-zeros :
    (xs piece : Bytes) (n at room : ℕ)
    → at ≡ length xs
    → room ≡ length piece + n
    → set_at (xs ++ replicate room 0) piece at ≡ some ((xs ++ piece) ++ replicate n 0)
unfolding set_at
set_at-zeros xs piece n at room e r =
    rw (fits, set_at)
      (ap some
        (ap₂ ◌++◌ front (ap (λ l. piece ++ l) back) ∙ sym (append_assoc xs piece (replicate n 0))))
  where
    size : length (xs ++ replicate {A = ℕ} room 0) ≡ length xs + room
    size =
        omega (arith, length-append xs (replicate {A = ℕ} room 0), length-replicate {A = ℕ} room 0)

    fits : leb (at + length piece) (length (xs ++ replicate {A = ℕ} room 0)) ≡ true
    fits = le→leb _ _ (omega (arith, size))

    front : take at (xs ++ replicate {A = ℕ} room 0) ≡ xs
    front =
        take-append_left at xs (replicate {A = ℕ} room 0) (omega arith)
        ∙ take_all at xs (omega arith)

    back : drop (at + length piece) (xs ++ replicate {A = ℕ} room 0) ≡ replicate n 0
    back =
        drop-append_right (at + length piece) xs (replicate {A = ℕ} room 0) (omega arith)
        ∙ ap₂ (λ a k. drop a (replicate {A = ℕ} k 0)) (omega arith) r
        ∙ drop-replicate (length piece) n 0

pub Result-cases {ℓ} :
    {A : Type ℓ} (r : Result A) → ((a : A) × (r ≡ ok a)) ⊎ ((e : String) × (r ≡ err e))
Result-cases (ok a) = inl (a, refl)
Result-cases (err e) = inr (e, refl)

-- One chunk's part of a range.
piece-slice :
    (base cs pos end stop : ℕ) (plain : Bytes)
    → base ≤ pos
    → base ≤ end
    → end < length plain
    → stop ≡ min (end + 1) (base + length (slice base (base + cs) plain)) - base
    → (base + stop ≡ min (end + 1) (base + cs))
      × (slice (pos - base) stop (slice base (base + cs) plain) ≡ slice pos (base + stop) plain)
piece-slice base cs pos end stop plain h below inside is =
    let size = length-slice base (base + cs) plain in
    (
      omega arith,
      slice-slice (pos - base) stop base (base + cs) plain (omega arith)
          ∙ ap (λ k. slice k (base + stop) plain) (omega arith),
    )

-- The part of a file that is in chunk `ci`.
abbrev pub chunk_of : StreamConfig → Bytes → ℕ → Bytes
chunk_of stream plain ci =
    slice (ci * stream.chunk_size) (ci * stream.chunk_size + stream.chunk_size) plain

-- What has been put together when `pos` is the next byte wanted.
abbrev pub so_far : Bytes → ℕ → ℕ → ℕ → Bytes
so_far plain start end pos = slice start pos plain ++ replicate (end + 1 - pos) 0

module _ (subtle_decrypt : String → Bytes → Bytes → Option Bytes) (file : String)
    (stream : StreamConfig) (plain : Bytes) where
  module _ (source : ChunkSource) (meanwhile : ℕ → List Event) (start end : ℕ)
      (ordered : start ≤ end) (inside : end < length plain) where
    -- One round of the loop.
    pub assemble-step :
        (ci left pos : ℕ) (e : Engine)
        → pos ≡ max start (ci * stream.chunk_size)
        → start < ci * stream.chunk_size + stream.chunk_size
        → ci * stream.chunk_size ≤ end
        → (get_decrypted_chunk subtle_decrypt e file ci source (meanwhile ci)).1
          ≡ ok (chunk_of stream plain ci)
        → let next = min (end + 1) (ci * stream.chunk_size + stream.chunk_size) in
          assemble subtle_decrypt file stream.chunk_size start end source meanwhile ci
            (suc left)
            (so_far plain start end pos)
            (pos - start)
            e
          ≡ assemble subtle_decrypt file stream.chunk_size start end source meanwhile
              (ci + 1)
              left
              (so_far plain start end next)
              (next - start)
              (get_decrypted_chunk subtle_decrypt e file ci source (meanwhile ci)).0
    unfolding assemble
    assemble-step ci left pos e at_pos early late is =
        let cs = stream.chunk_size in
        let base = ci * cs in
        let first = max start base - base in
        let stop = min (end + 1) (base + length (chunk_of stream plain ci)) - base in
        let next = min (end + 1) (base + cs) in
        let (reach, part) = piece-slice base cs pos end stop plain (omega arith) late inside refl in
        let from : first ≡ pos - base = omega arith in
        let order : ltb stop first ≡ false = le→ltb stop first (omega (arith, reach)) in
        let put : set_at (so_far plain start end pos) (slice first stop (chunk_of stream plain ci))
              (pos - start)
            ≡ some (so_far plain start end next) =
          ap (λ p. set_at (so_far plain start end pos) p (pos - start))
            (ap (λ f. slice f stop (chunk_of stream plain ci)) from
              ∙ part
              ∙ ap (λ k. slice pos k plain) reach)
          ∙ set_at-zeros (slice start pos plain) (slice pos next plain) (end + 1 - next)
              (pos - start) (end + 1 - pos) (omega (arith, length-slice start pos plain))
              (omega (arith, length-slice pos next plain))
          ∙ ap (λ l. some (l ++ replicate {A = ℕ} (end + 1 - next) 0))
              (slice-append start pos next plain (omega arith) (omega arith)) in
        let moved : pos - start + (stop - first) ≡ next - start = omega (arith, reach) in
        rw (is, order, put, moved, assemble)

    -- A range inside one chunk.
    pub one_chunk :
        (ci : ℕ) (b : Bytes)
        → b ≡ chunk_of stream plain ci
        → ci * stream.chunk_size ≤ start
        → end < ci * stream.chunk_size + stream.chunk_size
        → let offset = start - ci * stream.chunk_size in
          slice offset (offset + (end + 1 - start)) b ≡ slice start (end + 1) plain
    one_chunk ci b is h k =
        let offset = start - ci * stream.chunk_size in
        ap (slice offset (offset + (end + 1 - start))) is
        ∙ slice-slice offset (offset + (end + 1 - start)) (ci * stream.chunk_size)
            (ci * stream.chunk_size + stream.chunk_size) plain (omega arith)
        ∙ ap₂ (λ a b. slice a b plain) (omega arith) (omega arith)

    -- The loop as `getByteRange` starts it, with `more` chunks behind the first.
    pub assemble-begin :
        (ci last more : ℕ) (e : Engine)
        → last ≡ ci + more
        → assemble subtle_decrypt file stream.chunk_size start end source meanwhile ci
            (last + 1 - ci)
            (replicate (end + 1 - start) 0)
            0
            e
          ≡ assemble subtle_decrypt file stream.chunk_size start end source meanwhile ci
              (suc more)
              (so_far plain start end start)
              (start - start)
              e
    assemble-begin ci last more e is =
        let run_from : ℕ → Bytes → ℕ → Engine × Result Bytes = λ left result written.
          assemble subtle_decrypt file stream.chunk_size start end source meanwhile ci left result
            written e in
        let rounds : last + 1 - ci ≡ suc more = omega arith in
        ap (λ n. run_from n (replicate (end + 1 - start) 0) 0) rounds
        ∙ ap₂ (run_from (suc more))
            (ap (λ l. l ++ replicate {A = ℕ} (end + 1 - start) 0)
              (sym (slice_empty start start plain (omega arith))))
            (omega arith)

    -- The buffer when the loop has ended.
    pub so_far-end :
        (next : ℕ) → next ≡ end + 1 → so_far plain start end next ≡ slice start (end + 1) plain
    so_far-end next last =
        ap (so_far plain start end) last
        ∙ ap (λ k. slice start (end + 1) plain ++ replicate {A = ℕ} k 0) (no_rest end)
        ∙ append-nil (slice start (end + 1) plain)
      where
        no_rest : (n : ℕ) → n + 1 - (n + 1) ≡ 0
        no_rest n = omega arith
