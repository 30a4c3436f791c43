-- ===== src/StreamEngine/Download/Ranges.antt =====
-- packages/stream-engine/src/download.ts: `getByteRange` gives the bytes of the
-- range.
use native.Mathlib.Nat.{div-mul-le_self, lt-div-mul-add, le-div_iff_mul-le}
use ddrive.Prelude.{
  ℕ, zero, suc, ◌+◌, ◌-◌, ◌*◌, ◌/◌, ◌≤◌, ◌<◌, min, max, ◌≡◌, refl, sym, ap, ◌⊎◌, inl, inr, List,
  Option, String, arith, ◌==◌, length, replicate, All, subst, Bool-cases, ==_iff,
}
use ddrive.Prelude.Slices.{slice}
use ddrive.Processing.Chunker.{Bytes}
use ddrive.Storage.Rows.{Result, ok, err}
use ddrive.StreamEngine.Download.{
  StreamConfig, Engine, ChunkSource, Event, get_decrypted_chunk, assemble, schedule_prefetch,
  schedule_eviction, range_of, get_byte_range,
}
use ddrive.StreamEngine.Download.Cache.{
  IsHonest, IsHonestEvent, Coherent, get_decrypted_chunk-Coherent, prefetch_from-Coherent,
  evict-Coherent,
}
use ddrive.StreamEngine.Download.Assembly.{
  chunk_of, so_far, assemble-step, assemble-begin, so_far-end, one_chunk,
}

-- What `getByteRange` gives: the bytes of the range, or an error, if errors may be.
abbrev pub Outcome : Type 0 → Bytes → Result Bytes → Type 0
Outcome MayFail bytes r = (r ≡ ok bytes) ⊎ (((why : String) × (r ≡ err why)) × MayFail)

module _ (subtle_decrypt : String → Bytes → Bytes → Option Bytes) (file : String)
    (stream : StreamConfig) (plain : Bytes) (Good : ℕ → Result Bytes → Type 0) (MayFail : Type 0)
    (source : ChunkSource) (meanwhile : ℕ → List Event) (start end : ℕ)
    (sound : (ci : ℕ) (r : Result Bytes)
      → ci * stream.chunk_size ≤ end
      → Good ci r
      → Outcome MayFail (chunk_of stream plain ci) r)
    (honest : IsHonest subtle_decrypt file stream Good source)
    (others : (ci : ℕ) → All (IsHonestEvent subtle_decrypt file stream Good) (meanwhile ci))
    (ordered : start ≤ end) (inside : end < length plain) where
  abbrev IsGood : Engine → Type 0
  IsGood = Coherent subtle_decrypt file stream Good

  abbrev fetched : ℕ → Engine → Engine × Result Bytes
  fetched ci e = get_decrypted_chunk subtle_decrypt e file ci source (meanwhile ci)

  abbrev run_from : ℕ → ℕ → ℕ → Engine → Engine × Result Bytes
  run_from ci left pos e =
      assemble subtle_decrypt file stream.chunk_size start end source meanwhile ci left
        (so_far plain start end pos) (pos - start) e

  fetched-IsGood :
      (ci : ℕ) (e : Engine) → IsGood e → IsGood (fetched ci e).0 × Good ci (fetched ci e).1
  fetched-IsGood ci e c =
      get_decrypted_chunk-Coherent subtle_decrypt file stream Good e ci source (meanwhile ci) honest
        (others ci) c

  abbrev next_pos : ℕ → ℕ
  next_pos ci = min (end + 1) (ci * stream.chunk_size + stream.chunk_size)

  -- One round, before what the rounds behind it come to.
  assemble-round :
      (ci left pos : ℕ) (e : Engine)
      → IsGood e
      → pos ≡ max start (ci * stream.chunk_size)
      → start < ci * stream.chunk_size + stream.chunk_size
      → ci * stream.chunk_size ≤ end
      → Outcome MayFail
          (slice start (end + 1) plain)
          (run_from (ci + 1) left (next_pos ci) (fetched ci e).0).1
      → Outcome MayFail (slice start (end + 1) plain) (run_from ci (suc left) pos e).1
  unfolding assemble
  assemble-round ci left pos e c at_pos early late rest =
      elim (sound ci (fetched ci e).1 late (fetched-IsGood ci e c).1) [
        | inr ((why, is), may) ↦ inr ((why, rw (is, assemble)), may)
        | inl is ↦
            subst (λ r. Outcome MayFail (slice start (end + 1) plain) r.1)
              (sym (
                assemble-step subtle_decrypt file stream plain source meanwhile start end ordered
                  inside ci left pos e at_pos early late is))
              rest
      ]

  assemble-Outcome :
      (ci left pos : ℕ) (e : Engine)
      → IsGood e
      → pos ≡ max start (ci * stream.chunk_size)
      → start < ci * stream.chunk_size + stream.chunk_size
      → end < ci * stream.chunk_size + suc left * stream.chunk_size
      → ci * stream.chunk_size + left * stream.chunk_size ≤ end
      → Outcome MayFail (slice start (end + 1) plain) (run_from ci (suc left) pos e).1
  unfolding assemble
  assemble-Outcome ci zero pos e c at_pos early late room =
      assemble-round ci zero pos e c at_pos early (omega arith) (
        inl (
          ap ok (
            so_far-end subtle_decrypt file stream plain source meanwhile start end ordered inside
              (next_pos ci) (omega arith))))
  assemble-Outcome ci (suc left) pos e c at_pos early late room =
      assemble-round ci (suc left) pos e c at_pos early (omega arith) (
        assemble-Outcome (ci + 1) left (next_pos ci) (fetched ci e).0 (fetched-IsGood ci e c).0
          (omega arith) (omega arith) (omega arith) (omega arith))

  -- The chunks from `ci` to `last`.
  many_chunks :
      (ci last more : ℕ) (e : Engine)
      → IsGood e
      → last ≡ ci + more
      → ci * stream.chunk_size ≤ start
      → start < ci * stream.chunk_size + stream.chunk_size
      → last * stream.chunk_size ≤ end
      → end < last * stream.chunk_size + stream.chunk_size
      → Outcome MayFail
          (slice start (end + 1) plain)
          (assemble subtle_decrypt file stream.chunk_size start end source meanwhile ci
            (last + 1 - ci)
            (replicate (end + 1 - start) 0)
            0
            e).1
  many_chunks ci last more e c is h k below above =
      let product : last * stream.chunk_size ≡ (ci + more) * stream.chunk_size =
        ap (λ n. n * stream.chunk_size) is in
      subst (λ r. Outcome MayFail (slice start (end + 1) plain) r.1)
        (sym (
          assemble-begin subtle_decrypt file stream plain source meanwhile start end ordered inside
            ci last more e is))
        (assemble-Outcome ci more start e c (omega arith) k (omega (arith, product))
          (omega (arith, product)))

  -- Behind the prefetch and the eviction.
  ready :
      (e : Engine) (ci : ℕ)
      → IsGood e
      → IsGood (
          schedule_eviction subtle_decrypt
            (schedule_prefetch subtle_decrypt e file ci source)
            file
            ci)
  unfolding schedule_prefetch
  ready e ci c = evict-Coherent subtle_decrypt file stream Good _ file ci (
      rw (c.registered, schedule_prefetch)
        (prefetch_from-Coherent subtle_decrypt file stream Good e source (ci + 1) _ honest c))

  pub get_byte_range-Outcome :
      (e : Engine)
      → Coherent subtle_decrypt file stream Good e
      → 0 < stream.chunk_size
      → Outcome MayFail
          (slice start (end + 1) plain)
          (get_byte_range subtle_decrypt e file start end source meanwhile).1
  unfolding get_byte_range range_of
  get_byte_range-Outcome e c pos =
      let s = start / stream.chunk_size in
      let t = end / stream.chunk_size in
      let e' =
        schedule_eviction subtle_decrypt (schedule_prefetch subtle_decrypt e file s source) file
          s in
      let low = div-mul-le_self start stream.chunk_size in
      let high : start < s * stream.chunk_size + stream.chunk_size = lt-div-mul-add pos in
      let low_end = div-mul-le_self end stream.chunk_size in
      let high_end : end < t * stream.chunk_size + stream.chunk_size = lt-div-mul-add pos in
      let le : s ≤ t = (le-div_iff_mul-le pos).1 (omega (arith, low)) in
      elim (Bool-cases (s == t)) [
        | inl one ↦
            let same : s ≡ t = (==_iff s t).0 one in
            let product : s * stream.chunk_size ≡ t * stream.chunk_size =
              ap (λ n. n * stream.chunk_size) same in
            elim (sound s (fetched s e').1 (omega (arith, low))
              (fetched-IsGood s e' (ready e s c)).1) [
                | inr ((why, is), may) ↦
                    inr ((why, rw (c.registered, get_byte_range, one, range_of, is)), may)
                | inl is ↦ inl (
                    rw (c.registered, get_byte_range, one, range_of, is)
                      (ap ok (
                        one_chunk subtle_decrypt file stream plain source meanwhile start end
                          ordered inside s (chunk_of stream plain s) refl low
                          (omega (arith, product)))))
              ]
        | inr more ↦
            rw (c.registered, get_byte_range, more, range_of)
              (many_chunks s t (t - s) e' (ready e s c) (omega (arith, le)) low high low_end
                high_end)
      ]
