-- ===== src/Handlers/Stream/Answers.antt =====
-- apps/api/src/handlers/stream.ts: the status, the range and the body of every answer.
use ddrive.Prelude.{
  ℕ, ◌+◌, ◌-◌, ◌≤◌, ◌<◌, min, ◌≡◌, refl, sym, ap, ◌∙◌, inl, inr, ◌⊎◌, List, [], ◌∷◌, Option, none,
  some, String, arith, length, All, ltb, leb, Bool-cases, ltb→lt, ltb→le, leb→le, leb→lt, subst,
}
use ddrive.Prelude.Slices.{slice, length-slice, take_all}
use ddrive.Processing.Chunker.{Bytes}
use ddrive.Storage.Rows.{Placement, Result, ok, err}
use ddrive.Storage.ServerCrypto.{Gcm}
use ddrive.Handlers.Reading.{PoolGet}
use ddrive.Handlers.Stream.{
  ChunkMeta, total_size, match_range, Response, unsatisfiable, whole, partial, stream_file, body_of,
  answer, requested,
}
use ddrive.Handlers.Stream.Window.{content, Delivers, body_of-slice, length-content}

-- The last byte that a range asks for, in a file of `total` bytes.
abbrev pub last_byte : Option ℕ → ℕ → ℕ
last_byte none total = total - 1
last_byte (some n) total = min n (total - 1)

module _ (get : PoolGet) (now : ℕ) (g : Gcm) (key : String) (plain : ChunkMeta → Bytes) where
  answer-ok :
      (f : Bytes → Response) (r : Result Bytes × List Placement) (bytes : Bytes)
      → r.0 ≡ ok bytes
      → (answer get now g key f r).0 ≡ ok (f bytes)
  unfolding answer
  answer-ok f (ok b, t) bytes e = cc
  answer-ok f (err m, t) bytes e = cc

  answered :
      (f : Bytes → Response) (start end : ℕ) (cs : List ChunkMeta) (table : List Placement)
      → All (Delivers get now g key plain) cs
      → start ≤ end
      → end < total_size cs
      → (answer get now g key f (body_of get now g key start end cs table)).0
        ≡ ok (f (slice start (end + 1) (content plain cs)))
  answered f start end cs table d k h =
      answer-ok f (body_of get now g key start end cs table) _
        (body_of-slice get now g key plain start end cs table d k h)

  -- Without a Range header a file that is not empty is answered by 200 and its whole plaintext.
  pub stream_file-whole :
      (mime : String) (cs : List ChunkMeta) (table : List Placement)
      → All (Delivers get now g key plain) cs
      → 0 < total_size cs
      → (stream_file get now g key mime cs none table).0 ≡ ok (whole mime (content plain cs))
  unfolding stream_file
  stream_file-whole mime [] table d h = absurd (ground (arith, total_nil))
    where
      total_nil : total_size [] ≡ 0
      total_nil = unfold total_size in refl
  stream_file-whole mime (c ∷ cs) table d h =
      let size = length-content get now g key plain (c ∷ cs) d in
      answered (whole mime) 0 (total_size (c ∷ cs) - 1) (c ∷ cs) table d (omega arith) (omega arith)
      ∙ ap (λ b. ok (whole mime b)) (take_all _ (content plain (c ∷ cs)) (omega arith))

  -- With a Range header that can be read, a file with chunks is answered by 206 exactly when the
  -- range begins inside the file and not behind its end. The answer then names the range from the
  -- first byte asked for to the last one that the file has, and its body is those bytes and as
  -- many; otherwise it is 416 with the size of the file.
  pub stream_file-range :
      (mime header : String) (c : ChunkMeta) (cs : List ChunkMeta) (table : List Placement)
      (start : ℕ) (to : Option ℕ)
      → All (Delivers get now g key plain) (c ∷ cs)
      → match_range header ≡ some (start, to)
      → let total = total_size (c ∷ cs) in
        let end = last_byte to total in
        let reply = (stream_file get now g key mime (c ∷ cs) (some header) table).0 in
        ((start < total)
          × (start ≤ end)
          × (reply
              ≡ ok (partial mime start end total (slice start (end + 1) (content plain (c ∷ cs)))))
          × (length (slice start (end + 1) (content plain (c ∷ cs))) ≡ end + 1 - start))
        ⊎ (((total ≤ start) ⊎ (end < start)) × (reply ≡ ok (unsatisfiable (some total))))
  unfolding stream_file
  stream_file-range mime header c cs table start to d m = elim (Bool-cases (leb total start)) [
    | inl past ↦ inr (inl (leb→le _ _ past), rw (m, past, stream_file))
    | inr before ↦ elim (Bool-cases (ltb end start)) [
      | inl crossed ↦
          inr (inr (rw (sym same) (ltb→lt _ _ crossed)), rw (m, before, crossed, stream_file))
      | inr proper ↦
          let lt = leb→lt _ _ before in
          let le = ltb→le _ _ proper in
          let size = length-content get now g key plain (c ∷ cs) d in
          inl (
            subst
              (λ e.
                (start < total)
                × (start ≤ e)
                × ((stream_file get now g key mime (c ∷ cs) (some header) table).0
                    ≡ ok (partial mime start e total (slice start (e + 1) bytes)))
                × (length (slice start (e + 1) bytes) ≡ e + 1 - start))
              same
              (
                lt,
                le,
                rw (m, before, proper, stream_file)
                    (answered (partial mime start end total) start end (c ∷ cs) table d le
                      (omega arith)),
                omega (arith, length-slice start (end + 1) bytes),
              ))
    ]
  ]
    where
      bytes : Bytes
      bytes = content plain (c ∷ cs)

      total : ℕ
      total = total_size (c ∷ cs)

      end : ℕ
      end = min (requested to total) (total - 1)

      same : end ≡ last_byte to total
      same = of_option to
        where
          of_option : (o : Option ℕ) → min (requested o total) (total - 1) ≡ last_byte o total
          of_option none = omega arith
          of_option (some n) = refl
