-- ===== src/StreamEngine/Upload.antt =====
-- packages/stream-engine/src/upload.ts: one chunk, encrypted and uploaded with retries.
-- `crypto.subtle.encrypt` is a parameter, the random IV an argument, and the sink's promises are what
-- they settle to, attempt by attempt.
pub mod Retries
pub mod Pool
pub mod Counting
pub mod Starting
pub mod Pooling
pub mod Streaming
use ddrive.Prelude.{
  ℕ, zero, suc, ◌+◌, ◌*◌, ◌^◌, min, Bool, true, false, List, [], ◌∷◌, ◌++◌, String, leb,
  if◌then◌else◌,
}
use ddrive.Prelude.Texts.{codes, includes}
use ddrive.Processing.Chunker.{Bytes}
use ddrive.Storage.Rows.{Result, ok, err}

-- `const is429 = msg.includes("429")`.
abbrev pub is_throttled : String → Bool
is_throttled msg = includes (codes "429") (codes msg)

abbrev pub base_ms : String → ℕ
base_ms msg = if is_throttled msg then 5000 else 1000

unfoldable pub backoff_ms : String → ℕ → ℕ
backoff_ms msg attempt = min (base_ms msg * 2 ^ attempt) 60000

-- `void`.
abbrev pub Done : Type 0
Done = Unit

-- `ChunkSink.upload`, by the number of the attempt.
abbrev pub ChunkSink : Type 0
ChunkSink = ℕ → Result Done

-- The loop from `attempt` on, with `left` rounds to go: the outcome, and the pauses made.
unfoldable pub attempts_from : ChunkSink → ℕ → ℕ → ℕ → Result Done × List ℕ
attempts_from upload max_retries attempt zero = (ok tt, [])
attempts_from upload max_retries attempt (suc left) =
    let (result, pauses) = attempts_from upload max_retries (attempt + 1) left in
    elim (upload attempt) [
      | ok done ↦ (ok tt, [])
      | err msg ↦
          if leb max_retries attempt
          then (err msg, [])
          else (result, backoff_ms msg attempt ∷ pauses)
    ]

unfoldable pub upload_with_retry : ChunkSink → ℕ → Result Done × List ℕ
unfolding attempts_from
upload_with_retry upload max_retries = attempts_from upload max_retries 0 (max_retries + 1)

-- `[12B IV | ciphertext (includes 16B auth tag)]`.
unfoldable pub encrypt : (String → Bytes → Bytes → Bytes) → String → Bytes → Bytes → Bytes
encrypt subtle_encrypt fek iv chunk = iv ++ subtle_encrypt fek iv chunk
