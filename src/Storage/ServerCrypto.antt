-- ===== src/Storage/ServerCrypto.antt =====
-- apps/api/src/storage/server-crypto.ts: encryption at rest. AES-256-GCM and base64 are the
-- platform's: they are parameters, with what the code relies on as named laws.
pub mod RoundTrip
use ddrive.Prelude.{
  ℕ, ◌+◌, ◌-◌, ◌≡◌, List, ◌++◌, String, length, take, drop, ltb, ◌==◌, str_eq, if◌then◌else◌, true,
  false, Option, none, some,
}
use ddrive.Prelude.Slices.{slice}
use ddrive.Processing.Chunker.{Bytes}
use ddrive.Storage.Rows.{Result, ok, err}

-- `node:crypto` with AES-256-GCM, and `Buffer.from(raw, "base64")`.
pub record Gcm : Type 0 where
  pub from_base64 : String → Bytes
  -- key, IV, plaintext: the ciphertext and the authentication tag.
  pub encrypt : Bytes → Bytes → Bytes → Bytes × Bytes
  -- key, IV, tag, ciphertext: the plaintext, unless `final` rejects the tag.
  pub decrypt : Bytes → Bytes → Bytes → Bytes → Option Bytes

-- What the documentation of the platform says of them.
pub record GcmLaws (g : Gcm) : Type 0 where
  pub length_ciphertext : (key iv p : Bytes) → length (g.encrypt key iv p).0 ≡ length p
  pub length_tag : (key iv p : Bytes) → length (g.encrypt key iv p).1 ≡ 16
  pub decrypt-encrypt :
      (key iv p : Bytes) → g.decrypt key iv (g.encrypt key iv p).1 (g.encrypt key iv p).0 ≡ some p

abbrev pub iv_length : ℕ
iv_length = 12

abbrev pub tag_length : ℕ
tag_length = 16

-- `CHUNK_CRYPTO_OVERHEAD_BYTES`.
abbrev pub chunk_crypto_overhead_bytes : ℕ
chunk_crypto_overhead_bytes = iv_length + tag_length

module _ (g : Gcm) where
  -- `getKey`, of the configured `CHUNK_ENCRYPTION_KEY`. The cache only saves the decoding.
  unfoldable pub get_key : String → Result Bytes
  get_key raw =
      if str_eq raw ""
      then err "CHUNK_ENCRYPTION_KEY is not set"
      else if length (g.from_base64 raw) == 32
      then ok (g.from_base64 raw)
      else err "CHUNK_ENCRYPTION_KEY must decode to 32 bytes"

  -- `iv` is what `randomBytes(IV_LENGTH)` returned.
  unfoldable pub encrypt_server_side : String → Bytes → Bytes → Result Bytes
  encrypt_server_side raw iv plaintext = elim (get_key raw) [
    | err e ↦ err e
    | ok key ↦ ok (iv ++ ((g.encrypt key iv plaintext).0 ++ (g.encrypt key iv plaintext).1))
  ]

  -- The work of the cipher in `decryptServerSide`, behind its check of the length.
  open_sealed : Bytes → Bytes → Result Bytes
  open_sealed key buf =
      elim (g.decrypt key (take iv_length buf) (drop (length buf - tag_length) buf)
        (slice iv_length (length buf - tag_length) buf)) [
          | none ↦ err "Unsupported state or unable to authenticate data"
          | some plaintext ↦ ok plaintext
        ]

  unfoldable pub decrypt_server_side : String → Bytes → Result Bytes
  unfolding open_sealed
  decrypt_server_side raw buf =
      if ltb (length buf) (iv_length + tag_length)
      then err "Encrypted blob is too short to contain IV + auth tag"
      else elim (get_key raw) [ err e ↦ err e | ok key ↦ open_sealed key buf ]

-- `Math.max(0, n - IV_LENGTH - TAG_LENGTH)`: the subtraction stops at 0.
unfoldable pub plaintext_size_for : ℕ → ℕ
plaintext_size_for ciphertext_size_bytes = ciphertext_size_bytes - iv_length - tag_length
