-- ===== src/Storage/ServerCrypto/RoundTrip.antt =====
-- apps/api/src/storage/server-crypto.ts: what is encrypted decrypts to itself, and its size is
-- known from the size of the ciphertext.
use ddrive.Prelude.{
  ◌+◌, ◌-◌, ◌≤◌, ◌≡◌, ap, ◌∙◌, inl, inr, ◌++◌, subst, String, length, take, drop, some, arith,
  length-append, le→ltb,
}
use ddrive.Prelude.Slices.{
  slice, take-append_left, take_all, drop-append_right, slice-append_right, slice-append_left,
}
use ddrive.Processing.Chunker.{Bytes}
use ddrive.Storage.Rows.{ok, Result-cases}
use ddrive.Storage.ServerCrypto.{
  Gcm, GcmLaws, get_key, encrypt_server_side, decrypt_server_side, open_sealed, plaintext_size_for,
  iv_length, tag_length,
}

-- The three parts of `iv ++ (body ++ tag)`, by the offsets that `decryptServerSide` uses.
module _ (iv body tag : Bytes) (iv12 : length iv ≡ 12) (tag16 : length tag ≡ 16) where
  sealed_length : length (iv ++ (body ++ tag)) ≡ 28 + length body
  sealed_length = omega (arith, length-append iv (body ++ tag), length-append body tag)

  sealed_iv : take iv_length (iv ++ (body ++ tag)) ≡ iv
  sealed_iv = take-append_left 12 iv (body ++ tag) (omega arith) ∙ take_all 12 iv (omega arith)

  sealed_tag : drop (length (iv ++ (body ++ tag)) - tag_length) (iv ++ (body ++ tag)) ≡ tag
  sealed_tag =
      drop-append_right _ iv (body ++ tag) (omega (arith, sealed_length))
      ∙ drop-append_right _ body tag (omega (arith, sealed_length))
      ∙ ap (λ n. drop n tag) end
    where
      end : length (iv ++ (body ++ tag)) - 16 - length iv - length body ≡ 0
      end = omega (arith, sealed_length)

  sealed_body :
      slice iv_length (length (iv ++ (body ++ tag)) - tag_length) (iv ++ (body ++ tag)) ≡ body
  sealed_body =
      slice-append_right 12 (length (iv ++ (body ++ tag)) - 16) iv (body ++ tag) (omega arith)
      ∙ slice-append_left (12 - length iv) _ body tag (omega (arith, sealed_length))
      ∙ ap (λ n. slice n (length (iv ++ (body ++ tag)) - 16 - length iv) body) start
      ∙ take_all _ body (omega (arith, sealed_length))
    where
      start : 12 - length iv ≡ 0
      start = omega arith

module _ (g : Gcm) (laws : GcmLaws g) where
  -- For a 12-byte IV, whatever the key setting: what `encryptServerSide` returns is 28 bytes longer
  -- than the plaintext, `plaintextSizeFor` gives the plaintext's size back, and
  -- `decryptServerSide` gives back the plaintext.
  pub decrypt-encrypt_server_side :
      (raw : String) (iv plaintext sealed : Bytes)
      → length iv ≡ 12
      → encrypt_server_side g raw iv plaintext ≡ ok sealed
      → (decrypt_server_side g raw sealed ≡ ok plaintext)
        × (length sealed ≡ length plaintext + 28)
        × (plaintext_size_for (length sealed) ≡ length plaintext)
  unfolding encrypt_server_side decrypt_server_side plaintext_size_for
  decrypt-encrypt_server_side raw iv plaintext sealed iv12 e = elim (Result-cases (get_key g raw)) [
    | inr (m, none_set) ↦ cc (rw (none_set, encrypt_server_side) at e)
    | inl (key, set) ↦
        let body = (g.encrypt key iv plaintext).0 in
        let tag = (g.encrypt key iv plaintext).1 in
        let tag16 = laws.length_tag key iv plaintext in
        let whole : iv ++ (body ++ tag) ≡ sealed =
          ok_injective (rw (set, encrypt_server_side) at e) in
        let size : length sealed ≡ length plaintext + 28 = omega (
          arith,
          ap length whole,
          sealed_length iv body tag iv12 tag16,
          laws.length_ciphertext key iv plaintext,
        ) in
        (
          subst (λ b. decrypt_server_side g raw b ≡ ok plaintext) whole
              (opened key set (iv ++ (body ++ tag)) iv tag body plaintext
                (sealed_iv iv body tag iv12 tag16) (sealed_tag iv body tag iv12 tag16)
                (sealed_body iv body tag iv12 tag16) (omega (arith, ap length whole))
                (laws.decrypt-encrypt key iv plaintext)),
          size,
          omega arith,
        )
  ]
    where
      ok_injective : {a b : Bytes} → ok a ≡ ok b → a ≡ b
      ok_injective h = cc

      opened :
          (key : Bytes)
          → get_key g raw ≡ ok key
          → (buf iv tag body plaintext : Bytes) → take iv_length buf ≡ iv
          → drop (length buf - tag_length) buf ≡ tag
          → slice iv_length (length buf - tag_length) buf ≡ body
          → 28 ≤ length buf
          → g.decrypt key iv tag body ≡ some plaintext
          → decrypt_server_side g raw buf ≡ ok plaintext
      opened key set buf iv tag body plaintext a b c long d =
          rw (le→ltb _ _ long, decrypt_server_side, set, open_sealed, a, b, c, d)
