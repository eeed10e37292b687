-- ===== src/Pack/Aead/Framed.antt =====
-- Decrypting what was encrypted (packages/format/src/aead.ts).
use knowtion.Base.{
  ℕ, zero, suc, ◌+◌, ◌-◌, ◌*◌, ◌/◌, ◌≤◌, ◌<◌, ◌≡◌, refl, ap, sym, ◌∙◌, Bool, true, false, [], ◌++◌,
  length, take, drop, max, ltb, leb, ◌==◌, nat_eq, ok, arith, length-append, length-take,
  length-drop, take-append, drop-append, take-append-drop, append_assoc, le→leb, le→ltb-false,
  ok-injective,
}
use knowtion.Pack.Bytes.{Bytes}
use knowtion.Pack.Envelope.RoundTrip.{take-all}
use knowtion.Pack.Aead.{
  Cipher, IsCipher, PackBinding, require_bytes, aad_of, chunk_aad, encrypt_chunks, encrypt_payload,
  open_chunk, decrypt_chunks, decrypt_payload, content_chunk_size, framed_chunk_size,
}

take-front : (n : ℕ) (xs ys : Bytes) → length xs ≡ n → take n (xs ++ ys) ≡ xs
take-front n xs ys h = ap (λ k. take k (xs ++ ys)) (sym h) ∙ take-append xs ys

drop-front : (n : ℕ) (xs ys : Bytes) → length xs ≡ n → drop n (xs ++ ys) ≡ ys
drop-front n xs ys h = ap (λ k. drop k (xs ++ ys)) (sym h) ∙ drop-append xs ys

lt→leb-false : (a b : ℕ) → b < a → leb a b ≡ false
lt→leb-false a b h = ground arith

module _ (c : Cipher) (lawful : IsCipher c) (key : Bytes) (binding : PackBinding)
    (nonces : ℕ → Bytes) (nonce_width : (i : ℕ) → length (nonces i) ≡ 24)
    (workspace_width : length binding.workspace_id ≡ 16)
    (device_width : length binding.device_id ≡ 16) where
  chunk_aad-ok :
      (index : ℕ) (is_final : Bool)
      → chunk_aad binding index is_final ≡ ok (aad_of binding index is_final)
  unfolding chunk_aad require_bytes
  chunk_aad-ok index is_final = rw (workspace_width, device_width) refl

  abbrev framed : ℕ → Bool → Bytes → Bytes
  framed index is_final text =
      nonces index ++ c.encrypt key (nonces index) (aad_of binding index is_final) text

  length-framed :
      (index : ℕ) (is_final : Bool) (text : Bytes)
      → length (framed index is_final text) ≡ length text + 40
  length-framed index is_final text = omega (
    arith,
    length-append (nonces index)
        (c.encrypt key (nonces index) (aad_of binding index is_final) text),
    nonce_width index,
    lawful.length-encrypt key (nonces index) (aad_of binding index is_final) text,
  )

  open_chunk-framed :
      (index : ℕ) (is_final : Bool) (size : ℕ) (text rest : Bytes)
      → size ≡ length text + 40
      → open_chunk c key binding index is_final size (framed index is_final text ++ rest) ≡ ok text
  unfolding open_chunk
  open_chunk-framed index is_final size text rest h =
      let nonce = nonces index in
      let sealed = c.encrypt key nonce (aad_of binding index is_final) text in
      let sealed_width = lawful.length-encrypt key nonce (aad_of binding index is_final) text in
      let bytes = append_assoc nonce sealed rest in
      rw
        (
          le→ltb-false size 40 (omega arith),
          chunk_aad-ok index is_final,
          bytes,
          take-front 24 nonce (sealed ++ rest) (nonce_width index),
          drop-front 24 nonce (sealed ++ rest) (nonce_width index),
          take-front (size - 24) sealed rest (omega (arith, sealed_width)),
          lawful.decrypt-encrypt key nonce (aad_of binding index is_final) text,
        )
        refl

  -- The chunks of a text.
  unfoldable stream : ℕ → ℕ → Bytes → Bytes
  stream zero index text = []
  stream (suc n) index text =
      framed index (n == 0) (take content_chunk_size text)
      ++ stream n (suc index) (drop content_chunk_size text)

  encrypt_chunks-stream :
      (n index : ℕ) (text : Bytes)
      → encrypt_chunks c key binding nonces n index text ≡ ok (stream n index text)
  unfolding encrypt_chunks stream
  encrypt_chunks-stream zero index text = refl
  encrypt_chunks-stream (suc n) index text =
      rw
        (
          chunk_aad-ok index (n == 0),
          encrypt_chunks-stream n (suc index) (drop content_chunk_size text),
        )
        refl

  length-stream : (n index : ℕ) (text : Bytes) → 40 ≤ length (stream (suc n) index text)
  unfolding stream
  length-stream n index text = omega (
    arith,
    length-append (framed index (n == 0) (take content_chunk_size text))
        (stream n (suc index) (drop content_chunk_size text)),
    length-framed index (n == 0) (take content_chunk_size text),
  )

  decrypt_chunks-final :
      (fuel index : ℕ) (bytes : Bytes)
      → leb (length bytes) framed_chunk_size ≡ true
      → decrypt_chunks c key binding (suc fuel) index bytes
        ≡ open_chunk c key binding index true (length bytes) bytes
  unfolding decrypt_chunks
  decrypt_chunks-final fuel index bytes h = rw (decrypt_chunks, h) refl

  decrypt_chunks-more :
      (fuel index : ℕ) (bytes opened rest : Bytes)
      → leb (length bytes) framed_chunk_size ≡ false
      → open_chunk c key binding index false framed_chunk_size bytes ≡ ok opened
      → decrypt_chunks c key binding fuel (suc index) (drop framed_chunk_size bytes) ≡ ok rest
      → decrypt_chunks c key binding (suc fuel) index bytes ≡ ok (opened ++ rest)
  unfolding decrypt_chunks
  decrypt_chunks-more fuel index bytes opened rest h o k = rw (decrypt_chunks, h, o, k) refl

  decrypt_chunks-last :
      (fuel index : ℕ) (text : Bytes)
      → length text ≤ 262144
      → decrypt_chunks c key binding (suc fuel) index (framed index true text ++ []) ≡ ok text
  decrypt_chunks-last fuel index text h =
      let whole = framed index true text ++ [] in
      let size : length whole ≡ length text + 40 =
        omega (arith, length-append (framed index true text) [], length-framed index true text) in
      decrypt_chunks-final fuel index whole (le→leb _ _ (omega (arith, size)))
      ∙ open_chunk-framed index true (length whole) text [] size

  decrypt_chunks-stream :
      (n index fuel : ℕ) (text : Bytes)
      → length text ≤ suc n * 262144
      → n * 262144 < length text + 1
      → n < fuel
      → decrypt_chunks c key binding fuel index (stream (suc n) index text) ≡ ok text
  unfolding stream
  decrypt_chunks-stream n index zero text h low k = absurd (omega arith)
  decrypt_chunks-stream zero index (suc fuel) text h low k =
      rw (take-all content_chunk_size text (omega arith))
        (decrypt_chunks-last fuel index text (omega arith))
  decrypt_chunks-stream (suc n) index (suc fuel) text h low k =
      let chunk = take content_chunk_size text in
      let left = drop content_chunk_size text in
      let rest = stream (suc n) (suc index) left in
      let head = framed index false chunk in
      let not_last : suc n == 0 ≡ false = ground arith in
      let chunk_size : length chunk ≡ 262144 = omega (arith, length-take content_chunk_size text) in
      let head_size : length head ≡ 262184 = omega (arith, length-framed index false chunk) in
      let long : leb (length (head ++ rest)) framed_chunk_size ≡ false =
        lt→leb-false _ _
          (omega (arith, length-append head rest, length-stream n (suc index) left)) in
      rw not_last (
        decrypt_chunks-more fuel index (head ++ rest) chunk left long
          (open_chunk-framed index false framed_chunk_size chunk rest (omega arith))
          (rw (drop-front framed_chunk_size head rest head_size) (
            decrypt_chunks-stream n (suc index) fuel left
              (omega (arith, length-drop content_chunk_size text))
              (omega (arith, length-drop content_chunk_size text)) (omega arith)))
        ∙ ap ok (take-append-drop content_chunk_size text))

  stream-long : (n index : ℕ) (text : Bytes) → n ≤ length (stream n index text)
  unfolding stream
  stream-long zero index text = omega arith
  stream-long (suc n) index text = omega (
    arith,
    length-append (framed index (n == 0) (take content_chunk_size text))
        (stream n (suc index) (drop content_chunk_size text)),
    length-framed index (n == 0) (take content_chunk_size text),
    stream-long n (suc index) (drop content_chunk_size text),
  )

  abbrev last_of : Bytes → ℕ
  last_of text = max 1 ((length text + 262143) / 262144) - 1

  module _ (key_width : length key ≡ 32) where
    encrypt_payload-stream :
        (text : Bytes)
        → encrypt_payload c key binding nonces text ≡ ok (stream (suc (last_of text)) 0 text)
    unfolding encrypt_payload require_bytes
    encrypt_payload-stream text =
        let count : max 1 ((length text + 262143) / content_chunk_size) ≡ suc (last_of text) =
          omega arith in
        rw key_width (
          ap (λ n. encrypt_chunks c key binding nonces n 0 text) count
          ∙ encrypt_chunks-stream (suc (last_of text)) 0 text)

    -- An encrypted payload of any length, the empty one included, is decrypted to what it was.
    pub decrypt_payload-encrypt_payload :
        (text bytes : Bytes)
        → encrypt_payload c key binding nonces text ≡ ok bytes
        → decrypt_payload c key binding bytes ≡ ok text
    unfolding decrypt_payload require_bytes
    decrypt_payload-encrypt_payload text bytes h =
        let n = last_of text in
        let written : stream (suc n) 0 text ≡ bytes =
          ok-injective _ _ (sym (encrypt_payload-stream text) ∙ h) in
        let framed_enough : ltb (length (stream (suc n) 0 text)) 40 ≡ false =
          le→ltb-false _ _ (length-stream n 0 text) in
        rw (← written, key_width, framed_enough)
          (decrypt_chunks-stream n 0 (suc (length (stream (suc n) 0 text))) text (omega arith)
            (omega arith) (omega (arith, stream-long (suc n) 0 text)))
