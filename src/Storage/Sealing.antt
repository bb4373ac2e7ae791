-- ===== src/Storage/Sealing.antt =====
-- What a container that was written holds (crates/faceauth-storage/src/lib.rs). The laws of JSON and
-- of the cipher are the fields of `IsSound`.
use faceauth_rs.Prelude.{
  ℕ, ◌+◌, ◌≤◌, ◌≡◌, refl, ap, sym, ◌∙◌, some, Result, ok, ◌>>◌, Result-cases, Option-cases, inl,
  inr, List, ◌++◌, length, take, skip, take-append, skip-append, arith, length-append, nat_eq,
}
use faceauth_rs.Prelude.Float.{Float, Arithmetic}
use faceauth_rs.Storage.{StorageError, StoredPayload, validate_stored_payload, format_version}
use faceauth_rs.Storage.Files.{
  Codec, Host, magic_bytes, max_ciphertext_length, le_bytes_16, associated_data, check_header,
  parse_plaintext, open_sealed, seal,
}

abbrev framed : (nonce ciphertext : List ℕ) → List ℕ
framed nonce ciphertext = magic_bytes ++ (le_bytes_16 format_version ++ (nonce ++ ciphertext))

header_passes :
    {P K : Type 0} (nonce ciphertext : List ℕ)
    → length nonce ≡ 24
    → length ciphertext ≤ max_ciphertext_length
    → check_header {P = P} {K = K} (framed nonce ciphertext) ≡ ok tt
unfolding check_header
header_passes nonce ciphertext h₁ h₂ =
    let n : length (nonce ++ ciphertext) ≡ 24 + length ciphertext =
      omega (arith, length-append nonce ciphertext) in
    ground (arith, n)

take_nonce : (n : ℕ) (xs rest : List ℕ) → length xs ≡ n → take n (xs ++ rest) ≡ xs
take_nonce n xs rest h = sym (ap (λ k. take k (xs ++ rest)) h) ∙ take-append xs rest

skip_nonce : (n : ℕ) (xs rest : List ℕ) → length xs ≡ n → skip n (xs ++ rest) ≡ rest
skip_nonce n xs rest h = sym (ap (λ k. skip k (xs ++ rest)) h) ∙ skip-append xs rest

module _ (P K : Type 0) {W : Type 0} ⦃f : Float W⦄ ⦃a : Arithmetic W⦄ where
  -- JSON decodes what it made of a valid payload, whose numbers are finite, and the cipher what it
  -- encrypted; the cipher adds a tag of 16 bytes, and a valid payload is short enough for the bound
  -- of the container.
  pub record IsSound (codec : Codec W) : Type 0 where
    pub decodes :
        (payload : StoredPayload W) (uid : ℕ) (bytes : List ℕ)
        → validate_stored_payload {P = P} {K = K} payload uid ≡ ok tt
        → codec.to_vec payload ≡ some bytes
        → codec.payload_from bytes ≡ some payload
    pub decrypts :
        (secret nonce aad plaintext ciphertext : List ℕ)
        → codec.encrypt secret nonce aad plaintext ≡ some ciphertext
        → codec.decrypt secret nonce aad ciphertext ≡ some plaintext
    pub tags :
        (secret nonce aad plaintext ciphertext : List ℕ)
        → codec.encrypt secret nonce aad plaintext ≡ some ciphertext
        → length ciphertext ≡ length plaintext + 16
    pub short :
        (payload : StoredPayload W) (uid : ℕ) (bytes : List ℕ)
        → validate_stored_payload {P = P} {K = K} payload uid ≡ ok tt
        → codec.to_vec payload ≡ some bytes
        → length bytes + 16 ≤ max_ciphertext_length

module _ {P K W : Type 0} ⦃f : Float W⦄ ⦃a : Arithmetic W⦄ where
  -- What a container holds under a key
  unfoldable pub unseal :
      Codec W → List ℕ → ℕ → List ℕ → Result (StorageError P K) (StoredPayload W)
  unseal codec secret uid bytes = check_header bytes >> open_sealed codec secret uid bytes

  -- What went into a container
  record Parts (codec : Codec W) (h : Host P K) (uid : ℕ) (payload : StoredPayload W)
      (secret bytes : List ℕ) : Type 0 where
    pub plaintext : List ℕ
    pub nonce : List ℕ
    pub ciphertext : List ℕ
    pub valid : validate_stored_payload {P = P} {K = K} payload uid ≡ ok tt
    pub encoded : codec.to_vec payload ≡ some plaintext
    pub drawn : h.random_nonce ≡ ok nonce
    pub closed : codec.encrypt secret nonce (associated_data uid) plaintext ≡ some ciphertext
    pub whole : bytes ≡ framed nonce ciphertext

  seal-Parts :
      (codec : Codec W) (h : Host P K) (uid : ℕ) (payload : StoredPayload W) (secret bytes : List ℕ)
      → h.load_key ≡ ok secret
      → seal codec h uid payload ≡ ok bytes
      → Parts codec h uid payload secret bytes
  unfolding seal
  seal-Parts codec h uid payload secret bytes keyed sealed =
      elim (Result-cases (validate_stored_payload {P = P} {K = K} payload uid)) [
        | inr (x, e₀) ↦ absurd (ground arith)
        | inl (u, e₀) ↦ elim (Option-cases (codec.to_vec payload)) [
          | inl e₁ ↦ absurd (ground arith)
          | inr (plaintext, e₁) ↦ elim (Result-cases h.random_nonce) [
            | inr (x, e₂) ↦ absurd (ground arith)
            | inl (nonce, e₂) ↦
                elim (Option-cases (codec.encrypt secret nonce (associated_data uid) plaintext)) [
                  | inl e₃ ↦ absurd (ground arith)
                  | inr (ciphertext, e₃) ↦ record {
                    plaintext = plaintext;
                    nonce = nonce;
                    ciphertext = ciphertext;
                    valid = e₀;
                    encoded = e₁;
                    drawn = e₂;
                    closed = e₃;
                    whole = ground arith;
                  }
                ]
          ]
        ]
      ]

  parsed :
      (codec : Codec W) (uid : ℕ) (plaintext : List ℕ) (payload : StoredPayload W)
      → codec.payload_from plaintext ≡ some payload
      → validate_stored_payload {P = P} {K = K} payload uid ≡ ok tt
      → parse_plaintext {P = P} {K = K} codec uid plaintext ≡ ok payload
  unfolding parse_plaintext
  parsed codec uid plaintext payload decoded valid = ground arith

  unseal-framed :
      (codec : Codec W) (secret nonce ciphertext plaintext : List ℕ) (uid : ℕ)
      (payload : StoredPayload W)
      → length nonce ≡ 24
      → length ciphertext ≤ max_ciphertext_length
      → codec.decrypt secret nonce (associated_data uid) ciphertext ≡ some plaintext
      → codec.payload_from plaintext ≡ some payload
      → validate_stored_payload {P = P} {K = K} payload uid ≡ ok tt
      → unseal codec secret uid (framed nonce ciphertext) ≡ ok payload
  unfolding unseal open_sealed
  unseal-framed codec secret nonce ciphertext plaintext uid payload n c opened decoded valid =
      rw
        (
          header_passes {P = P} {K = K} nonce ciphertext n c,
          take_nonce 24 nonce ciphertext n,
          skip_nonce 24 nonce ciphertext n,
          opened,
          parsed codec uid plaintext payload decoded valid,
        )
        refl

  -- A container that `seal` builds passes the checks, and holds the payload.
  pub unseal-seal :
      (codec : Codec W) (h : Host P K) (uid : ℕ) (payload : StoredPayload W) (secret bytes : List ℕ)
      → IsSound P K codec
      → ((nonce : List ℕ) → h.random_nonce ≡ ok nonce → length nonce ≡ 24)
      → h.load_key ≡ ok secret
      → seal codec h uid payload ≡ ok bytes
      → unseal codec secret uid bytes ≡ ok payload
  unseal-seal codec h uid payload secret bytes sound nonces keyed sealed =
      let p = seal-Parts codec h uid payload secret bytes keyed sealed in
      let tagged =
        sound.tags secret p.nonce (associated_data uid) p.plaintext p.ciphertext p.closed in
      let small = sound.short payload uid p.plaintext p.valid p.encoded in
      ap (λ b. unseal codec secret uid b) p.whole
      ∙ unseal-framed codec secret p.nonce p.ciphertext p.plaintext uid payload
          (nonces p.nonce p.drawn) (omega (arith, tagged, small))
          (sound.decrypts secret p.nonce (associated_data uid) p.plaintext p.ciphertext p.closed)
          (sound.decodes payload uid p.plaintext p.valid p.encoded) p.valid
