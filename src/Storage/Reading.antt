-- ===== src/Storage/Reading.antt =====
-- What a read finds in the file of an account (crates/faceauth-storage/src/lib.rs), whatever the host
-- answers.
use faceauth_rs.Prelude.{
  ℕ, ◌≡◌, refl, ap, ◌∙◌, subst, Bool, true, false, Option, none, some, Result, ok, err, ◌>>=◌,
  bind-eq-ok, ok_or, nat_eq, List, length, arith,
}
use faceauth_rs.Prelude.Float.{Float, Arithmetic}
use faceauth_rs.Storage.{IoError, not_found, StorageError, io, StoredPayload}
use faceauth_rs.Storage.Trust.{
  TrustPolicy, Metadata, TrustPolicy, verify_replace_target_storage, verify_open_storage_file,
  verify_private_file,
}
use faceauth_rs.Storage.Files.{
  optional, io_other, key_of, EncryptedTemplateStore, Codec, Host, Disk, check_header, open_sealed,
  verify_directory, read_payload, read_optional_payload,
}
use faceauth_rs.Storage.Sealing.{unseal}

-- A key provider that gives one key, when it gives one, and nonces of 24 bytes.
pub record IsKeyed {P K : Type 0} (secret : List ℕ) (h : Host P K) : Type 0 where
  pub one_key : (k : List ℕ) → h.load_key ≡ ok k → k ≡ secret
  pub nonces : (nonce : List ℕ) → h.random_nonce ≡ ok nonce → length nonce ≡ 24

module _ (P K : Type 0) {W : Type 0} ⦃f : Float W⦄ ⦃a : Arithmetic W⦄ (codec : Codec W)
    (secret : List ℕ) where
  -- The file of an account holds a payload, or there is none.
  unfoldable pub Holds : ℕ → Option (StoredPayload W) → Option (List ℕ) → Type 0
  Holds uid none file = file ≡ none
  Holds uid (some payload) file =
      (bytes : List ℕ) × (file ≡ some bytes)
      × (unseal {P = P} {K = K} codec secret uid bytes ≡ ok payload)

module _ {P K : Type 0} where
  unfoldable is_missing : StorageError P K → Bool
  is_missing (io not_found) = true
  is_missing _ = false

  -- The result does not report a missing file.
  abbrev Clear : {A : Type 0} → Result (StorageError P K) A → Type 0
  Clear r = (e : StorageError P K) → r ≡ err e → is_missing e ≡ false

  -- The result, if it is one, is the given value, and is not a report of a missing file.
  unfoldable Gives : {A : Type 0} → A → Result (StorageError P K) A → Type 0
  Gives p (ok x) = x ≡ p
  Gives p (err e) = is_missing e ≡ false

  bind-Gives :
      {A B : Type 0} (p : B) (m : Result (StorageError P K) A) (k : A → Result (StorageError P K) B)
      → Clear m
      → ((x : A) → m ≡ ok x → Gives p (k x))
      → Gives p (m >>= k)
  unfolding Gives
  bind-Gives p (ok x) k c g = g x refl
  bind-Gives p (err e) k c g = c e refl

  pass-Gives :
      {A B : Type 0} (p : B) (m : Result (StorageError P K) A) (k : A → Result (StorageError P K) B)
      {x : A}
      → m ≡ ok x
      → Gives p (k x)
      → Gives p (m >>= k)
  unfolding Gives
  pass-Gives p (ok y) k {x} e g = subst (λ z. Gives p (k z)) (ground arith) g
  pass-Gives p (err y) k e g = ground arith

  ok-Gives : {B : Type 0} (p : B) (r : Result (StorageError P K) B) → r ≡ ok p → Gives p r
  unfolding Gives
  ok-Gives p (ok x) e = ground arith
  ok-Gives p (err x) e = ground arith

  key-Clear : (r : Result K (List ℕ)) → Clear (key_of {P = P} r)
  unfolding is_missing
  key-Clear r e h = ground arith

  key_of-ok : (r : Result K (List ℕ)) (x : List ℕ) → key_of {P = P} r ≡ ok x → r ≡ ok x
  key_of-ok (ok y) x h = ground arith
  key_of-ok (err y) x h = ground arith

  replace-Clear :
      (trust : TrustPolicy) (stat : P → Result IoError Metadata) (path : P)
      → Clear (verify_replace_target_storage trust stat path)
  unfolding verify_replace_target_storage verify_private_file is_missing
  replace-Clear trust stat path e h = ground arith

  open-Clear :
      (trust : TrustPolicy) (m : Result ℕ Metadata) (path : P)
      → Clear (verify_open_storage_file trust m path)
  unfolding verify_open_storage_file verify_private_file is_missing
  open-Clear trust m path e h = ground arith

  other-Clear : {A : Type 0} (r : Result ℕ A) → Clear (io_other {P = P} r)
  unfolding is_missing
  other-Clear r e h = ground arith

module _ {P K W : Type 0} ⦃f : Float W⦄ ⦃a : Arithmetic W⦄ (codec : Codec W)
    (s : EncryptedTemplateStore P) (secret : List ℕ) where
  read_payload-Gives :
      (h : Host P K) (uid : ℕ) (disk : Disk) (payload : StoredPayload W) (bytes : List ℕ)
      → IsKeyed secret h
      → verify_directory codec s h ≡ ok tt
      → disk uid ≡ some bytes
      → unseal {P = P} {K = K} codec secret uid bytes ≡ ok payload
      → Gives payload (read_payload codec s h uid disk)
  unfolding read_payload unseal
  read_payload-Gives h uid disk payload bytes k d file holds =
      let (u, header, opened) = bind-eq-ok (check_header bytes) _ holds in
      pass-Gives payload _ _ d (
        bind-Gives payload _ _ (replace-Clear s.trust h.stat (s.path_for uid)) λ u₂ e₂.
          pass-Gives payload (ok_or (disk uid) (io not_found)) _ {x = bytes} (ground (arith, file))
            (bind-Gives payload _ _ (other-Clear h.open_read) λ m e₄.
              bind-Gives payload _ _ (open-Clear s.trust m (s.path_for uid)) λ u₅ e₅.
                bind-Gives payload _ _ (other-Clear h.read_to_end) λ u₆ e₆.
                  pass-Gives payload _ _ header (
                    bind-Gives payload (key_of h.load_key) _ (key-Clear h.load_key) λ k₈ e₈.
                      ok-Gives payload _ (
                        ap (λ x. open_sealed codec x uid bytes)
                          (k.one_key k₈ (key_of-ok {P = P} h.load_key k₈ e₈))
                        ∙ opened))))

  given_back :
      (r : Result (StorageError P K) (StoredPayload W)) (payload : StoredPayload W)
      (read : Option (StoredPayload W))
      → Gives payload r
      → optional r ≡ ok read
      → read ≡ some payload
  unfolding Gives is_missing
  given_back (ok x) payload read g h = ground arith
  given_back (err (io not_found)) payload read g h = ground arith
  given_back (err e) payload read g h = ground arith

  pub read_optional-Holds :
      (h : Host P K) (uid : ℕ) (disk : Disk) (slot read : Option (StoredPayload W))
      → IsKeyed secret h
      → verify_directory codec s h ≡ ok tt
      → Holds P K codec secret uid slot (disk uid)
      → read_optional_payload codec s h uid disk ≡ ok read
      → read ≡ slot
  unfolding Holds read_optional_payload read_payload
  read_optional-Holds h uid disk none read k d held e = ground arith
  read_optional-Holds h uid disk (some payload) read k d (bytes, file, holds) e =
      given_back (read_payload codec s h uid disk) payload read
        (read_payload-Gives h uid disk payload bytes k d file holds) e
