-- ===== src/Model/Artifact.antt =====
-- The identity of a model and of its file (crates/faceauth-model/src/lib.rs).
use faceauth_rs.Prelude.{
  ℕ, zero, suc, ◌+◌, ◌/◌, ◌%◌, ◌<◌, ◌≡◌, ◌↔◌, refl, sym, ap, Option-cases, eq_self, ◌∙◌, Bool, true,
  false, not, ◌&&◌, ◌||◌, Option, none, some, Result, ok, err, lift_err, lift_err-ok, bind-eq-ok,
  bind-guard, bind-ok_or, Bool-cases, inl, inr, nat_eq, bytes_eq, ◌==◌, eq_of_beq, all, any, length,
  get_or, All, List, [], ◌∷◌, ◌++◌, arith,
}
use mathlib.Core.List.{append_assoc, append-nil}
use faceauth_rs.Prelude.Float.{Float, Arithmetic}
use faceauth_rs.Storage.{IoError, is_ascii_hexdigit, is_ascii_uppercase}
use faceauth_rs.Inference.{valid_compatibility_sha256}
use faceauth_rs.Model.{ModelManifest, not_regular_file, io, serialization}
use faceauth_rs.Model.Manifest.{
  hex_digits, hex_lower, read_all, Artifact, compatibility_tag, validate_manifest,
  compatibility_sha256, verify_reader, verify_file,
}

abbrev is_lower_hex : ℕ → Bool
is_lower_hex b = is_ascii_hexdigit b && not (is_ascii_uppercase b)

all-get_or :
    (p : ℕ → Bool) (xs : List ℕ) (n d : ℕ)
    → all p xs ≡ true
    → n < length xs
    → p (get_or xs n d) ≡ true
all-get_or p [] n d h k = elim k [ ]
all-get_or p (x ∷ xs) zero d h k = elim (Bool-cases (p x)) [
  | inl e ↦ e
  | inr e ↦ absurd (ground arith)
]
all-get_or p (x ∷ xs) (suc n) d h k = elim (Bool-cases (p x)) [
  | inl e ↦ all-get_or p xs n d (sym (rw e refl) ∙ h) (omega arith)
  | inr e ↦ absurd (ground arith)
]

and_parts : (a b : Bool) → (a && not b) ≡ true → (a ≡ true) × (b ≡ false)
and_parts a b h = ground arith

digit_is_lower :
    (n : ℕ)
    → n < 16
    → (is_ascii_hexdigit (get_or hex_digits n 0) ≡ true)
      × (is_ascii_uppercase (get_or hex_digits n 0) ≡ false)
digit_is_lower n h =
    and_parts (is_ascii_hexdigit (get_or hex_digits n 0))
      (is_ascii_uppercase (get_or hex_digits n 0)) (all-get_or is_lower_hex hex_digits n 0 refl h)

three_true : (a b c : Bool) → a ≡ true → b ≡ true → c ≡ true → (a && (b && c)) ≡ true
three_true a b c h k l = ground arith

three_false : (a b c : Bool) → a ≡ false → b ≡ false → c ≡ false → (a || (b || c)) ≡ false
three_false a b c h k l = ground arith

hex_lower-length : (bytes : List ℕ) → length (hex_lower bytes) ≡ length bytes + length bytes
unfolding hex_lower
hex_lower-length [] = refl
hex_lower-length (b ∷ bs) = omega (arith, hex_lower-length bs)

hex_lower_digits :
    (bytes : List ℕ)
    → All (λ (b : ℕ). b < 256) bytes
    → (all is_ascii_hexdigit (hex_lower bytes) ≡ true)
      × (any is_ascii_uppercase (hex_lower bytes) ≡ false)
unfolding hex_lower
hex_lower_digits [] h = (refl, refl)
hex_lower_digits (b ∷ bs) (h, hs) =
    let (hex_high, low_high) = digit_is_lower (b / 16) (omega arith) in
    let (hex_low, low_low) = digit_is_lower (b % 16) (omega arith) in
    let (hexes, lows) = hex_lower_digits bs hs in
    (
      three_true (is_ascii_hexdigit (get_or hex_digits (b / 16) 0))
          (is_ascii_hexdigit (get_or hex_digits (b % 16) 0)) (all is_ascii_hexdigit (hex_lower bs))
          hex_high hex_low hexes,
      three_false (is_ascii_uppercase (get_or hex_digits (b / 16) 0))
          (is_ascii_uppercase (get_or hex_digits (b % 16) 0))
          (any is_ascii_uppercase (hex_lower bs)) low_high low_low lows,
    )

-- What a file holds, as its reads give it
abbrev pub contents : List (Result IoError (List ℕ)) → Option (List ℕ)
contents [] = some []
contents (err e ∷ rest) = none
contents (ok [] ∷ rest) = some []
contents (ok (b ∷ bs) ∷ rest) =
    let more = contents rest in elim more [ none ↦ none | some x ↦ some ((b ∷ bs) ++ x) ]

read_all-contents :
    (hashed : List ℕ) (reads : List (Result IoError (List ℕ))) (found : List ℕ)
    → read_all hashed reads ≡ ok found
    → (x : List ℕ) × (contents reads ≡ some x) × (found ≡ hashed ++ x)
unfolding read_all
read_all-contents hashed [] found h =
    ([], refl, (let same : hashed ≡ found = ground arith in sym same ∙ sym (append-nil hashed)))
read_all-contents hashed (err e ∷ rest) found h = absurd (ground arith)
read_all-contents hashed (ok [] ∷ rest) found h =
    ([], refl, (let same : hashed ≡ found = ground arith in sym same ∙ sym (append-nil hashed)))
read_all-contents hashed (ok (b ∷ bs) ∷ rest) found h =
    let (x, e, same) = read_all-contents (hashed ++ b ∷ bs) rest found (ground arith) in
    ((b ∷ bs) ++ x, rw e refl, same ∙ append_assoc hashed (b ∷ bs) x)

contents-read_all :
    (hashed : List ℕ) (reads : List (Result IoError (List ℕ))) (x : List ℕ)
    → contents reads ≡ some x
    → read_all hashed reads ≡ ok (hashed ++ x)
unfolding read_all
contents-read_all hashed [] x h =
    ap ok (sym (append-nil hashed) ∙ ap (λ y. hashed ++ y) (ground arith))
contents-read_all hashed (err e ∷ rest) x h = absurd (ground arith)
contents-read_all hashed (ok [] ∷ rest) x h =
    ap ok (sym (append-nil hashed) ∙ ap (λ y. hashed ++ y) (ground arith))
contents-read_all hashed (ok (b ∷ bs) ∷ rest) x h = elim (Option-cases (contents rest)) [
  | inl e ↦ absurd (ground arith)
  | inr (more, e) ↦
      let same : (b ∷ bs) ++ more ≡ x = ground arith in
      let nonempty : (length (b ∷ bs) == 0) ≡ false = ground arith in
      rw nonempty (
        contents-read_all (hashed ++ b ∷ bs) rest more e
        ∙ ap ok (append_assoc hashed (b ∷ bs) more ∙ ap (λ y. hashed ++ y) same))
]

module _ {W : Type 0} ⦃f : Float W⦄ ⦃a : Arithmetic W⦄ (is_spdx : List ℕ → Bool)
    (sha256 : List ℕ → List ℕ) where
  -- If SHA-256 gives 32 bytes, the compatibility identity of a manifest is a digest that the
  -- inference and storage layers take: 64 lowercase hexadecimal digits.
  pub compatibility_sha256-valid :
      (to_vec : ModelManifest W → Option (List ℕ)) (m : ModelManifest W) (digest : List ℕ)
      → ((b : List ℕ) → (length (sha256 b) ≡ 32) × All (λ (x : ℕ). x < 256) (sha256 b))
      → compatibility_sha256 is_spdx sha256 to_vec m ≡ ok digest
      → valid_compatibility_sha256 digest ≡ true
  unfolding compatibility_sha256 valid_compatibility_sha256
  compatibility_sha256-valid to_vec m digest is_sha h =
      let (u, valid, h₁) = bind-eq-ok (validate_manifest is_spdx m) _ h in
      let (encoded, e, h₂) = bind-ok_or (to_vec m) serialization _ h₁ in
      let hashed = sha256 (compatibility_tag ++ encoded) in
      let same : hex_lower hashed ≡ digest = ground arith in
      let (size, bytes) = is_sha (compatibility_tag ++ encoded) in
      let (hexes, lows) = hex_lower_digits hashed bytes in
      let long : length (hex_lower hashed) ≡ 64 = omega (arith, hex_lower-length hashed) in
      let small : not (any is_ascii_uppercase (hex_lower hashed)) ≡ true = ground arith in
      rw⁻¹ same (
        three_true (length (hex_lower hashed) == 64) (all is_ascii_hexdigit (hex_lower hashed))
          (not (any is_ascii_uppercase (hex_lower hashed))) (ap (λ n. n == 64) long) hexes small)

  -- What a verified file is: a valid manifest, and a regular file whose reads succeed and whose
  -- contents have the digest of the manifest.
  pub record IsGenuine (opened : Result IoError Artifact) (m : ModelManifest W) : Type 0 where
    pub valid : validate_manifest is_spdx m ≡ ok tt
    pub file : Artifact
    pub found : opened ≡ ok file
    pub regular : file.is_file ≡ ok true
    pub bytes : List ℕ
    pub read : contents file.reads ≡ some bytes
    pub digest : hex_lower (sha256 bytes) ≡ m.sha256

  verify_file-IsGenuine :
      (opened : Result IoError Artifact) (m : ModelManifest W)
      → verify_file is_spdx sha256 opened m ≡ ok tt
      → IsGenuine opened m
  unfolding verify_file verify_reader
  verify_file-IsGenuine opened m h =
      let (u, valid, h₁) = bind-eq-ok (validate_manifest is_spdx m) _ h in
      let (file, opens, h₂) = bind-eq-ok (lift_err io opened) _ h₁ in
      let (is_file, stats, h₃) = bind-eq-ok (lift_err io file.is_file) _ h₂ in
      let (regular, h₄) = bind-guard is_file not_regular_file _ h₃ in
      let (hashed, e, h₅) = bind-eq-ok (read_all [] file.reads) _ h₄ in
      let (x, has, same) = read_all-contents [] file.reads hashed e in
      record {
        valid = valid;
        file = file;
        found = lift_err-ok io opened opens;
        regular = lift_err-ok io file.is_file stats ∙ ap ok regular;
        bytes = x;
        read = has;
        digest =
            ap (λ b. hex_lower (sha256 b)) (sym same)
            ∙ eq_of_beq (hex_lower (sha256 hashed)) m.sha256 (ground arith);
      }

  IsGenuine-verify_file :
      (opened : Result IoError Artifact) (m : ModelManifest W)
      → IsGenuine opened m
      → verify_file is_spdx sha256 opened m ≡ ok tt
  unfolding verify_file verify_reader
  IsGenuine-verify_file opened m g =
      rw
        (
          verify_file,
          g.valid,
          g.found,
          g.regular,
          verify_reader,
          contents-read_all [] g.file.reads g.bytes g.read,
          g.digest,
          eq_self m.sha256,
        )
        refl

  -- A file passes verification exactly when the manifest is valid, the file is regular and all its
  -- reads up to the end succeed, and the SHA-256 digest of what they gave is the manifest's.
  pub verify_file_iff :
      (opened : Result IoError Artifact) (m : ModelManifest W)
      → (verify_file is_spdx sha256 opened m ≡ ok tt) ↔ IsGenuine opened m
  verify_file_iff opened m = (verify_file-IsGenuine opened m, IsGenuine-verify_file opened m)
