-- ===== src/Protocol/Tests.antt =====
-- Service names and envelopes at concrete inputs.
use faceauth_rs.Prelude.{ℕ, ◌≡◌, refl, List, [], ◌∷◌, ok, err}
use faceauth_rs.Protocol.{
  empty, invalid_character, unsupported_version, parse, is_name_byte, validate_version,
}

-- "sudo-i"
abbrev sudo_i : List ℕ
sudo_i = b's' ∷ b'u' ∷ b'd' ∷ b'o' ∷ b'-' ∷ b'i' ∷ []

parse-sudo_i : parse sudo_i ≡ ok (record { as_str = sudo_i })
unfolding parse is_name_byte
parse-sudo_i = refl

parse_empty : parse [] ≡ err empty
unfolding parse
parse_empty = refl

parse_slash : parse (b'a' ∷ b'/' ∷ []) ≡ err invalid_character
unfolding parse is_name_byte
parse_slash = refl

validate_version_old :
    validate_version (record { version = 1; message = sudo_i }) ≡ err (unsupported_version 1 2)
unfolding validate_version
validate_version_old = refl
