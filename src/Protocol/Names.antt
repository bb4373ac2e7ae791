-- ===== src/Protocol/Names.antt =====
-- Which service names `ServiceName::parse` (crates/faceauth-protocol/src/lib.rs) admits.
use faceauth_rs.Prelude.{
  ℕ, ◌≤◌, ◌<◌, ◌≡◌, ◌↔◌, ◌⊎◌, true, List, [], ◌∷◌, length, all, All, ok, arith, refl,
}
use faceauth_rs.Protocol.{ServiceName, is_name_byte, parse}

-- Letters, digits, `.`, `_` and `-`, by their codes.
abbrev pub IsNameByte : ℕ → Type 0
IsNameByte b =
    ((48 ≤ b) × (b ≤ 57))
    ⊎ ((65 ≤ b) × (b ≤ 90))
    ⊎ ((97 ≤ b) × (b ≤ 122))
    ⊎ (b ≡ 46)
    ⊎ (b ≡ 95)
    ⊎ (b ≡ 45)

is_name_byte_sound : (b : ℕ) → is_name_byte b ≡ true → IsNameByte b
unfolding is_name_byte
is_name_byte_sound b h = ground arith

is_name_byte_complete : (b : ℕ) → IsNameByte b → is_name_byte b ≡ true
unfolding is_name_byte
is_name_byte_complete b h = ground arith

all_sound : (bs : List ℕ) → all is_name_byte bs ≡ true → All IsNameByte bs
all_sound [] h = tt
all_sound (b ∷ bs) h =
    let both : (is_name_byte b ≡ true) × (all is_name_byte bs ≡ true) = ground arith in
    (is_name_byte_sound b both.0, all_sound bs both.1)

all_complete : (bs : List ℕ) → All IsNameByte bs → all is_name_byte bs ≡ true
all_complete [] h = refl
all_complete (b ∷ bs) h = rw (is_name_byte_complete b h.0) (all_complete bs h.1)

pub record IsServiceName (bs : List ℕ) : Type 0 where
  pub nonempty : 0 < length bs
  pub short : length bs ≤ 64
  pub spelled : All IsNameByte bs

parse_ok : (bs : List ℕ) {n : ServiceName} → parse bs ≡ ok n → IsServiceName bs × (n.as_str ≡ bs)
unfolding parse
parse_ok bs h =
    let spells : all is_name_byte bs ≡ true = ground arith in
    (
      record { nonempty = ground arith; short = ground arith; spelled = all_sound bs spells },
      ground arith,
    )

parse_of_IsServiceName : (bs : List ℕ) → IsServiceName bs → parse bs ≡ ok (record { as_str = bs })
unfolding parse
parse_of_IsServiceName bs v =
    let spells = all_complete bs v.spelled in ground (arith, v.nonempty, v.short, spells)

-- `parse` succeeds exactly on 1 to 64 bytes that are all letters, digits, `.`, `_` or `-`, and
-- what it returns spells the input unchanged.
pub parse_iff :
    (bs : List ℕ) (n : ServiceName) → (parse bs ≡ ok n) ↔ (IsServiceName bs × (n.as_str ≡ bs))
parse_iff bs n = (parse_ok bs, λ v. ground (arith, parse_of_IsServiceName bs v.0, v.1))
