-- ===== src/Transport/Framing.antt =====
-- The length-prefixed frames of crates/faceauth-transport/src/lib.rs. A socket is the list of the
-- bytes in flight and whether it takes writes; JSON is a pair of functions, which may fail.

use faceauth_rs.Prelude.{
  ℕ, ◌+◌, ◌*◌, ◌/◌, ◌%◌, ◌<◌, ◌≡◌, Bool, not, Option, none, some, Result, ok, err, nat_eq, ◌==◌,
  if◌then◌else◌, ltb, leb, List, [], ◌∷◌, ◌++◌, length, take, skip, ok_or, map_err, arith,
}
use faceauth_rs.Prelude.Exec.{Exec, ◌>>=◌, ◌>>◌, pure, reads, guard}
use faceauth_rs.Prelude.Word.{u32_mod}
use faceauth_rs.Protocol.{Envelope, current, validate_version}
use faceauth_rs.Transport.{
  TransportConfig, TransportError, empty_message, message_too_large, io, json, protocol,
}

pub record Socket : Type 0 where
  pub in_flight : List ℕ
  pub writable : Bool

-- `u32::to_be_bytes`
unfoldable pub to_be_bytes : ℕ → List ℕ
to_be_bytes n = ((n / 16777216) % 256) ∷ ((n / 65536) % 256) ∷ ((n / 256) % 256) ∷ (n % 256) ∷ []

-- `u32::from_be_bytes`, on a header of four bytes
unfoldable pub from_be_bytes : List ℕ → ℕ
from_be_bytes (a ∷ b ∷ c ∷ d ∷ _) = a * 16777216 + b * 65536 + c * 256 + d
from_be_bytes _ = 0

pub from-to_be_bytes : (n : ℕ) → n < u32_mod → from_be_bytes (to_be_bytes n) ≡ n
unfolding from_be_bytes to_be_bytes
from-to_be_bytes n h = omega arith

-- `Read::read_exact`: too few bytes are an error, and are lost.
unfoldable pub read_exact : ℕ → Exec Socket TransportError (List ℕ)
read_exact n s =
    if leb n (length s.in_flight)
    then (ok (take n s.in_flight), record s { in_flight = skip n s.in_flight })
    else (err io, record s { in_flight = [] })

-- `Write::write_all`
unfoldable pub write_all : List ℕ → Exec Socket TransportError (Unit {0})
write_all bytes s =
    if s.writable then (ok tt, record s { in_flight = s.in_flight ++ bytes }) else (err io, s)

module _ {A : Type 0} (to_vec : Envelope A → Option (List ℕ))
    (from_slice : List ℕ → Option (Envelope A)) where
  unfoldable pub read_message : TransportConfig → Exec Socket TransportError (Envelope A)
  read_message config = do
    header ← read_exact 4
    let declared = from_be_bytes header
    guard (not (declared == 0)) empty_message
    guard (not (ltb config.max_message_bytes declared))
        (message_too_large declared config.max_message_bytes)
    encoded ← read_exact declared
    envelope ← reads (λ _. ok_or (from_slice encoded) json)
    reads (λ _. map_err (validate_version envelope) protocol)
    pure envelope

  -- The frame of a message that is encoded, and not too long for the connection.
  unfoldable pub encode_frame : TransportConfig → A → Result TransportError (List ℕ)
  encode_frame config message = elim (to_vec (current message)) [
    | none ↦ err json
    | some encoded ↦
        if length encoded == 0
        then err empty_message
        else if ltb config.max_message_bytes (length encoded)
        then err (message_too_large (length encoded) config.max_message_bytes)
        else if leb u32_mod (length encoded)
        then err (message_too_large (length encoded) config.max_message_bytes)
        else ok encoded
  ]

  unfoldable pub write_message : TransportConfig → A → Exec Socket TransportError (Unit {0})
  write_message config message = do
    encoded ← reads (λ _. encode_frame config message)
    write_all (to_be_bytes (length encoded))
    write_all encoded
