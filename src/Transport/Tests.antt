-- ===== src/Transport/Tests.antt =====
-- Frames over a concrete codec: an envelope of a number is its version and the number.
use faceauth_rs.Prelude.{ℕ, ◌≡◌, refl, true, Option, some, none, ok, err, List, [], ◌∷◌, arith}
use faceauth_rs.Protocol.{Envelope, current}
use faceauth_rs.Transport.{TransportConfig, default_max_message_bytes, empty_message}
use faceauth_rs.Transport.Framing.{
  from_be_bytes, read_exact, write_all, read_message, encode_frame, write_message,
}
use faceauth_rs.Transport.RoundTrip.{carrying, read-write_message}

abbrev to_vec : Envelope ℕ → Option (List ℕ)
to_vec e = some (e.version ∷ e.message ∷ [])

abbrev from_slice : List ℕ → Option (Envelope ℕ)
from_slice (v ∷ m ∷ []) = some (record { version = v; message = m })
from_slice _ = none

inverse : (e : Envelope ℕ) (b : List ℕ) → to_vec e ≡ some b → from_slice b ≡ some e
inverse e b h = ground arith

abbrev config : TransportConfig
config = record { max_message_bytes = default_max_message_bytes; io_timeout = 5000000000 }

write_seven : (write_message to_vec from_slice config 7 (carrying [] true)).0 ≡ ok tt
unfolding write_message encode_frame write_all current
write_seven = refl

read_empty :
    (read_message to_vec from_slice config (carrying (0 ∷ 0 ∷ 0 ∷ 0 ∷ 9 ∷ []) true)).0
    ≡ err empty_message
unfolding read_message read_exact from_be_bytes
read_empty = refl

read-write_message_example :
    read_message to_vec from_slice config
      (write_message to_vec from_slice config 7 (carrying [] true)).1
    ≡ (ok (current 7), carrying [] true)
read-write_message_example =
    read-write_message to_vec from_slice inverse config config 7 true (omega arith) write_seven
