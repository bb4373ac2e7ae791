-- ===== src/Transport.antt =====
-- crates/faceauth-transport/src/lib.rs: the identity of a peer, and the bounds of a connection.
-- A duration is its number of nanoseconds.
pub mod Framing
pub mod RoundTrip
mod Tests
use faceauth_rs.Prelude.{ℕ, ◌&&◌, Result, guard, within}

pub record PeerIdentity : Type 0 where
  pub pid : ℕ
  pub uid : ℕ
  pub gid : ℕ

abbrev pub default_max_message_bytes : ℕ
default_max_message_bytes = 16384

abbrev pub absolute_max_message_bytes : ℕ
absolute_max_message_bytes = 65536

pub record TransportConfig : Type 0 where
  pub max_message_bytes : ℕ
  pub io_timeout : ℕ

pub data TransportError : Type 0 where
  invalid_config invalid_accept_loop_config accept_failure_budget_exceeded : TransportError
  empty_message io json protocol : TransportError
  message_too_large : ℕ → ℕ → TransportError

unfoldable pub validate_transport : TransportConfig → Result TransportError (Unit {0})
validate_transport c =
    guard
      (within 1 absolute_max_message_bytes c.max_message_bytes
        && within 1000000 30000000000 c.io_timeout)
      invalid_config
