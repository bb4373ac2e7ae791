-- ===== src/Authz/Executable.antt =====
-- crates/faceauth-authz/src/lib.rs: the evidence on a peer's executable. What the kernel answers is
-- an argument: the two reads of the pidfd's information, before and after `/proc/PID/exe` is
-- opened, and the metadata of the open file.
use faceauth_rs.Prelude.{
  refl, ℕ, ◌<◌, ◌≡◌, ◌↔◌, Bool, true, not, Option, none, some, Result, ok, err, ◌>>=◌, ◌>>◌, guard,
  ok_or, ◌==◌, nat_eq, ltb, arith, bit_and,
}
use faceauth_rs.Prelude.Word.{u32_mod}
use faceauth_rs.Transport.{PeerIdentity}
use faceauth_rs.Authz.{VerifiedExecutable}

pub data ExecutableError : Type 0 where
  io not_regular_file invalid_pidfd peer_exited : ExecutableError
  not_root_owned writable_by_untrusted_user not_executable : ℕ → ExecutableError
  peer_pid_mismatch : ℕ → ℕ → ExecutableError

pub record Metadata : Type 0 where
  pub is_file : Bool
  pub uid : ℕ
  pub mode : ℕ
  pub dev : ℕ
  pub ino : ℕ

unfoldable pub from_verified_file : Option Metadata → Result ExecutableError VerifiedExecutable
from_verified_file file = do
  metadata ← ok_or file io
  guard metadata.is_file not_regular_file
  guard (metadata.uid == 0) (not_root_owned metadata.uid)
  let mode = bit_and metadata.mode 0o777
  guard (bit_and mode 0o022 == 0) (writable_by_untrusted_user mode)
  guard (not (bit_and mode 0o111 == 0)) (not_executable mode)
  ok (record { fingerprint = record { device = metadata.dev; inode = metadata.ino } })

-- The `Pid:` field of `/proc/self/fdinfo/FD`, once read and parsed as an `i64`.
pub data PidField : Type 0 where
  unreadable absent unparsable negative : PidField
  number : ℕ → PidField

unfoldable pub verify_pidfd : ℕ → PidField → Result ExecutableError (Unit {0})
verify_pidfd expected unreadable = err io
verify_pidfd expected absent = err invalid_pidfd
verify_pidfd expected unparsable = err invalid_pidfd
verify_pidfd expected negative = err peer_exited
verify_pidfd expected (number pid) = do
  guard (ltb pid u32_mod) invalid_pidfd
  guard (pid == expected) (peer_pid_mismatch expected pid)

-- `none` when the file could not be opened; within, `none` when its metadata could not be read.
unfoldable pub from_peer :
    PeerIdentity
    → PidField
    → Option (Option Metadata)
    → PidField
    → Result ExecutableError VerifiedExecutable
from_peer peer before opened after = do
  verify_pidfd peer.pid before
  file ← ok_or opened io
  verify_pidfd peer.pid after
  from_verified_file file

-- A root-owned regular file that group and others cannot write and somebody can execute.
pub record IsTrusted (m : Metadata) : Type 0 where
  pub regular : m.is_file ≡ true
  pub root_owned : m.uid ≡ 0
  pub protected : bit_and (bit_and m.mode 0o777) 0o022 ≡ 0
  pub runnable : 0 < bit_and (bit_and m.mode 0o777) 0o111

abbrev pub identity : Metadata → VerifiedExecutable
identity m = record { fingerprint = record { device = m.dev; inode = m.ino } }

from_verified_file_iff :
    (m : Metadata) (v : VerifiedExecutable)
    → (from_verified_file (some m) ≡ ok v) ↔ (IsTrusted m × (v ≡ identity m))
unfolding from_verified_file
from_verified_file_iff m v = ground arith

verify_pidfd_iff :
    (expected : ℕ) (field : PidField)
    → expected < u32_mod
    → (verify_pidfd expected field ≡ ok tt) ↔ (field ≡ number expected)
unfolding verify_pidfd
verify_pidfd_iff expected unreadable h = ground arith
verify_pidfd_iff expected absent h = ground arith
verify_pidfd_iff expected unparsable h = ground arith
verify_pidfd_iff expected negative h = ground arith
verify_pidfd_iff expected (number pid) h = ground arith

from_peer_ok :
    (peer : PeerIdentity) (before after : PidField) (opened : Option (Option Metadata))
    {v : VerifiedExecutable}
    → from_peer peer before opened after ≡ ok v
    → (m : Metadata) × (opened ≡ some (some m))
      × (verify_pidfd peer.pid before ≡ ok tt)
      × (verify_pidfd peer.pid after ≡ ok tt)
      × (from_verified_file (some m) ≡ ok v)
unfolding from_peer from_verified_file
from_peer_ok peer before after none h = absurd (ground arith)
from_peer_ok peer before after (some none) h = absurd (ground arith)
from_peer_ok peer before after (some (some m)) h =
    (m, refl, ground arith, ground arith, ground arith)

-- Evidence exists only if the pidfd named the peer's process both before and after the executable
-- was opened, and the opened file is a regular root-owned file that group and others cannot write
-- and somebody can execute; the evidence is that file's device and inode.
pub from_peer_sound :
    (peer : PeerIdentity) (before after : PidField) (opened : Option (Option Metadata))
    {v : VerifiedExecutable}
    → peer.pid < u32_mod
    → from_peer peer before opened after ≡ ok v
    → (before ≡ number peer.pid)
      × (after ≡ number peer.pid)
      × (m : Metadata) × (opened ≡ some (some m))
      × IsTrusted m
      × (v ≡ identity m)
from_peer_sound peer before after opened {v} bound h =
    let (m, readable, first, second, checked) = from_peer_ok peer before after opened h in
    let (trusted, named) = (from_verified_file_iff m v).0 checked in
    (
      (verify_pidfd_iff peer.pid before bound).0 first,
      (verify_pidfd_iff peer.pid after bound).0 second,
      m,
      readable,
      trusted,
      named,
    )
