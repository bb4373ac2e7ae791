-- ===== src/Lib.antt =====
-- faceauth, a local face-authentication service: a verification library of its decision logic.
--
-- A privileged daemon receives a request over a Unix socket (crates/faceauth-transport) in the
-- messages of crates/faceauth-protocol. It authorizes the caller by its kernel credentials and its
-- verified executable (crates/faceauth-authz), and opens the one transaction that its session
-- manager holds (crates/faceauth-session). A worker takes the cameras from the arbiter
-- (crates/faceauth-daemon/src/resource.rs), captures pairs of frames (crates/faceauth-capture),
-- checks an active-liveness challenge (crates/faceauth-liveness), and hands its evidence to the
-- authentication policy (crates/faceauth-core), whose decision completes the transaction, on the
-- template that crates/faceauth-storage keeps encrypted for the account. The PAM module
-- (crates/pam-faceauth) is the client that a login asks, and the models of the inference are
-- admitted by their manifests (crates/faceauth-model). The enrollment of a user is an operation of
-- the coordinator in crates/faceauth-management, crates/faceauth-enrollment makes one template of
-- its samples, and what a desktop shows of either is the state machine of crates/faceauth-ui-model.
-- A supervisor owns the daemon's services and ends all of them when one ends.
--
-- Modules, one tree for each part. A file names a component's data and operations as the crate
-- does; its children hold the theorems, and its Tests the runs and the concrete instances.
--   Prelude      shared names, tests and lists over native numbers, `Result` (Outcome), methods on
--                `&mut self` that may fail (Exec), machine words (Word), the interface of `f32`
--                (Float), lists without a clash (Apart), histories of one open item (Ledger)
--   Policy       crates/faceauth-core/src/policy.rs: `CapturePolicy`, `AuthPolicy::evaluate`
--   Protocol     crates/faceauth-protocol/src/lib.rs: the messages, `ServiceName::parse`
--   Transport    crates/faceauth-transport/src/lib.rs: `PeerIdentity`, `TransportConfig`; Framing
--                has `read_message` and `write_message`
--   Authz        crates/faceauth-authz/src/lib.rs: `AuthorizationPolicy::new` and `authorize`;
--                Executable has `VerifiedExecutable::from_peer`
--   Session      crates/faceauth-session/src/lib.rs: `SessionManager`. `progress` is
--                `send_progress`, and the atomics of the tokens are cells of a store
--   Liveness     crates/faceauth-liveness/src/lib.rs: `ChallengeSession`. `observe_cancellable` is
--                cut into `check_fresh`, `consume` and `advance`
--   Management   crates/faceauth-management/src/lib.rs: `ManagementCoordinator`. `progress` is
--                `emit_progress`, `OperationId::parse` is `parse_id`
--   Experience   crates/faceauth-ui-model/src/lib.rs: `ExperienceModel`
--   Capture      crates/faceauth-capture/src/lib.rs: `capture_pair_cancellable`; Driver has
--                `V4l2FrameStream::next_frame` and `timestamp_micros`
--   Presence     crates/faceauth-presence/src/lib.rs: `PresenceCache`, `CaptureActivityRegistry`
--   Arbiter      crates/faceauth-daemon/src/resource.rs: `BiometricResourceArbiter`
--   Storage      crates/faceauth-storage/src/lib.rs: `EncryptedTemplateStore`. Trust has the checks of
--                paths, Files the container and its lock, Store the operations
--   Model        crates/faceauth-model/src/lib.rs: the data of `ModelManifest`; Checks has the checks
--                of outputs, Manifest `validate`, `compatibility_sha256` and `verify_file`. `sort`
--                stands for `sort_unstable`
--   Inference    crates/faceauth-inference/src/lib.rs: `FaceEmbedding`, `PassiveLivenessScore`
--   Enrollment   crates/faceauth-enrollment/src/lib.rs: `EnrollmentSession`. `start` is
--                `start_enrollment`; Samples has what a session holds, Binding and Observing its
--                calls, Template its ends
--   Daemon       crates/faceauth-daemon/src/lib.rs: `evaluate_authentication` and
--                `complete_authentication`; Boundary has `BoundaryService`, Coordination the loop of
--                `coordinate_started_authentication`, cut into `turn` and the matches under it, and
--                Supervisor has `ServiceSupervisor` of crates/faceauth-daemon/src/supervision.rs, whose
--                loop is cut in the same way
--   Pam          crates/pam-faceauth/src/lib.rs: `pam_sm_authenticate`. `authenticate` is
--                `authenticate_user`, and the loop of `exchange` is `await_decision`; Replies is
--                about that loop, Success about the whole call, Justified joins it to Daemon
--
-- How the code is read. A method on `&mut self` is a function from the state to its result and the
-- state after it, which is kept when an error returns; `?` is the bind of a `do` block. Numbers
-- are native, and where a width can be exceeded the checked or saturating operation is written
-- with its modulus. A byte string is a list of numbers. `f32` is any type with the interface
-- Float (comparisons, absolute value, the finite test, the literals used); the theorems that
-- compare scores ask for an order, and thousandths are the concrete instance. Its arithmetic is
-- the interface Arithmetic, of which no law is assumed.
-- The loops are structural: on the list of rules or executables, and in `pair_frames` on the
-- number of replacements that are left, which starts at the policy's own bound. The loop of a
-- connection runs over a list of rounds, one for each pass; a list with the engine's last update
-- is enough for it to return. The supervisor's loop runs over rounds too, and a round whose clock
-- is past the grace time of a shutdown is enough.
-- A history is a list of calls in the order in which the lock of a component lets them through,
-- so that interleavings of threads are lists of calls. A random draw is an argument: the byte of
-- `ChallengeAction::random`, fresh identifiers, connection tokens. What the kernel or a library
-- answers is an argument too: process and file metadata, V4L2 buffers, the UUID parser, the JSON
-- codec, SHA-256, the SPDX parser, the items of a PAM handle and the accounts of libc.
--
-- Not modelled: serialization, rendering of errors and logging; the text of /proc beyond its
-- parsed field; opening and configuring a V4L2 device; the zeroing of buffers; the memory order
-- of atomics; image quality, model sessions and preprocessing, the key file and the TPM, the D-Bus
-- adapter, the command line and the desktop client, which are calls of libraries and devices around
-- this logic; the daemon's observation pipeline and worker threads; the listener and its accept
-- loop. In the store, the metadata of a path does not change within a call once the
-- directory is prepared.
pub mod Prelude
pub mod Policy
pub mod Protocol
pub mod Storage
pub mod Transport
pub mod Authz
pub mod Session
pub mod Liveness
pub mod Management
pub mod Experience
pub mod Capture
pub mod Model
pub mod Inference
pub mod Enrollment
pub mod Daemon
pub mod Pam
pub mod Arbiter
pub mod Presence
