-- ===== src/Capture/Driver.antt =====
-- Frames of a V4L2 stream (crates/faceauth-capture/src/lib.rs). What the driver answers to a
-- request for the next buffer is an argument: an error, or the buffer with its metadata. The byte
-- count is a `u32`, which always fits the `usize` of a 64-bit target.
use faceauth_rs.Prelude.{
  ℕ, ◌+◌, ◌*◌, ◌≤◌, ◌<◌, ◌≡◌, ◌↔◌, subst, inl, inr, Result-cases, Bool, true, false, not, ◌||◌,
  Result, ok, err, nat_eq, ◌==◌, ltb, leb, List, length, take, length-take, take-skip, skip, ◌++◌,
  ap, ◌∙◌, ok_or, guard, ◌>>=◌, ◌>>◌, arith,
}
use faceauth_rs.Prelude.Word.{ℤ, pos, negsuc, try_unsigned, u64_mod, checked_add, checked_mul}
use faceauth_rs.Policy.{CaptureModality}
use faceauth_rs.Capture.{
  CaptureError, CapturedFrame, NegotiatedFormat, frame_timeout, corrupt_frame,
  non_monotonic_timestamp, frame_size_invalid, invalid_timestamp, io,
}

-- `timestamp_micros`
unfoldable pub to_timestamp_micros : ℤ → ℤ → Result CaptureError ℕ
to_timestamp_micros seconds microseconds = do
  s ← ok_or (try_unsigned seconds) invalid_timestamp
  u ← ok_or (try_unsigned microseconds) invalid_timestamp
  guard (not (leb 1000000 u)) invalid_timestamp
  scaled ← ok_or (checked_mul u64_mod s 1000000) invalid_timestamp
  ok_or (checked_add u64_mod scaled u) invalid_timestamp

-- `io::ErrorKind::TimedOut`, and any other error.
pub data StreamError : Type 0 where
  poll_timed_out : StreamError
  other : ℕ → StreamError

pub record BufferMetadata : Type 0 where
  pub is_error : Bool
  pub is_monotonic : Bool
  pub bytesused : ℕ
  pub seconds : ℤ
  pub microseconds : ℤ
  pub sequence : ℕ

pub record V4l2FrameStream : Type 0 where
  pub node : List ℕ
  pub modality : CaptureModality
  pub negotiated : NegotiatedFormat
  pub max_frame_bytes : ℕ

-- The `map_err` of `next_frame`
unfoldable pub stream_error : List ℕ → StreamError → CaptureError
stream_error node poll_timed_out = frame_timeout node
stream_error node (other e) = io e

-- `V4l2FrameStream::next_frame`, once the driver has answered
unfoldable pub take_frame :
    V4l2FrameStream → List ℕ → BufferMetadata → Result CaptureError CapturedFrame
take_frame stream buffer meta = do
  guard (not meta.is_error) (corrupt_frame stream.node)
  guard meta.is_monotonic (non_monotonic_timestamp stream.node)
  guard
      (not (
        (meta.bytesused == 0)
        || ltb (length buffer) meta.bytesused
        || ltb stream.max_frame_bytes meta.bytesused))
      (frame_size_invalid stream.node)
  at ← to_timestamp_micros meta.seconds meta.microseconds
  ok (record {
    summary = record {
      modality = stream.modality;
      timestamp_micros = at;
      sequence = meta.sequence;
      bytes = meta.bytesused;
      format = stream.negotiated;
    };
    data_bytes = take meta.bytesused buffer;
  })

unfoldable pub next_frame :
    V4l2FrameStream
    → Result StreamError (List ℕ × BufferMetadata)
    → Result CaptureError CapturedFrame
next_frame stream (err e) = err (stream_error stream.node e)
next_frame stream (ok (buffer, meta)) = take_frame stream buffer meta

-- The time in microseconds of a kernel timestamp with no negative part.
abbrev pub IsTimestamp : ℤ → ℤ → ℕ → Type 0
IsTimestamp (pos s) (pos u) at = (u < 1000000) × (at ≡ s * 1000000 + u) × (at < u64_mod)
IsTimestamp _ _ at = ⊥

-- A kernel timestamp is admitted exactly when both parts are not negative, the microseconds are
-- below a million and the sum fits a `u64`; then it is the time in microseconds.
pub timestamp_iff :
    (seconds microseconds : ℤ) (at : ℕ)
    → (to_timestamp_micros seconds microseconds ≡ ok at) ↔ IsTimestamp seconds microseconds at
unfolding to_timestamp_micros
timestamp_iff (pos s) (pos u) at = ground arith
timestamp_iff (pos s) (negsuc u) at = ground arith
timestamp_iff (negsuc s) (pos u) at = ground arith
timestamp_iff (negsuc s) (negsuc u) at = ground arith

-- What a delivered frame guarantees.
pub record IsSoundFrame (stream : V4l2FrameStream) (buffer : List ℕ) (meta : BufferMetadata)
    (frame : CapturedFrame) : Type 0 where
  pub intact : meta.is_error ≡ false
  pub monotonic : meta.is_monotonic ≡ true
  pub same_side : frame.summary.modality ≡ stream.modality
  pub numbered : frame.summary.sequence ≡ meta.sequence
  pub formatted : frame.summary.format ≡ stream.negotiated
  pub unused : List ℕ
  pub filled : buffer ≡ frame.data_bytes ++ unused
  pub counted : length frame.data_bytes ≡ frame.summary.bytes
  pub reported : frame.summary.bytes ≡ meta.bytesused
  pub not_empty : 0 < frame.summary.bytes
  pub bounded : frame.summary.bytes ≤ stream.max_frame_bytes
  pub stamped : IsTimestamp meta.seconds meta.microseconds frame.summary.timestamp_micros

take_frame-IsSoundFrame :
    (stream : V4l2FrameStream) (buffer : List ℕ) (meta : BufferMetadata) (frame : CapturedFrame)
    (at : ℕ)
    → to_timestamp_micros meta.seconds meta.microseconds ≡ ok at
    → take_frame stream buffer meta ≡ ok frame
    → IsSoundFrame stream buffer meta frame
unfolding take_frame
take_frame-IsSoundFrame stream buffer meta frame at timed h =
    let fits : meta.bytesused ≤ length buffer = ground arith in
    let size = length-take meta.bytesused buffer fits in
    let stamp = (timestamp_iff meta.seconds meta.microseconds at).0 timed in
    let same_time : at ≡ frame.summary.timestamp_micros = ground arith in
    (record {
      intact = ground arith;
      monotonic = ground arith;
      same_side = ground arith;
      numbered = ground arith;
      formatted = ground arith;
      unused = skip meta.bytesused buffer;
      filled =
          take-skip meta.bytesused buffer
          ∙ ap (λ l. l ++ skip meta.bytesused buffer) (ground arith);
      counted = ground (arith, size);
      reported = ground arith;
      not_empty = ground arith;
      bounded = ground arith;
      stamped = subst (λ x. IsTimestamp meta.seconds meta.microseconds x) same_time stamp;
    })

take_frame_late :
    (stream : V4l2FrameStream) (buffer : List ℕ) (meta : BufferMetadata) (frame : CapturedFrame)
    (e : CaptureError)
    → to_timestamp_micros meta.seconds meta.microseconds ≡ err e
    → take_frame stream buffer meta ≡ ok frame
    → ⊥
unfolding take_frame
take_frame_late stream buffer meta frame e failed h = ground arith

-- A frame that is delivered comes from an intact buffer with a monotonic timestamp; it has the
-- modality and the format of its stream and the sequence number of the buffer; its bytes are the
-- ones that the buffer begins with, as many as the driver reports, at least one and no more than
-- the stream admits; and its timestamp is that of the kernel.
pub next_frame-IsSoundFrame :
    (stream : V4l2FrameStream) (buffer : List ℕ) (meta : BufferMetadata) (frame : CapturedFrame)
    → next_frame stream (ok (buffer, meta)) ≡ ok frame
    → IsSoundFrame stream buffer meta frame
unfolding next_frame
next_frame-IsSoundFrame stream buffer meta frame h =
    elim (Result-cases (to_timestamp_micros meta.seconds meta.microseconds)) [
      | inl (at, timed) ↦ take_frame-IsSoundFrame stream buffer meta frame at timed h
      | inr (e, failed) ↦ absurd (take_frame_late stream buffer meta frame e failed h)
    ]
