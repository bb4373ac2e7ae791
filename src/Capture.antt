-- ===== src/Capture.antt =====
-- crates/faceauth-capture/src/lib.rs: the settings of a camera stream, the frames it delivers,
-- and the pairing of an infrared with a visible frame. The V4L2 library is outside: what it
-- answers is an argument. A frame source is any state with a `next_frame`, and the cancellation
-- signal any state with a poll, so that both may answer differently each time.
pub mod Driver
pub mod Pairing
pub mod Budget
mod Tests
use faceauth_rs.Prelude.{
  ℕ, zero, suc, ◌*◌, Bool, true, false, not, ◌&&◌, ◌||◌, some, none, Result, ok, err, Eq, nat_eq,
  ◌==◌, if◌then◌else◌, ltb, leb, within, List,
}
use faceauth_rs.Prelude as Shared
use faceauth_rs.Prelude.Exec.{Exec, ◌>>=◌, ◌>>◌, pure, fail, reads, guard}
use faceauth_rs.Prelude.Word.{u64_mod, checked_add, checked_mul, abs_diff}
use faceauth_rs.Policy.{CaptureModality, infrared, visible, modality_eq, CapturePair}

pub data PixelFormat : Type 0 where
  gray8 yuyv mjpeg : PixelFormat

-- A node of the file system is its path, in bytes; an I/O error is its number.
pub data CaptureError : Type 0 where
  invalid_spec cancelled negotiated_format_mismatch negotiated_frame_rate_mismatch : CaptureError
  frame_timeout corrupt_frame non_monotonic_timestamp frame_size_invalid : List ℕ → CaptureError
  invalid_timestamp : CaptureError
  wrong_modality : CaptureModality → CaptureModality → CaptureError
  pairing_budget_exhausted : ℕ → CaptureError
  io : ℕ → CaptureError

pub record CaptureSpec : Type 0 where
  pub width : ℕ
  pub height : ℕ
  pub pixel_format : PixelFormat
  pub frames_per_second : ℕ
  pub buffer_count : ℕ
  pub warmup_frames : ℕ
  pub frame_timeout_millis : ℕ
  pub max_frame_bytes : ℕ

-- The `match modality` of `CaptureSpec::validate`
unfoldable pub valid_format : CaptureModality → PixelFormat → Bool
valid_format infrared gray8 = true
valid_format infrared _ = false
valid_format visible gray8 = false
valid_format visible _ = true

unfoldable pub validate_spec : CaptureSpec → CaptureModality → Result CaptureError (Unit {0})
validate_spec s modality =
    if (s.width == 0)
      || (s.height == 0)
      || (s.frames_per_second == 0)
      || not (within 2 16 s.buffer_count)
      || ltb 30 s.warmup_frames
      || (s.frame_timeout_millis == 0)
      || (s.max_frame_bytes == 0)
      || not (valid_format modality s.pixel_format)
    then err invalid_spec
    else ok tt

pub record NegotiatedFormat : Type 0 where
  pub width : ℕ
  pub height : ℕ
  pub pixel_format : PixelFormat
  pub frames_per_second : ℕ

pub record FrameSummary : Type 0 where
  pub modality : CaptureModality
  pub timestamp_micros : ℕ
  pub sequence : ℕ
  pub bytes : ℕ
  pub format : NegotiatedFormat

pub record CapturedFrame : Type 0 where
  pub summary : FrameSummary
  pub data_bytes : List ℕ

pub record PairedFrames : Type 0 where
  pub infrared_frame : CapturedFrame
  pub visible_frame : CapturedFrame

-- `PairedFrames::timing`
unfoldable pub timing : PairedFrames → CapturePair
timing pair = record {
  infrared_timestamp_micros = pair.infrared_frame.summary.timestamp_micros;
  visible_timestamp_micros = some pair.visible_frame.summary.timestamp_micros;
}

pub record PairingPolicy : Type 0 where
  pub max_skew_micros : ℕ
  pub max_replacements : ℕ

unfoldable pub validate_pairing : PairingPolicy → Result CaptureError (Unit {0})
validate_pairing p =
    if (p.max_skew_micros == 0) || (p.max_replacements == 0) then err invalid_spec else ok tt

unfoldable pub ensure_modality : CapturedFrame → CaptureModality → Result CaptureError (Unit {0})
ensure_modality frame expected =
    if frame.summary.modality == expected
    then ok tt
    else err (wrong_modality expected frame.summary.modality)

unfoldable pub skew_of : CapturedFrame → CapturedFrame → ℕ
skew_of infrared_frame visible_frame =
    abs_diff infrared_frame.summary.timestamp_micros visible_frame.summary.timestamp_micros

-- The two sources and the cancellation signal, each in its present state.
pub record Sources (I V C : Type 0) : Type 0 where
  pub infrared_source : I
  pub visible_source : V
  pub signal : C

abbrev pub Source : Type 0 → Type 0
Source S = S → Result CaptureError CapturedFrame × S

module _ {I V C : Type 0} (next_infrared : Source I) (next_visible : Source V)
    (should_cancel : C → Bool × C) where
  abbrev pub Capture : Type 0 → Type 0
  Capture A = Exec (Sources I V C) CaptureError A

  unfoldable pub check_cancelled : Capture (Unit {0})
  check_cancelled s =
      let (asked, signal) = should_cancel s.signal in
      (if asked then err cancelled else ok tt, record s { signal = signal })

  -- `infrared.next_frame()?`
  unfoldable pub read_infrared : Capture CapturedFrame
  read_infrared s =
      let (r, next) = next_infrared s.infrared_source in (r, record s { infrared_source = next })

  unfoldable pub read_visible : Capture CapturedFrame
  read_visible s =
      let (r, next) = next_visible s.visible_source in (r, record s { visible_source = next })

  -- The older frame is replaced by a new one of its source.
  unfoldable pub replace_older :
      CapturedFrame → CapturedFrame → Capture (CapturedFrame × CapturedFrame)
  replace_older ir vis =
      if ltb ir.summary.timestamp_micros vis.summary.timestamp_micros
      then (do
        newer ← read_infrared
        reads (λ _. ensure_modality newer infrared)
        pure (newer, vis))
      else (do newer ← read_visible; reads (λ _. ensure_modality newer visible); pure (ir, newer))

  -- The `for` loop of `capture_pair_cancellable`, on the number of replacements that are left; at
  -- 0 the source's `replacement == policy.max_replacements` holds, so that the `Err` after the
  -- loop is never reached.
  unfoldable pub pair_frames :
      PairingPolicy → ℕ → CapturedFrame → CapturedFrame → Capture PairedFrames
  pair_frames policy zero ir vis = do
    check_cancelled
    (if leb (skew_of ir vis) policy.max_skew_micros
        then pure (record { infrared_frame = ir; visible_frame = vis })
        else fail (pairing_budget_exhausted (skew_of ir vis)))
  pair_frames policy (suc left) ir vis = do
    check_cancelled
    (if leb (skew_of ir vis) policy.max_skew_micros
        then pure (record { infrared_frame = ir; visible_frame = vis })
        else (do
          check_cancelled
          frames ← replace_older ir vis
          pair_frames policy left frames.0 frames.1))

  unfoldable pub capture_pair_cancellable : PairingPolicy → Capture PairedFrames
  capture_pair_cancellable policy = do
    reads (λ _. validate_pairing policy)
    check_cancelled
    ir ← read_infrared
    check_cancelled
    vis ← read_visible
    reads (λ _. ensure_modality ir infrared)
    reads (λ _. ensure_modality vis visible)
    pair_frames policy policy.max_replacements ir vis

-- `capture_pair`: the signal is `|| false`.
unfoldable pub capture_pair :
    {I V : Type 0}
    → Source I
    → Source V
    → PairingPolicy
    → Exec (Sources I V (Unit {0})) CaptureError PairedFrames
capture_pair next_infrared next_visible =
    capture_pair_cancellable next_infrared next_visible (λ u. (false, u))
