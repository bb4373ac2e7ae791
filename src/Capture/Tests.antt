-- ===== src/Capture/Tests.antt =====
-- Frame pairing over recorded sources, which deliver the frames of a list.
use faceauth_rs.Prelude.{
  ℕ, zero, suc, ◌+◌, ◌≤◌, ◌≡◌, refl, Bool, true, false, List, [], ◌∷◌, ok, err, arith,
}
use faceauth_rs.Prelude.Word.{pos}
use faceauth_rs.Policy.{CaptureModality, infrared, visible, accepts, default_capture_policy}
use faceauth_rs.Capture.{
  NegotiatedFormat, CapturedFrame, PairedFrames, PairingPolicy, Sources, Source, gray8, cancelled,
  invalid_spec, timing, validate_pairing, ensure_modality, skew_of, check_cancelled, read_infrared,
  read_visible, replace_older, pair_frames, capture_pair_cancellable,
}
use faceauth_rs.Capture.Driver.{
  BufferMetadata, V4l2FrameStream, to_timestamp_micros, take_frame, next_frame, IsSoundFrame,
  next_frame-IsSoundFrame,
}
use faceauth_rs.Capture.Pairing.{capture-accepts}
use faceauth_rs.Capture.Budget.{counted, reads_so_far, Counting, reads_bound}

abbrev format : NegotiatedFormat
format = record { width = 640; height = 360; pixel_format = gray8; frames_per_second = 15 }

abbrev frame_at : CaptureModality → ℕ → CapturedFrame
frame_at side at = record {
  summary = record {
    modality = side;
    timestamp_micros = at;
    sequence = 1;
    bytes = 1;
    format = format;
  };
  data_bytes = 0 ∷ [];
}

abbrev recorded : CaptureModality → Source (List ℕ)
recorded side [] = (err invalid_spec, [])
recorded side (at ∷ ats) = (ok (frame_at side at), ats)

-- A signal that is polled `n` times before it asks for cancellation.
abbrev after_polls : ℕ → Bool × ℕ
after_polls zero = (true, zero)
after_polls (suc n) = (false, n)

abbrev policy : PairingPolicy
policy = record { max_skew_micros = 20; max_replacements = 2 }

abbrev start : Sources (List ℕ) (List ℕ) ℕ
start = record { infrared_source = 100 ∷ 160 ∷ []; visible_source = 150 ∷ []; signal = 9 }

abbrev pair : PairedFrames
pair = record { infrared_frame = frame_at infrared 160; visible_frame = frame_at visible 150 }

captured_pair :
    (capture_pair_cancellable (recorded infrared) (recorded visible) after_polls policy start).0
    ≡ ok pair
unfolding capture_pair_cancellable pair_frames replace_older check_cancelled read_infrared
    read_visible validate_pairing ensure_modality skew_of
captured_pair = refl

captured_cancelled :
    (capture_pair_cancellable
      (recorded infrared)
      (recorded visible)
      after_polls
      policy
      (record start { signal = 3 })).0
    ≡ err cancelled
unfolding capture_pair_cancellable pair_frames replace_older check_cancelled read_infrared
    read_visible validate_pairing ensure_modality skew_of
captured_cancelled = refl

capture-accepts_example : accepts default_capture_policy (timing pair) ≡ ok tt
capture-accepts_example =
    capture-accepts (recorded infrared) (recorded visible) after_polls policy default_capture_policy
      start pair captured_pair refl (omega arith)

abbrev counting : Counting (List ℕ) (List ℕ) ℕ
counting = record {
  infrared_source = (100 ∷ 160 ∷ [], 0);
  visible_source = (150 ∷ [], 0);
  signal = 9;
}

reads_bound_example :
    reads_so_far
      (capture_pair_cancellable
        (counted (recorded infrared))
        (counted (recorded visible))
        after_polls
        policy
        counting).1
    ≤ reads_so_far counting + (2 + policy.max_replacements)
reads_bound_example = reads_bound (recorded infrared) (recorded visible) after_polls policy counting

abbrev stream : V4l2FrameStream
stream = record { node = []; modality = infrared; negotiated = format; max_frame_bytes = 4 }

abbrev metadata : BufferMetadata
metadata = record {
  is_error = false;
  is_monotonic = true;
  bytesused = 2;
  seconds = pos 3;
  microseconds = pos 20;
  sequence = 6;
}

abbrev delivered : CapturedFrame
delivered = record {
  summary = record {
    modality = infrared;
    timestamp_micros = 3000020;
    sequence = 6;
    bytes = 2;
    format = format;
  };
  data_bytes = 7 ∷ 8 ∷ [];
}

next_frame_delivers : next_frame stream (ok (7 ∷ 8 ∷ 9 ∷ [], metadata)) ≡ ok delivered
unfolding next_frame take_frame to_timestamp_micros
next_frame_delivers = refl

next_frame-IsSoundFrame_example : IsSoundFrame stream (7 ∷ 8 ∷ 9 ∷ []) metadata delivered
next_frame-IsSoundFrame_example =
    next_frame-IsSoundFrame stream (7 ∷ 8 ∷ 9 ∷ []) metadata delivered next_frame_delivers
