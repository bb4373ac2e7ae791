-- ===== src/Policy/Pairing.antt =====
-- What `CapturePolicy::accepts` (crates/faceauth-core/src/policy.rs) lets through.
use faceauth_rs.Prelude.{ℕ, ◌+◌, ◌≤◌, ◌<◌, ◌≡◌, ◌↔◌, true, false, Option, none, some, ok, arith}
use faceauth_rs.Policy.{CapturePair, CapturePolicy, accepts}

-- The visible frame is absent and optional, or near the infrared one on either side.
abbrev IsPaired : CapturePolicy → ℕ → Option ℕ → Type 0
IsPaired p ir none = p.require_visible ≡ false
IsPaired p ir (some v) = (ir ≤ v + p.max_pair_skew_micros) × (v ≤ ir + p.max_pair_skew_micros)

pub record IsAdmissible (p : CapturePolicy) (pair : CapturePair) : Type 0 where
  pub needs_infrared : p.require_infrared ≡ true
  pub tolerates : 0 < p.max_pair_skew_micros
  pub paired : IsPaired p pair.infrared_timestamp_micros pair.visible_timestamp_micros

pub accepts-IsAdmissible :
    (p : CapturePolicy) (pair : CapturePair) → accepts p pair ≡ ok tt → IsAdmissible p pair
unfolding accepts
accepts-IsAdmissible p pair h = ground arith

pub IsAdmissible-accepts :
    (p : CapturePolicy) (pair : CapturePair) → IsAdmissible p pair → accepts p pair ≡ ok tt
unfolding accepts
IsAdmissible-accepts p pair h = ground arith

-- `accepts` returns Ok exactly for a policy that requires infrared with a positive tolerance and
-- a pair whose visible frame is either absent and not required, or at most that far from the
-- infrared one in either direction.
accepts_iff :
    (p : CapturePolicy) (pair : CapturePair) → (accepts p pair ≡ ok tt) ↔ IsAdmissible p pair
accepts_iff p pair = (accepts-IsAdmissible p pair, IsAdmissible-accepts p pair)
