-- ===== src/Capture/Pairing.antt =====
-- What a captured pair guarantees (`capture_pair_cancellable` of crates/faceauth-capture/src/lib.rs).
use faceauth_rs.Prelude.{
  ℕ, zero, suc, ◌≤◌, ◌<◌, ◌≡◌, inl, inr, ◌⊎◌, refl, Bool, true, false, ok, err, Result, Bool-cases,
  leb, arith,
}
use faceauth_rs.Policy.{
  CaptureModality, infrared, visible, CapturePolicy, accepts, modality_beq_iff,
}
use faceauth_rs.Policy.Pairing.{IsAdmissible-accepts}
use faceauth_rs.Capture.{
  CaptureError, CapturedFrame, PairedFrames, PairingPolicy, Sources, Source, timing,
  ensure_modality, validate_pairing, skew_of, pair_frames, replace_older, read_infrared,
  read_visible, check_cancelled, capture_pair_cancellable,
}

-- A pair that is usable as one observation under the policy.
pub record IsAligned (policy : PairingPolicy) (pair : PairedFrames) : Type 0 where
  pub infrared_side : pair.infrared_frame.summary.modality ≡ infrared
  pub visible_side : pair.visible_frame.summary.modality ≡ visible
  pub skew : skew_of pair.infrared_frame pair.visible_frame ≤ policy.max_skew_micros

ensure_modality_ok :
    (frame : CapturedFrame) (expected : CaptureModality)
    → ensure_modality frame expected ≡ ok tt
    → frame.summary.modality ≡ expected
unfolding ensure_modality
ensure_modality_ok frame expected h =
    ground (arith, modality_beq_iff frame.summary.modality expected)

validate_pairing_ok :
    (policy : PairingPolicy)
    → validate_pairing policy ≡ ok tt
    → (0 < policy.max_skew_micros) × (0 < policy.max_replacements)
unfolding validate_pairing
validate_pairing_ok policy h = ground arith

module _ {I V C : Type 0} (next_infrared : Source I) (next_visible : Source V)
    (should_cancel : C → Bool × C) where
  replace_older_sides :
      (ir vis : CapturedFrame) (s : Sources I V C) (frames : CapturedFrame × CapturedFrame)
      → ir.summary.modality ≡ infrared
      → vis.summary.modality ≡ visible
      → (replace_older next_infrared next_visible should_cancel ir vis s).0 ≡ ok frames
      → (frames.0.summary.modality ≡ infrared) × (frames.1.summary.modality ≡ visible)
  unfolding replace_older read_infrared read_visible
  replace_older_sides ir vis s frames hi hv h =
      sides (next_infrared s.infrared_source).0 refl (next_visible s.visible_source).0 refl
    where
      sides :
          (x : Result CaptureError CapturedFrame)
          → (next_infrared s.infrared_source).0 ≡ x
          → (y : Result CaptureError CapturedFrame) → (next_visible s.visible_source).0 ≡ y
          → (frames.0.summary.modality ≡ infrared) × (frames.1.summary.modality ≡ visible)
      sides (ok a) e (ok b) k =
          ground (arith, ensure_modality_ok a infrared, ensure_modality_ok b visible)
      sides (ok a) e (err b) k = ground (arith, ensure_modality_ok a infrared)
      sides (err a) e (ok b) k = ground (arith, ensure_modality_ok b visible)
      sides (err a) e (err b) k = ground arith

  -- The present frames are a pair: the loop ends with them.
  abbrev pub Settles : PairingPolicy → CapturedFrame → CapturedFrame → PairedFrames → Type 0
  Settles policy ir vis pair =
      (pair ≡ record { infrared_frame = ir; visible_frame = vis })
      × (skew_of ir vis ≤ policy.max_skew_micros)

  pair_frames_last :
      (policy : PairingPolicy) (ir vis : CapturedFrame) (s : Sources I V C) (pair : PairedFrames)
      → (pair_frames next_infrared next_visible should_cancel policy 0 ir vis s).0 ≡ ok pair
      → Settles policy ir vis pair
  unfolding pair_frames
  pair_frames_last policy ir vis s pair h =
      settle (check_cancelled next_infrared next_visible should_cancel s) refl
    where
      settle :
          (x : Result CaptureError (Unit {0}) × Sources I V C)
          → check_cancelled next_infrared next_visible should_cancel s ≡ x
          → Settles policy ir vis pair
      settle (ok tt, t) e = ground arith
      settle (err x, t) e = ground arith

  -- The loop goes on with a newer frame in the place of the older.
  abbrev Replaces : PairingPolicy → ℕ → CapturedFrame → CapturedFrame → PairedFrames → Type 0
  Replaces policy left ir vis pair =
      (frames : CapturedFrame × CapturedFrame) × (u : Sources I V C) × (v : Sources I V C)
      × ((replace_older next_infrared next_visible should_cancel ir vis u).0 ≡ ok frames)
      × ((pair_frames next_infrared next_visible should_cancel policy left frames.0 frames.1 v).0
          ≡ ok pair)

  pair_frames_next :
      (policy : PairingPolicy) (left : ℕ) (ir vis : CapturedFrame) (s : Sources I V C)
      (pair : PairedFrames)
      → (pair_frames next_infrared next_visible should_cancel policy (suc left) ir vis s).0
        ≡ ok pair
      → Settles policy ir vis pair ⊎ Replaces policy left ir vis pair
  unfolding pair_frames
  pair_frames_next policy left ir vis s pair h =
      settle (check_cancelled next_infrared next_visible should_cancel s) refl
    where
      replaced :
          (t u : Sources I V C)
          → check_cancelled next_infrared next_visible should_cancel s ≡ (ok tt, t)
          → leb (skew_of ir vis) policy.max_skew_micros ≡ false
          → check_cancelled next_infrared next_visible should_cancel t ≡ (ok tt, u)
          → (z : Result CaptureError (CapturedFrame × CapturedFrame) × Sources I V C)
          → replace_older next_infrared next_visible should_cancel ir vis u ≡ z
          → Settles policy ir vis pair ⊎ Replaces policy left ir vis pair
      replaced t u e far c (ok frames, v) r = inr (frames, u, v, ground arith, ground arith)
      replaced t u e far c (err x, v) r = ground arith

      turn :
          (t : Sources I V C)
          → check_cancelled next_infrared next_visible should_cancel s ≡ (ok tt, t)
          → leb (skew_of ir vis) policy.max_skew_micros ≡ false
          → (y : Result CaptureError (Unit {0}) × Sources I V C)
          → check_cancelled next_infrared next_visible should_cancel t ≡ y
          → Settles policy ir vis pair ⊎ Replaces policy left ir vis pair
      turn t e far (ok tt, u) c =
          replaced t u e far c (replace_older next_infrared next_visible should_cancel ir vis u)
            refl
      turn t e far (err x, u) c = ground arith

      settle :
          (x : Result CaptureError (Unit {0}) × Sources I V C)
          → check_cancelled next_infrared next_visible should_cancel s ≡ x
          → Settles policy ir vis pair ⊎ Replaces policy left ir vis pair
      settle (ok tt, t) e = elim (Bool-cases (leb (skew_of ir vis) policy.max_skew_micros)) [
        | inl near ↦ inl (ground arith)
        | inr far ↦ turn t e far (check_cancelled next_infrared next_visible should_cancel t) refl
      ]
      settle (err x, t) e = ground arith

  settled :
      (policy : PairingPolicy) (ir vis : CapturedFrame) (pair : PairedFrames)
      → ir.summary.modality ≡ infrared
      → vis.summary.modality ≡ visible
      → Settles policy ir vis pair
      → IsAligned policy pair
  settled policy ir vis pair hi hv (e, near) =
      rw e (record { infrared_side = hi; visible_side = hv; skew = near })

  pair_frames-IsAligned :
      (policy : PairingPolicy) (left : ℕ) (ir vis : CapturedFrame) (s : Sources I V C)
      (pair : PairedFrames)
      → ir.summary.modality ≡ infrared
      → vis.summary.modality ≡ visible
      → (pair_frames next_infrared next_visible should_cancel policy left ir vis s).0 ≡ ok pair
      → IsAligned policy pair
  pair_frames-IsAligned policy zero ir vis s pair hi hv h =
      settled policy ir vis pair hi hv (pair_frames_last policy ir vis s pair h)
  pair_frames-IsAligned policy (suc left) ir vis s pair hi hv h =
      elim (pair_frames_next policy left ir vis s pair h) [
        | inl done ↦ settled policy ir vis pair hi hv done
        | inr (frames, u, v, r, k) ↦
            let (ki, kv) = replace_older_sides ir vis u frames hi hv r in
            pair_frames-IsAligned policy left frames.0 frames.1 v pair ki kv k
      ]

  -- The reads before the loop, when the loop is reached and succeeds.
  abbrev Prepared : PairingPolicy → PairedFrames → Type 0
  Prepared policy pair =
      (ir : CapturedFrame) × (vis : CapturedFrame) × (t : Sources I V C) × (validate_pairing policy
        ≡ ok tt)
      × (ensure_modality ir infrared ≡ ok tt)
      × (ensure_modality vis visible ≡ ok tt)
      × ((pair_frames next_infrared next_visible should_cancel policy policy.max_replacements ir vis
            t).0
          ≡ ok pair)

  capture-Prepared :
      (policy : PairingPolicy) (s : Sources I V C) (pair : PairedFrames)
      → (capture_pair_cancellable next_infrared next_visible should_cancel policy s).0 ≡ ok pair
      → Prepared policy pair
  unfolding capture_pair_cancellable
  capture-Prepared policy s pair h = valid (validate_pairing policy) refl
    where
      checked :
          (t u v w : Sources I V C) (ir vis : CapturedFrame)
          → validate_pairing policy ≡ ok tt
          → check_cancelled next_infrared next_visible should_cancel s ≡ (ok tt, t)
          → read_infrared next_infrared next_visible should_cancel t ≡ (ok ir, u)
          → check_cancelled next_infrared next_visible should_cancel u ≡ (ok tt, v)
          → read_visible next_infrared next_visible should_cancel v ≡ (ok vis, w)
          → (x : Result CaptureError (Unit {0})) → ensure_modality ir infrared ≡ x
          → (y : Result CaptureError (Unit {0})) → ensure_modality vis visible ≡ y
          → Prepared policy pair
      checked t u v w ir vis e0 e1 e2 e3 e4 (ok a) e5 (ok b) e6 =
          (ir, vis, w, e0, e5, e6, ground arith)
      checked t u v w ir vis e0 e1 e2 e3 e4 (ok a) e5 (err y) e6 = ground arith
      checked t u v w ir vis e0 e1 e2 e3 e4 (err x) e5 y e6 = ground arith

      looked :
          (t u v : Sources I V C) (ir : CapturedFrame)
          → validate_pairing policy ≡ ok tt
          → check_cancelled next_infrared next_visible should_cancel s ≡ (ok tt, t)
          → read_infrared next_infrared next_visible should_cancel t ≡ (ok ir, u)
          → check_cancelled next_infrared next_visible should_cancel u ≡ (ok tt, v)
          → (x : Result CaptureError CapturedFrame × Sources I V C)
          → read_visible next_infrared next_visible should_cancel v ≡ x
          → Prepared policy pair
      looked t u v ir e0 e1 e2 e3 (ok vis, w) e4 =
          checked t u v w ir vis e0 e1 e2 e3 e4 (ensure_modality ir infrared) refl
            (ensure_modality vis visible) refl
      looked t u v ir e0 e1 e2 e3 (err x, w) e4 = ground arith

      going :
          (t u : Sources I V C) (ir : CapturedFrame)
          → validate_pairing policy ≡ ok tt
          → check_cancelled next_infrared next_visible should_cancel s ≡ (ok tt, t)
          → read_infrared next_infrared next_visible should_cancel t ≡ (ok ir, u)
          → (x : Result CaptureError (Unit {0}) × Sources I V C)
          → check_cancelled next_infrared next_visible should_cancel u ≡ x
          → Prepared policy pair
      going t u ir e0 e1 e2 (ok a, v) e3 =
          looked t u v ir e0 e1 e2 e3 (read_visible next_infrared next_visible should_cancel v) refl
      going t u ir e0 e1 e2 (err x, v) e3 = ground arith

      begun :
          (t : Sources I V C)
          → validate_pairing policy ≡ ok tt
          → check_cancelled next_infrared next_visible should_cancel s ≡ (ok tt, t)
          → (x : Result CaptureError CapturedFrame × Sources I V C)
          → read_infrared next_infrared next_visible should_cancel t ≡ x
          → Prepared policy pair
      begun t e0 e1 (ok ir, u) e2 =
          going t u ir e0 e1 e2 (check_cancelled next_infrared next_visible should_cancel u) refl
      begun t e0 e1 (err x, u) e2 = ground arith

      admitted :
          validate_pairing policy ≡ ok tt
          → (x : Result CaptureError (Unit {0}) × Sources I V C)
          → check_cancelled next_infrared next_visible should_cancel s ≡ x
          → Prepared policy pair
      admitted e0 (ok a, t) e1 =
          begun t e0 e1 (read_infrared next_infrared next_visible should_cancel t) refl
      admitted e0 (err x, t) e1 = ground arith

      valid :
          (x : Result CaptureError (Unit {0})) → validate_pairing policy ≡ x → Prepared policy pair
      valid (ok a) e0 =
          admitted e0 (check_cancelled next_infrared next_visible should_cancel s) refl
      valid (err x) e0 = ground arith

  -- A pair is returned only by a policy with a positive tolerance and a positive budget, and it is
  -- an infrared and a visible frame, in this order, no further apart than the policy tolerates;
  -- whatever the sources and the cancellation signal do.
  pub capture-IsAligned :
      (policy : PairingPolicy) (s : Sources I V C) (pair : PairedFrames)
      → (capture_pair_cancellable next_infrared next_visible should_cancel policy s).0 ≡ ok pair
      → IsAligned policy pair × (0 < policy.max_skew_micros) × (0 < policy.max_replacements)
  capture-IsAligned policy s pair h =
      let (ir, vis, t, valid, hi, hv, k) = capture-Prepared policy s pair h in
      let (some_skew, some_budget) = validate_pairing_ok policy valid in
      (
        pair_frames-IsAligned policy policy.max_replacements ir vis t pair
            (ensure_modality_ok ir infrared hi) (ensure_modality_ok vis visible hv) k,
        some_skew,
        some_budget,
      )

  -- A captured pair is accepted by every core capture policy that requires infrared and tolerates
  -- at least the skew that the pairing policy does.
  pub capture-accepts :
      (policy : PairingPolicy) (core : CapturePolicy) (s : Sources I V C) (pair : PairedFrames)
      → (capture_pair_cancellable next_infrared next_visible should_cancel policy s).0 ≡ ok pair
      → core.require_infrared ≡ true
      → policy.max_skew_micros ≤ core.max_pair_skew_micros
      → accepts core (timing pair) ≡ ok tt
  unfolding timing skew_of
  capture-accepts policy core s pair h infrared_too wider =
      let (aligned, some_skew, some_budget) = capture-IsAligned policy s pair h in
      IsAdmissible-accepts core (timing pair) (record {
        needs_infrared = infrared_too;
        tolerates = omega arith;
        paired = ground (arith, aligned.skew);
      })
