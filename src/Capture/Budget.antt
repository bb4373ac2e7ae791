-- ===== src/Capture/Budget.antt =====
-- How many frames `capture_pair_cancellable` (crates/faceauth-capture/src/lib.rs) reads.
use faceauth_rs.Prelude.{
  ℕ, zero, suc, ◌+◌, ◌≤◌, Bool, Bool-cases, Result-cases, inl, inr, leb, arith, if◌then◌else◌,
}
use faceauth_rs.Prelude.Exec.{Exec, ◌>>=◌, ◌>>◌, bind_cost, reads, pure}
use faceauth_rs.Policy.{infrared, visible}
use faceauth_rs.Capture.{
  CaptureError, CapturedFrame, PairedFrames, PairingPolicy, Sources, Source, ensure_modality,
  validate_pairing, skew_of, check_cancelled, read_infrared, read_visible, replace_older,
  pair_frames, capture_pair_cancellable,
}

-- A source that counts how often it is asked.
abbrev pub counted : {S : Type 0} → Source S → Source (S × ℕ)
counted next (s, n) = let (r, s') = next s in (r, (s', n + 1))

abbrev pub Counting : Type 0 → Type 0 → Type 0 → Type 0
Counting I V C = Sources (I × ℕ) (V × ℕ) C

abbrev pub reads_so_far : {I V C : Type 0} → Counting I V C → ℕ
reads_so_far s = s.infrared_source.1 + s.visible_source.1

module _ {I V C : Type 0} (next_infrared : Source I) (next_visible : Source V)
    (should_cancel : C → Bool × C) where
  check_cancelled_reads :
      (s : Counting I V C)
      → reads_so_far
          (check_cancelled (counted next_infrared) (counted next_visible) should_cancel s).1
        ≤ reads_so_far s + 0
  unfolding check_cancelled
  check_cancelled_reads s = omega arith

  read_infrared_reads :
      (s : Counting I V C)
      → reads_so_far
          (read_infrared (counted next_infrared) (counted next_visible) should_cancel s).1
        ≤ reads_so_far s + 1
  unfolding read_infrared
  read_infrared_reads s = omega arith

  read_visible_reads :
      (s : Counting I V C)
      → reads_so_far (read_visible (counted next_infrared) (counted next_visible) should_cancel s).1
        ≤ reads_so_far s + 1
  unfolding read_visible
  read_visible_reads s = omega arith

  replace_older_reads :
      (ir vis : CapturedFrame) (s : Counting I V C)
      → reads_so_far
          (replace_older (counted next_infrared) (counted next_visible) should_cancel ir vis s).1
        ≤ reads_so_far s + 1
  unfolding replace_older read_infrared read_visible
  replace_older_reads ir vis s = ground arith

  -- The bound on the loop with `left` replacements.
  abbrev IsCheap : PairingPolicy → ℕ → Type 0
  IsCheap policy left =
      (ir vis : CapturedFrame) (s : Counting I V C)
      → reads_so_far
          (pair_frames (counted next_infrared) (counted next_visible) should_cancel policy left ir
            vis s).1
        ≤ reads_so_far s + left

  abbrev replaced :
      PairingPolicy
      → ℕ
      → CapturedFrame
      → CapturedFrame
      → Exec (Counting I V C) CaptureError PairedFrames
  replaced policy left ir vis = do
    frames ← replace_older (counted next_infrared) (counted next_visible) should_cancel ir vis
    pair_frames (counted next_infrared) (counted next_visible) should_cancel policy left frames.0
        frames.1

  replaced_reads :
      (policy : PairingPolicy) (left : ℕ) (ir vis : CapturedFrame) (s : Counting I V C)
      → IsCheap policy left
      → reads_so_far (replaced policy left ir vis s).1 ≤ reads_so_far s + suc left
  replaced_reads policy left ir vis s rest =
      bind_cost reads_so_far
        (replace_older (counted next_infrared) (counted next_visible) should_cancel ir vis)
        (λ frames.
          pair_frames (counted next_infrared) (counted next_visible) should_cancel policy left
            frames.0 frames.1)
        1 left (suc left) s (replace_older_reads ir vis s) (λ frames u. rest frames.0 frames.1 u)
        (omega arith)

  abbrev turn :
      PairingPolicy
      → ℕ
      → CapturedFrame
      → CapturedFrame
      → Exec (Counting I V C) CaptureError PairedFrames
  turn policy left ir vis =
      if leb (skew_of ir vis) policy.max_skew_micros
      then pure (record { infrared_frame = ir; visible_frame = vis })
      else (do
        check_cancelled (counted next_infrared) (counted next_visible) should_cancel
        replaced policy left ir vis)

  turn_reads :
      (policy : PairingPolicy) (left : ℕ) (ir vis : CapturedFrame) (s : Counting I V C)
      → IsCheap policy left
      → reads_so_far (turn policy left ir vis s).1 ≤ reads_so_far s + suc left
  turn_reads policy left ir vis s rest =
      elim (Bool-cases (leb (skew_of ir vis) policy.max_skew_micros)) [
        | inl near ↦ rw near (omega arith)
        | inr far ↦ rw far (
            bind_cost reads_so_far
              (check_cancelled (counted next_infrared) (counted next_visible) should_cancel)
              (λ _. replaced policy left ir vis) 0 (suc left) (suc left) s (check_cancelled_reads s)
              (λ _ u. replaced_reads policy left ir vis u rest) (omega arith))
      ]

  pair_frames-IsCheap : (policy : PairingPolicy) (left : ℕ) → IsCheap policy left
  unfolding pair_frames
  pair_frames-IsCheap policy zero ir vis s = ground (arith, check_cancelled_reads s)
  pair_frames-IsCheap policy (suc left) ir vis s =
      bind_cost reads_so_far
        (check_cancelled (counted next_infrared) (counted next_visible) should_cancel)
        (λ _. turn policy left ir vis) 0 (suc left) (suc left) s (check_cancelled_reads s)
        (λ _ t. turn_reads policy left ir vis t (pair_frames-IsCheap policy left)) (omega arith)

  -- `capture_pair_cancellable` from its modality checks on, and from its first frame on.
  abbrev from_frames :
      PairingPolicy
      → CapturedFrame
      → CapturedFrame
      → Exec (Counting I V C) CaptureError PairedFrames
  from_frames policy ir vis = do
    reads (λ _. ensure_modality ir infrared)
    reads (λ _. ensure_modality vis visible)
    pair_frames (counted next_infrared) (counted next_visible) should_cancel policy
        policy.max_replacements ir vis

  abbrev from_first :
      PairingPolicy → CapturedFrame → Exec (Counting I V C) CaptureError PairedFrames
  from_first policy ir = do
    check_cancelled (counted next_infrared) (counted next_visible) should_cancel
    vis ← read_visible (counted next_infrared) (counted next_visible) should_cancel
    from_frames policy ir vis

  from_frames_reads :
      (policy : PairingPolicy) (ir vis : CapturedFrame) (s : Counting I V C)
      → reads_so_far (from_frames policy ir vis s).1 ≤ reads_so_far s + policy.max_replacements
  from_frames_reads policy ir vis s = ground (
    arith,
    pair_frames-IsCheap policy policy.max_replacements ir vis s,
    Result-cases (ensure_modality ir infrared),
    Result-cases (ensure_modality vis visible),
  )

  from_first_reads :
      (policy : PairingPolicy) (ir : CapturedFrame) (s : Counting I V C)
      → reads_so_far (from_first policy ir s).1 ≤ reads_so_far s + (1 + policy.max_replacements)
  from_first_reads policy ir s =
      bind_cost reads_so_far
        (check_cancelled (counted next_infrared) (counted next_visible) should_cancel)
        (λ _.
          read_visible (counted next_infrared) (counted next_visible) should_cancel
          >>= from_frames policy ir)
        0 (1 + policy.max_replacements) (1 + policy.max_replacements) s (check_cancelled_reads s)
        (λ _ t.
          bind_cost reads_so_far
            (read_visible (counted next_infrared) (counted next_visible) should_cancel)
            (from_frames policy ir) 1 policy.max_replacements (1 + policy.max_replacements) t
            (read_visible_reads t) (λ vis u. from_frames_reads policy ir vis u) (omega arith))
        (omega arith)

  -- Whatever the sources deliver and the signal says, and whether a pair is returned or not, the
  -- two sources together are asked for at most two frames more than the policy's number of
  -- replacements.
  pub reads_bound :
      (policy : PairingPolicy) (s : Counting I V C)
      → reads_so_far
          (capture_pair_cancellable
            (counted next_infrared)
            (counted next_visible)
            should_cancel
            policy
            s).1
        ≤ reads_so_far s + (2 + policy.max_replacements)
  unfolding capture_pair_cancellable
  reads_bound policy s =
      let most = 2 + policy.max_replacements in
      let first =
        read_infrared (counted next_infrared) (counted next_visible) should_cancel
        >>= from_first policy in
      bind_cost reads_so_far (reads (λ _. validate_pairing policy))
        (λ _. check_cancelled (counted next_infrared) (counted next_visible) should_cancel >> first)
        0 most most s (omega arith)
        (λ _ t.
          bind_cost reads_so_far
            (check_cancelled (counted next_infrared) (counted next_visible) should_cancel)
            (λ _. first) 0 most most t (check_cancelled_reads t)
            (λ _ u.
              bind_cost reads_so_far
                (read_infrared (counted next_infrared) (counted next_visible) should_cancel)
                (from_first policy) 1 (1 + policy.max_replacements) most u (read_infrared_reads u)
                (λ ir v. from_first_reads policy ir v) (omega arith))
            (omega arith))
        (omega arith)
