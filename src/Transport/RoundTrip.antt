-- ===== src/Transport/RoundTrip.antt =====
-- What one side writes, the other reads (crates/faceauth-transport/src/lib.rs).
use mathlib.Core.List.{append-nil}
use faceauth_rs.Prelude.{
  take-append, skip-append, ℕ, ◌≤◌, ◌<◌, ◌≡◌, inl, inr, refl, ap, ◌∙◌, Bool, true, false, Option,
  some, ok, Result-cases, Option-cases, List, [], ◌++◌, length, ltb, nat_eq, ◌==◌, leb, le→leb,
  length-append, arith,
}
use faceauth_rs.Prelude.Word.{u32_mod}
use faceauth_rs.Protocol.{Envelope, current, validate_version}
use faceauth_rs.Transport.{TransportConfig}
use faceauth_rs.Transport.Framing.{
  Socket, to_be_bytes, from-to_be_bytes, read_exact, write_all, read_message, encode_frame,
  write_message,
}

abbrev pub carrying : List ℕ → Bool → Socket
carrying bytes w = record { in_flight = bytes; writable = w }

read_exact_prefix :
    (xs rest : List ℕ) (w : Bool)
    → read_exact (length xs) (carrying (xs ++ rest) w) ≡ (ok xs, carrying rest w)
unfolding read_exact
read_exact_prefix xs rest w =
    let enough : leb (length xs) (length (xs ++ rest)) ≡ true =
      le→leb _ _ (omega (arith, length-append xs rest)) in
    rw (enough, take-append xs rest, skip-append xs rest) refl

read_header :
    (n : ℕ) (rest : List ℕ) (w : Bool)
    → read_exact 4 (carrying (to_be_bytes n ++ rest) w) ≡ (ok (to_be_bytes n), carrying rest w)
unfolding to_be_bytes
read_header n rest w = read_exact_prefix (to_be_bytes n) rest w

module _ {A : Type 0} (to_vec : Envelope A → Option (List ℕ))
    (from_slice : List ℕ → Option (Envelope A)) where
  -- What the frame of a message is, once it is admitted.
  abbrev IsFrame : TransportConfig → A → List ℕ → Type 0
  IsFrame c message encoded =
      (to_vec (current message) ≡ some encoded)
      × (0 < length encoded)
      × (length encoded ≤ c.max_message_bytes)
      × (length encoded < u32_mod)

  encode_frame-IsFrame :
      (c : TransportConfig) (message : A) (encoded : List ℕ)
      → encode_frame to_vec from_slice c message ≡ ok encoded
      → IsFrame c message encoded
  unfolding encode_frame
  encode_frame-IsFrame c message encoded h = elim (Option-cases (to_vec (current message))) [
    | inl e ↦ absurd (ground arith)
    | inr (v, e) ↦
        let same : v ≡ encoded = ground arith in
        (e ∙ ap some same, ground arith, ground arith, ground arith)
  ]

  write_message_sends :
      (c : TransportConfig) (message : A) (w : Bool)
      → (write_message to_vec from_slice c message (carrying [] w)).0 ≡ ok tt
      → (encoded : List ℕ) × (encode_frame to_vec from_slice c message ≡ ok encoded)
        × ((write_message to_vec from_slice c message (carrying [] w)).1
            ≡ carrying (to_be_bytes (length encoded) ++ (encoded ++ [])) w)
  unfolding write_message write_all
  write_message_sends c message false h =
      elim (Result-cases (encode_frame to_vec from_slice c message)) [
        | inl (encoded, e) ↦ absurd (ground arith)
        | inr (x, e) ↦ absurd (ground arith)
      ]
  write_message_sends c message true h =
      elim (Result-cases (encode_frame to_vec from_slice c message)) [
        | inl (encoded, e) ↦ (encoded, e, ground (arith, append-nil encoded))
        | inr (x, e) ↦ absurd (ground arith)
      ]

  read_frame :
      (c : TransportConfig) (message : A) (encoded rest : List ℕ) (w : Bool)
      → IsFrame c message encoded
      → from_slice encoded ≡ some (current message)
      → read_message to_vec from_slice c
          (carrying (to_be_bytes (length encoded) ++ (encoded ++ rest)) w)
        ≡ (ok (current message), carrying rest w)
  unfolding read_message current validate_version
  read_frame c message encoded rest w (codec, some_bytes, fits, short) back =
      let not_empty : (length encoded == 0) ≡ false = ground arith in
      let small : ltb c.max_message_bytes (length encoded) ≡ false = ground arith in
      ground (
        arith,
        read_header (length encoded) (encoded ++ rest) w,
        from-to_be_bytes (length encoded) short,
        not_empty,
        small,
        read_exact_prefix encoded rest w,
        back,
      )

  -- A message that one side writes to an idle socket is what the other side, whose bound on
  -- messages is no smaller, then reads, and the socket is idle again; provided that decoding is
  -- the inverse of encoding.
  pub read-write_message :
      (inverse : (e : Envelope A) (b : List ℕ) → to_vec e ≡ some b → from_slice b ≡ some e)
      (sender receiver : TransportConfig) (message : A) (w : Bool)
      → sender.max_message_bytes ≤ receiver.max_message_bytes
      → (write_message to_vec from_slice sender message (carrying [] w)).0 ≡ ok tt
      → read_message to_vec from_slice receiver
          (write_message to_vec from_slice sender message (carrying [] w)).1
        ≡ (ok (current message), carrying [] w)
  read-write_message inverse sender receiver message w wider h =
      let (encoded, framed, sent) = write_message_sends sender message w h in
      let (codec, some_bytes, fits, short) = encode_frame-IsFrame sender message encoded framed in
      ap (λ s. read_message to_vec from_slice receiver s) sent
      ∙ read_frame receiver message encoded [] w (codec, some_bytes, omega arith, short)
          (inverse (current message) encoded codec)
