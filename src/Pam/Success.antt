-- ===== src/Pam/Success.antt =====
-- What a call of the PAM module that succeeds rests on (crates/pam-faceauth/src/lib.rs).
use faceauth_rs.Prelude.{
  ℕ, ◌≤◌, subst, length, contains, ltb, eq_self, ◌≡◌, ◌↔◌, inl, inr, refl, sym, ap, ◌∙◌, Bool, true,
  false, ◌||◌, Option, none, some, ok, Result-cases, Option-cases, Bool-cases, nat_eq, bytes_eq,
  ◌==◌, ◌!=◌, eq_of_beq, List, arith,
}
use faceauth_rs.Protocol.{ServiceName, parse, AuthenticationPurpose}
use faceauth_rs.Pam.{
  max_responses, max_username_bytes, test_service, accepted, code, ClientStream, bounded_c_string,
  exchange, PamHost, pam_item, resolve_uid, target_of, request_of, authenticate_user,
  pam_sm_authenticate,
}
use faceauth_rs.Pam.Replies.{Accepts, exchange-Accepts, Accepts-exchange}

module _ {S : Type 0} where
  -- An item that is text of the length admitted
  pub record IsText (h : PamHost S) (item : Option (List ℕ)) (bytes : List ℕ) : Type 0 where
    pub given : item ≡ some bytes
    pub long : 1 ≤ length bytes
    pub short : length bytes ≤ max_username_bytes
    pub legible : h.is_utf8 bytes ≡ true

  pam_item-IsText :
      (h : PamHost S) (item : Option (List ℕ)) (bytes : List ℕ)
      → pam_item h item ≡ some bytes
      → IsText h item bytes
  unfolding pam_item bounded_c_string
  pam_item-IsText h none bytes e = absurd (ground arith)
  pam_item-IsText h (some x) bytes e =
      let same : x ≡ bytes = ground arith in
      subst (IsText h (some x)) same
        (record { given = refl; long = ground arith; short = ground arith; legible = ground arith })

  IsText-pam_item :
      (h : PamHost S) (item : Option (List ℕ)) (bytes : List ℕ)
      → IsText h item bytes
      → pam_item h item ≡ some bytes
  unfolding pam_item bounded_c_string
  IsText-pam_item h item bytes t =
      let filled : ((length bytes == 0) || ltb max_username_bytes (length bytes)) ≡ false =
        ground (arith, t.long, t.short) in
      rw (t.given, pam_item, bounded_c_string, filled, t.legible) refl

  -- The account of a name
  pub record IsAccount (h : PamHost S) (username : List ℕ) (uid : ℕ) : Type 0 where
    pub clean : contains username 0 ≡ false
    pub found : h.lookup_uid username ≡ some uid

  resolve_uid-IsAccount :
      (h : PamHost S) (username : List ℕ) (uid : ℕ)
      → resolve_uid h username ≡ some uid
      → IsAccount h username uid
  unfolding resolve_uid
  resolve_uid-IsAccount h username uid e = record { clean = ground arith; found = ground arith }

  IsAccount-resolve_uid :
      (h : PamHost S) (username : List ℕ) (uid : ℕ)
      → IsAccount h username uid
      → length username ≤ max_username_bytes
      → resolve_uid h username ≡ some uid
  unfolding resolve_uid
  IsAccount-resolve_uid h username uid a short =
      let bounded : ltb max_username_bytes (length username) ≡ false = ground arith in
      rw (resolve_uid, a.clean, bounded) a.found

  -- What the module asks of a call before it goes to the daemon
  pub record IsAddressed (h : PamHost S) (uid : ℕ) : Type 0 where
    pub no_arguments : (h.is_null ≡ false) × (h.argc ≡ 0)
    pub service : IsText h h.service_item test_service
    pub username : List ℕ
    pub named : IsText h h.user_item username
    pub account : IsAccount h username uid

  target_of-IsAddressed : (h : PamHost S) (uid : ℕ) → target_of h ≡ some uid → IsAddressed h uid
  unfolding target_of
  target_of-IsAddressed h uid e = elim (Bool-cases (h.is_null || (h.argc != 0))) [
    | inl e₁ ↦ absurd (ground arith)
    | inr e₁ ↦ elim (Option-cases (pam_item h h.service_item)) [
      | inl e₂ ↦ absurd (ground arith)
      | inr (service, e₂) ↦ elim (Bool-cases (service != test_service)) [
        | inl e₃ ↦ absurd (ground arith)
        | inr e₃ ↦ elim (Option-cases (pam_item h h.user_item)) [
          | inl e₄ ↦ absurd (ground arith)
          | inr (username, e₄) ↦ record {
            no_arguments = (ground arith, eq_of_beq h.argc 0 (ground arith));
            service =
                subst (IsText h h.service_item) (eq_of_beq service test_service (ground arith))
                  (pam_item-IsText h h.service_item service e₂);
            username = username;
            named = pam_item-IsText h h.user_item username e₄;
            account = resolve_uid-IsAccount h username uid (ground arith);
          }
        ]
      ]
    ]
  ]

  IsAddressed-target_of : (h : PamHost S) (uid : ℕ) → IsAddressed h uid → target_of h ≡ some uid
  unfolding target_of
  IsAddressed-target_of h uid a =
      let plain : (h.is_null || (h.argc != 0)) ≡ false =
        ground (arith, a.no_arguments.0, a.no_arguments.1) in
      let tested : (test_service != test_service) ≡ false = ground (arith, eq_self test_service) in
      rw
        (
          target_of,
          plain,
          IsText-pam_item h h.service_item test_service a.service,
          tested,
          IsText-pam_item h h.user_item a.username a.named,
        )
        (IsAccount-resolve_uid h a.username uid a.account a.named.short)

  -- What a call that PAM takes as a success rests on
  pub record IsServed (h : PamHost S) (s : S) : Type 0 where
    pub target_uid : ℕ
    pub addressed : IsAddressed h target_uid
    pub stream : ClientStream S
    pub connected : h.connected ≡ some stream
    pub privileged : stream.peer.uid ≡ 0
    pub name : ServiceName
    pub parsed : parse test_service ≡ ok name
    pub sent : S
    pub written : stream.write_request (request_of h target_uid name) s ≡ (ok tt, sent)
    pub after : S
    pub answered : Accepts stream max_responses h.elapsed h.fresh_id sent after

  authenticate_user-IsServed :
      (h : PamHost S) (s after : S) → authenticate_user h s ≡ (accepted, after) → IsServed h s
  unfolding authenticate_user request_of
  authenticate_user-IsServed h s after e = elim (Option-cases (target_of h)) [
    | inl e₁ ↦ absurd (ground arith)
    | inr (uid, e₁) ↦ elim (Option-cases h.connected) [
      | inl e₂ ↦ absurd (ground arith)
      | inr (stream, e₂) ↦ elim (Bool-cases (stream.peer.uid != 0)) [
        | inl e₃ ↦ absurd (ground arith)
        | inr e₃ ↦ elim (Result-cases (parse test_service)) [
          | inr (x, e₄) ↦ absurd (ground arith)
          | inl (name, e₄) ↦
              let served : authenticate_user h s
                  ≡ exchange stream h.elapsed (request_of h uid name) s =
                rw (authenticate_user, e₁, e₂, e₃, e₄) refl in
              let (sent, written, answered) =
                exchange-Accepts stream h.elapsed
                  (record {
                    transaction_id = h.fresh_id;
                    target_uid = uid;
                    service = name;
                    purpose = AuthenticationPurpose.test;
                  })
                  s after (sym served ∙ e) in
              record {
                target_uid = uid;
                addressed = target_of-IsAddressed h uid e₁;
                stream = stream;
                connected = e₂;
                privileged = eq_of_beq stream.peer.uid 0 (ground arith);
                name = name;
                parsed = e₄;
                sent = sent;
                written = written;
                after = after;
                answered = answered;
              }
        ]
      ]
    ]
  ]

  IsServed-authenticate_user :
      (h : PamHost S) (s : S) (g : IsServed h s) → authenticate_user h s ≡ (accepted, g.after)
  unfolding authenticate_user request_of
  IsServed-authenticate_user h s g =
      rw
        (
          authenticate_user,
          IsAddressed-target_of h g.target_uid g.addressed,
          g.connected,
          g.privileged,
          g.parsed,
          request_of,
        )
        (Accepts-exchange g.stream h.elapsed
          (record {
            transaction_id = h.fresh_id;
            target_uid = g.target_uid;
            service = g.name;
            purpose = AuthenticationPurpose.test;
          })
          s g.sent g.after g.written g.answered)

  -- PAM takes a call as a success exactly when it does not panic and was made without arguments
  -- for the test service and a user whose account is known, both text of at most 256 bytes; the
  -- peer of the socket is the superuser, the request for that account was written, and the client
  -- accepted its transaction within the bounds of `exchange`.
  pub pam_sm_authenticate_iff :
      (panics : Bool) (h : PamHost S) (s : S)
      → (pam_sm_authenticate panics h s ≡ 0) ↔ ((panics ≡ false) × IsServed h s)
  unfolding pam_sm_authenticate code
  pam_sm_authenticate_iff panics h s = (
    (λ e. elim (Bool-cases panics) [
      | inl e₁ ↦ absurd (ground arith)
      | inr e₁ ↦
          let taken : (authenticate_user h s).0 ≡ accepted = ground arith in
          (
            e₁,
            authenticate_user-IsServed h s (authenticate_user h s).1
                (ap (λ o. (o, (authenticate_user h s).1)) taken),
          )
    ]),
    (λ served. rw (pam_sm_authenticate, served.0, IsServed-authenticate_user h s served.1) refl),
  )
