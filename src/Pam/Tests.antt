-- ===== src/Pam/Tests.antt =====
-- The PAM module at a stream that holds its responses in a list.
use faceauth_rs.Prelude.{ℕ, ◌≡◌, ◌↔◌, Bool, refl, true, false, some, Result, ok, err, List, [], ◌∷◌}
use faceauth_rs.Prelude.Float.{Milli, milli_float, milli_arithmetic}
use faceauth_rs.Protocol.{
  parse, is_name_byte, AuthenticationPurpose, RequestContext, authenticate, Response, started,
  progress, processing, completed, DecisionCode, is_accepted,
}
use faceauth_rs.Storage.{TemplateRecord}
use faceauth_rs.Session.{target_uid, deadline_reached}
use faceauth_rs.Transport.{TransportError, io}
use faceauth_rs.Daemon.Tests.{templates, rules, pad, observation, serving, complete_accepted}
use faceauth_rs.Daemon.Evidence.{IsJustified}
use faceauth_rs.Pam.{
  test_service, accepted, ClientStream, judge, await_decision, exchange, PamHost, pam_item,
  bounded_c_string, resolve_uid, target_of, request_of, authenticate_user, code,
  pam_sm_authenticate,
}
use faceauth_rs.Pam.Success.{IsServed, pam_sm_authenticate_iff}
use faceauth_rs.Pam.Justified.{exchange-IsJustified}

abbrev take_first : List Response → Result TransportError Response × List Response
take_first [] = (err io, [])
take_first (r ∷ rest) = (ok r, rest)

abbrev listed : ClientStream (List Response)
listed = record {
  peer = record { pid = 1; uid = 0; gid = 0 };
  write_request = λ r s. (ok tt, s);
  read_response = take_first;
}

abbrev replies : List Response
replies = started 7 ∷ progress 7 processing ∷ completed 7 DecisionCode.accepted ∷ []

abbrev quick : ℕ → ℕ
quick i = 1000

abbrev host : PamHost (List Response)
host = record {
  is_null = false;
  argc = 0;
  service_item = some test_service;
  user_item = some (b'a' ∷ []);
  is_utf8 = λ bytes. true;
  lookup_uid = λ name. some 1000;
  connected = some listed;
  fresh_id = 7;
  elapsed = quick;
}

served : pam_sm_authenticate false host replies ≡ 0
unfolding pam_sm_authenticate authenticate_user target_of pam_item bounded_c_string resolve_uid
    request_of parse is_name_byte exchange await_decision judge is_accepted code
served = refl

pam_sm_authenticate_iff_example :
    (pam_sm_authenticate false host replies ≡ 0) ↔ (Path Bool false false × IsServed host replies)
pam_sm_authenticate_iff_example = pam_sm_authenticate_iff false host replies

abbrev asked : RequestContext
asked = record {
  transaction_id = 7;
  target_uid = 1000;
  service = record { as_str = test_service };
  purpose = AuthenticationPurpose.test;
}

accepts_reply : exchange listed quick (authenticate asked) replies ≡ (accepted, [])
unfolding exchange await_decision judge is_accepted
accepts_reply = refl

exchange-IsJustified_example :
    (◌≡◌ {A = ℕ} 7 7)
    × (uid : ℕ) × (t : TemplateRecord Milli) × (target_uid 3 7 serving ≡ ok uid)
    × (templates uid ≡ ok t)
    × (deadline_reached 200 serving ≡ ok false)
    × IsJustified ℕ ℕ rules pad t observation
exchange-IsJustified_example =
    exchange-IsJustified ℕ ℕ listed quick asked replies replies []
      (started 7 ∷ progress 7 processing ∷ []) 7 DecisionCode.accepted templates 3 7 rules pad
      observation 200 serving accepts_reply refl (tt, (tt, tt))
      (
        progress 7 processing ∷ completed 7 DecisionCode.accepted ∷ [],
        refl,
        (completed 7 DecisionCode.accepted ∷ [], refl, ([], refl, tt)),
      )
      complete_accepted
