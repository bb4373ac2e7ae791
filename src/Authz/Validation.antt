-- ===== src/Authz/Validation.antt =====
-- Which rule sets `AuthorizationPolicy::new` (crates/faceauth-authz/src/lib.rs) admits.
use faceauth_rs.Prelude.{
  ◌≤◌, ◌<◌, ◌≡◌, ◌↔◌, ◌++◌, refl, false, List, [], ◌∷◌, length, any, All, ok, arith, ◌==◌,
  bind-eq-ok, ◌∙◌, ap, sym,
}
use faceauth_rs.Prelude.Apart.{Apart, FreshAfter, FreshAfter-Apart}
use faceauth_rs.Protocol.{ServiceName, sudo}
use faceauth_rs.Authz.{
  ExecutableFingerprint, fingerprint_eq, AuthorizationRule, AuthorizationPolicy, root_only,
  same_entry, check_executables, check_rule, check_rules, new,
}

-- No fingerprint repeats.
abbrev pub IsDistinct : List ExecutableFingerprint → Type 0
IsDistinct = Apart (λ x y. x == y)

pub record IsValidRule (r : AuthorizationRule) : Type 0 where
  pub some_executable : 0 < length r.executables
  pub few_executables : length r.executables ≤ 32
  pub sudo_guarded : r.purpose ≡ sudo → r.caller ≡ root_only
  pub executables_distinct : IsDistinct r.executables

pub record IsValidRules (rs : List AuthorizationRule) : Type 0 where
  pub some_rule : 0 < length rs
  pub few_rules : length rs ≤ 64
  pub each : All IsValidRule rs
  pub entries_distinct : Apart same_entry rs

check_executables-FreshAfter :
    (s : ServiceName) (earlier xs : List ExecutableFingerprint)
    → (check_executables s earlier xs ≡ ok tt) ↔ FreshAfter (λ x y. x == y) earlier xs
unfolding check_executables
check_executables-FreshAfter s earlier [] = (λ _. tt, λ _. refl)
check_executables-FreshAfter s earlier (x ∷ xs) =
    ground (arith, check_executables-FreshAfter s (earlier ++ x ∷ []) xs)

-- The three guards of a round, with the inner loop shut.
check_rule_guards :
    (earlier : List AuthorizationRule) (r : AuthorizationRule)
    → check_rule earlier r ≡ ok tt
    → (0 < length r.executables)
      × (length r.executables ≤ 32)
      × (r.purpose ≡ sudo → r.caller ≡ root_only)
      × (any (λ existing. same_entry existing r) earlier ≡ false)
      × (check_executables r.service [] r.executables ≡ ok tt)
unfolding check_rule
check_rule_guards earlier r h = ground arith

check_rule_passes :
    (earlier : List AuthorizationRule) (r : AuthorizationRule)
    → 0 < length r.executables
    → length r.executables ≤ 32
    → (r.purpose ≡ sudo → r.caller ≡ root_only)
    → any (λ existing. same_entry existing r) earlier ≡ false
    → check_executables r.service [] r.executables ≡ ok tt
    → check_rule earlier r ≡ ok tt
unfolding check_rule
check_rule_passes earlier r a b c d e = ground arith

check_rule_iff :
    (earlier : List AuthorizationRule) (r : AuthorizationRule)
    → (check_rule earlier r ≡ ok tt)
      ↔ (IsValidRule r × (any (λ existing. same_entry existing r) earlier ≡ false))
check_rule_iff earlier r = (
  λ h.
      let g = check_rule_guards earlier r h in
      (
        record {
          some_executable = g.0;
          few_executables = g.1;
          sudo_guarded = g.2;
          executables_distinct =
              (FreshAfter-Apart _ _).0 ((check_executables-FreshAfter r.service [] _).0 g.4);
        },
        g.3,
      ),
  λ v. check_rule_passes earlier r v.0.some_executable v.0.few_executables v.0.sudo_guarded v.1 (
      (check_executables-FreshAfter r.service [] _).1
        ((FreshAfter-Apart _ _).1 v.0.executables_distinct)),
)

check_rules_iff :
    (earlier rs : List AuthorizationRule)
    → (check_rules earlier rs ≡ ok tt) ↔ (All IsValidRule rs × FreshAfter same_entry earlier rs)
unfolding check_rules
check_rules_iff earlier [] = (λ _. (tt, tt), λ _. refl)
check_rules_iff earlier (r ∷ rs) =
    let one = check_rule_iff earlier r in
    let rest = check_rules_iff (earlier ++ r ∷ []) rs in
    (
      λ h.
          let (u, e, k) = bind-eq-ok (check_rule earlier r) _ h in
          let a = one.0 (e ∙ refl) in let b = rest.0 k in ((a.0, b.0), (a.1, b.1)),
      λ v. rw (one.1 (v.0.0, v.1.0)) (rest.1 (v.0.1, v.1.1)),
    )

new_ok :
    (rs : List AuthorizationRule) {p : AuthorizationPolicy}
    → new rs ≡ ok p
    → (0 < length rs) × (length rs ≤ 64) × (check_rules [] rs ≡ ok tt) × (p ≡ record { rules = rs })
unfolding new
new_ok rs h = ground arith

new_passes :
    (rs : List AuthorizationRule)
    → 0 < length rs
    → length rs ≤ 64
    → check_rules [] rs ≡ ok tt
    → new rs ≡ ok (record { rules = rs })
unfolding new
new_passes rs a b c = ground arith

pub new-IsValidRules :
    (rs : List AuthorizationRule) {p : AuthorizationPolicy}
    → new rs ≡ ok p
    → IsValidRules rs × (p ≡ record { rules = rs })
new-IsValidRules rs h =
    let g = new_ok rs h in
    let c = (check_rules_iff [] rs).0 g.2 in
    (
      record {
        some_rule = g.0;
        few_rules = g.1;
        each = c.0;
        entries_distinct = (FreshAfter-Apart same_entry rs).0 c.1;
      },
      g.3,
    )

-- `new` succeeds exactly on 1 to 64 rules, each with 1 to 32 executables that do not repeat and
-- root-only if it is for sudo, no two of which share their service and purpose; the policy holds
-- just those rules.
pub new_iff :
    (rs : List AuthorizationRule) (p : AuthorizationPolicy)
    → (new rs ≡ ok p) ↔ (IsValidRules rs × (p ≡ record { rules = rs }))
new_iff rs p = (
  new-IsValidRules rs,
  λ v.
      let w = v.0 in
      new_passes rs w.some_rule w.few_rules
        ((check_rules_iff [] rs).1 (w.each, (FreshAfter-Apart same_entry rs).1 w.entries_distinct))
      ∙ ap ok (sym v.1),
)
