-- ===== src/Access/Admission.antt =====
-- The way through the checks of `ngx_http_tunnel_access_handler` (src/core.c).
use ngx_http_tunnel_module.Common.{
  Bool, ◌≡◌, ◌≢◌, refl, sym, ap, ◌⊎◌, inl, inr, true, false, some, arith, not, ◌&&◌, ◌||◌, is_nil,
  ◌==◌, Bool-cases,
}
use mathlib.Core.Path.{subst}
use ngx_http_tunnel_module.Rc.{Rc, ok, error, again, busy, done, declined, abort, status, is_ok}
use ngx_http_tunnel_module.Headers.{Strncasecmp}
use ngx_http_tunnel_module.Target.{match_protocol}
use ngx_http_tunnel_module.Access.{
  Visit, Admitted, is_unknown, acl_answer, authenticated, access_handler,
}

-- Every check has passed.
pub record Passes (same : Strncasecmp) (v : Visit) : Type 0 where
  pub connect : v.is_connect ≡ true
  pub enabled : v.enable ≡ true
  pub authentic : v.auth_compiled && not (is_ok v.auth) ≡ false
  pub known :
      not (is_nil v.connect_protocol) && is_unknown (match_protocol same v.connect_protocol) ≡ false
  pub ctx_room : v.ctx_allocated ≡ true
  pub resolved_room : v.resolved_allocated ≡ true
  pub granted : (v.acl ≡ ok) ⊎ (v.acl ≡ declined)

-- A check has failed, the answer is not NGX_OK and the content handler stays as it was, or every
-- check has passed and it is set; the return code is then that of the access control list.
abbrev pub Guarded : Strncasecmp → Visit → Admitted → Rc × Admitted → Type 0
Guarded same v r (rc, r') =
    ((¬ Passes same v) × (rc ≢ ok) × (r'.content_handler ≡ r.content_handler))
    ⊎ (Passes same v × (r'.content_handler ≡ true) × (rc ≡ v.acl))

abbrev AclGuarded : Rc → Admitted → Rc × Admitted → Type 0
AclGuarded acl r (rc, r') =
    ((¬ ((acl ≡ ok) ⊎ (acl ≡ declined))) × (rc ≢ ok) × (r'.content_handler ≡ r.content_handler))
    ⊎ (((acl ≡ ok) ⊎ (acl ≡ declined)) × (r'.content_handler ≡ true) × (rc ≡ acl))

no_grant : (acl : Rc) → acl ≢ ok → acl ≢ declined → ¬ ((acl ≡ ok) ⊎ (acl ≡ declined))
no_grant acl not_ok not_declined (inl e) = not_ok e
no_grant acl not_ok not_declined (inr e) = not_declined e

acl_answer-AclGuarded : (acl : Rc) (r : Admitted) → AclGuarded acl r (acl_answer acl r)
unfolding acl_answer
acl_answer-AclGuarded ok r = inr (inl refl, refl, refl)
acl_answer-AclGuarded declined r = inr (inr refl, refl, refl)
acl_answer-AclGuarded (status n) r = elim (Bool-cases (n == 400 || n == 403)) [
  | inl e ↦ rw e (inl (no_grant (status n) (λ h. cc) (λ h. cc), (λ h. cc), refl))
  | inr e ↦ rw e (inl (no_grant (status n) (λ h. cc) (λ h. cc), (λ h. cc), refl))
]
acl_answer-AclGuarded error r = inl (no_grant error (λ h. cc) (λ h. cc), (λ h. cc), refl)
acl_answer-AclGuarded again r = inl (no_grant again (λ h. cc) (λ h. cc), (λ h. cc), refl)
acl_answer-AclGuarded busy r = inl (no_grant busy (λ h. cc) (λ h. cc), (λ h. cc), refl)
acl_answer-AclGuarded done r = inl (no_grant done (λ h. cc) (λ h. cc), (λ h. cc), refl)
acl_answer-AclGuarded abort r = inl (no_grant abort (λ h. cc) (λ h. cc), (λ h. cc), refl)

true_of_not : (b : Bool) → not b ≡ false → b ≡ true
true_of_not true e = refl
true_of_not false e = cc

both : {b : Bool} → b ≡ true → b ≢ false
both e f = cc

failed_check : (compiled : Bool) (auth : Rc) → compiled && not (is_ok auth) ≡ true → auth ≢ ok
failed_check compiled auth e = λ h. ground (arith, e, h)

authenticated-Guarded :
    (same : Strncasecmp) (v : Visit) (r : Admitted)
    → v.is_connect ≡ true
    → v.enable ≡ true
    → v.auth_compiled && not (is_ok v.auth) ≡ false
    → Guarded same v r (authenticated same v r)
unfolding authenticated
authenticated-Guarded same v r connect enabled authentic = elim (Bool-cases (not v.ctx_allocated)) [
  | inl e ↦ rw e (inl ((λ p. both e (ap not p.ctx_room)), (λ h. ground (arith, h)), refl))
  | inr e ↦ elim (Bool-cases (not v.resolved_allocated)) [
    | inl e' ↦
        rw (e, e') (inl ((λ p. both e' (ap not p.resolved_room)), (λ h. ground (arith, h)), refl))
    | inr e' ↦
        elim (Bool-cases (
          not (is_nil v.connect_protocol) && is_unknown (match_protocol same v.connect_protocol))) [
            | inl e'' ↦
                rw (e, e', e'') (inl ((λ p. both e'' p.known), (λ h. ground (arith, h)), refl))
            | inr e'' ↦
                rw (e, e', e'')
                  (elim (acl_answer-AclGuarded v.acl (record r {
                    ctx =
                        some
                          (not (is_nil v.connect_protocol), match_protocol same v.connect_protocol);
                  })) [
                    | inl (refused, answer, kept) ↦ inl ((λ p. refused p.granted), answer, kept)
                    | inr (granted, set, rc) ↦ inr (
                      record {
                        connect = connect;
                        enabled = enabled;
                        authentic = authentic;
                        known = e'';
                        ctx_room = true_of_not v.ctx_allocated e;
                        resolved_room = true_of_not v.resolved_allocated e';
                        granted = granted;
                      },
                      set,
                      rc,
                    )
                  ])
          ]
  ]
]

-- The handler sets the content handler exactly for an enabled CONNECT request that has passed
-- authentication (where the build checks it here), names no protocol or a known one, is not refused
-- by the access control list and has memory for its context. Its answer is then that of the list:
-- NGX_OK where the list grants the target, NGX_DECLINED where no list is configured. Every other
-- request keeps the content handler it had, and is not answered NGX_OK.
pub access_handler-Guarded :
    (same : Strncasecmp) (v : Visit) (r : Admitted) → Guarded same v r (access_handler same v r)
unfolding access_handler
access_handler-Guarded same v r = elim (Bool-cases v.is_connect) [
  | inr e ↦
      let eq : access_handler same v r ≡ (declined, r) = simp (e, access_handler) in
      subst (Guarded same v r) (sym eq) (inl ((λ p. both p.connect e), (λ h. cc), refl))
  | inl e ↦ elim (Bool-cases v.enable) [
    | inr e' ↦
        let eq : access_handler same v r ≡ (declined, r) = simp (e, e', access_handler) in
        subst (Guarded same v r) (sym eq) (inl ((λ p. both p.enabled e'), (λ h. cc), refl))
    | inl e' ↦ elim (Bool-cases (v.auth_compiled && not (is_ok v.auth))) [
      | inl e'' ↦
          let eq : access_handler same v r ≡ (v.auth, record r { keepalive = false }) =
            simp (e, e', e'', access_handler) in
          subst (Guarded same v r) (sym eq)
            (inl ((λ p. both e'' p.authentic), failed_check v.auth_compiled v.auth e'', refl))
      | inr e'' ↦
          let eq : access_handler same v r ≡ authenticated same v r =
            simp (e, e', e'', access_handler) in
          subst (Guarded same v r) (sym eq) (authenticated-Guarded same v r e e' e'')
    ]
  ]
]
