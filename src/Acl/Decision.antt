-- ===== src/Acl/Decision.antt =====
-- When the access control list of src/acl.c lets a request pass.
use ngx_http_tunnel_module.Common.{
  ℕ, ◌≡◌, refl, ap, ◌⊎◌, inl, inr, none, some, ltb, arith, Bool-cases, Option-cases, ◌↔◌,
}
use ngx_http_tunnel_module.Rc.{ok, declined, forbidden}
use ngx_http_tunnel_module.Acl.{
  Variable, null, not_found, found, Atoi, acl_parse_state, state_rc, eval_value, acl_eval,
}

-- The variable says 1 or 3.
abbrev pub Grants : Atoi → Variable → Type 0
Grants atoi null = ⊥
Grants atoi not_found = ⊥
Grants atoi (found value) = (atoi value ≡ some 1) ⊎ (atoi value ≡ some 3)

-- The variable says 0 or 2.
abbrev pub Denies : Atoi → Variable → Type 0
Denies atoi null = ⊥
Denies atoi not_found = ⊥
Denies atoi (found value) = (atoi value ≡ some 0) ⊎ (atoi value ≡ some 2)

some-inj : {n m : ℕ} → some n ≡ some m → n ≡ m
some-inj {n} {m} q = cc

state_rc-ok : (n : ℕ) → (state_rc n ≡ ok) ↔ ((n ≡ 1) ⊎ (n ≡ 3))
unfolding state_rc
state_rc-ok n = (ground arith, ground arith)

state_rc-forbidden : (n : ℕ) → (state_rc n ≡ forbidden) ↔ ((n ≡ 0) ⊎ (n ≡ 2))
unfolding state_rc
state_rc-forbidden n = (ground arith, ground arith)

eval_value-ok : (atoi : Atoi) (v : Variable) → (eval_value atoi v ≡ ok) ↔ Grants atoi v
unfolding eval_value acl_parse_state
eval_value-ok atoi null = (λ h. cc, λ h. elim h [ ])
eval_value-ok atoi not_found = (λ h. cc, λ h. elim h [ ])
eval_value-ok atoi (found value) = elim (Option-cases (atoi value)) [
  | inl e ↦ rw (e, eval_value, acl_parse_state) (λ h. cc, λ h. elim h [ inl q ↦ cc | inr q ↦ cc ])
  | inr (n, e) ↦ elim (Bool-cases (ltb 3 n)) [
    | inl big ↦
        rw (e, eval_value, acl_parse_state)
          (rw big (
            λ h. cc,
            λ h. elim h [ inl q ↦ ground (arith, q, big) | inr q ↦ ground (arith, q, big) ],
          ))
    | inr small ↦
        rw (e, eval_value, acl_parse_state)
          (rw small (
            λ h. elim ((state_rc-ok n).0 h) [ inl q ↦ inl (ap some q) | inr q ↦ inr (ap some q) ],
            λ h. (state_rc-ok n).1 (elim h [ inl q ↦ inl (some-inj q) | inr q ↦ inr (some-inj q) ]),
          ))
  ]
]

eval_value-forbidden :
    (atoi : Atoi) (v : Variable) → (eval_value atoi v ≡ forbidden) ↔ Denies atoi v
unfolding eval_value acl_parse_state
eval_value-forbidden atoi null = (λ h. cc, λ h. elim h [ ])
eval_value-forbidden atoi not_found = (λ h. cc, λ h. elim h [ ])
eval_value-forbidden atoi (found value) = elim (Option-cases (atoi value)) [
  | inl e ↦ rw (e, eval_value, acl_parse_state) (λ h. cc, λ h. elim h [ inl q ↦ cc | inr q ↦ cc ])
  | inr (n, e) ↦ elim (Bool-cases (ltb 3 n)) [
    | inl big ↦
        rw (e, eval_value, acl_parse_state)
          (rw big (
            λ h. cc,
            λ h. elim h [ inl q ↦ ground (arith, q, big) | inr q ↦ ground (arith, q, big) ],
          ))
    | inr small ↦
        rw (e, eval_value, acl_parse_state)
          (rw small (
            λ h. elim ((state_rc-forbidden n).0 h) [
              | inl q ↦ inl (ap some q)
              | inr q ↦ inr (ap some q)
            ],
            λ h.
                (state_rc-forbidden n).1
                  (elim h [ inl q ↦ inl (some-inj q) | inr q ↦ inr (some-inj q) ]),
          ))
  ]
]

-- With a variable configured, a request passes exactly if the variable says 1 or 3, and is refused
-- with 403 exactly if it says 0 or 2; with none configured the list declines to decide.
pub acl_eval-decides :
    (atoi : Atoi) (variables : ℕ → Variable) (index : ℕ)
    → ((acl_eval atoi variables (some index) ≡ ok) ↔ Grants atoi (variables index))
      × ((acl_eval atoi variables (some index) ≡ forbidden) ↔ Denies atoi (variables index))
      × (acl_eval atoi variables none ≡ declined)
unfolding acl_eval
acl_eval-decides atoi variables index =
    (eval_value-ok atoi (variables index), eval_value-forbidden atoi (variables index), refl)
