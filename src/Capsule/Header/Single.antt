-- ===== src/Capsule/Header/Single.antt =====
-- The number of Capsule-Protocol headers, for `tunnel_capsule_is_header_present` (src/capsule.c).
use ngx_http_tunnel_module.Common.{
  ℕ, ◌≡◌, refl, inl, inr, ◌⊎◌, true, false, List, [], ◌∷◌, Bool-cases, ◌↔◌, arith,
}
use ngx_http_tunnel_module.Rc.{ok}
use ngx_http_tunnel_module.Headers.{Header, Strncasecmp}
use ngx_http_tunnel_module.Headers.Named.{
  lower_all, IsStrncasecmp, IsLowcase, AreHeaders, has_name_iff,
}
use ngx_http_tunnel_module.Capsule.Header.{
  capsule_protocol, is_true, is_protocol_header, scan_headers, is_header_present,
}

-- The key of the header is `capsule-protocol`, in letters of any case.
abbrev pub IsProtocol : Header → Type 0
IsProtocol h =
    lower_all h.key
    ≡ 99 ∷ 97 ∷ 112 ∷ 115 ∷ 117 ∷ 108 ∷ 101 ∷ 45 ∷ 112 ∷ 114 ∷ 111 ∷ 116 ∷ 111 ∷ 99 ∷ 111 ∷ 108 ∷ []

-- None of the headers has this key.
abbrev pub HasNone : List Header → Type 0
HasNone [] = Unit {0}
HasNone (h ∷ hs) = (¬ IsProtocol h) × HasNone hs

-- One of the headers has it and the value `?1`, and no other has it.
abbrev pub IsSingle : List Header → Type 0
IsSingle [] = ⊥
IsSingle (h ∷ hs) =
    (IsProtocol h × (h.value ≡ 63 ∷ 49 ∷ []) × HasNone hs) ⊎ ((¬ IsProtocol h) × IsSingle hs)

is_true_iff : (value : List ℕ) → (is_true value ≡ true) ↔ (value ≡ 63 ∷ 49 ∷ [])
unfolding is_true
is_true_iff [] = (λ h. cc, λ h. cc)
is_true_iff (x ∷ []) = (λ h. cc, λ h. cc)
is_true_iff (x ∷ y ∷ []) = (λ h. ground (arith, h), λ h. ground (arith, h))
is_true_iff (x ∷ y ∷ z ∷ rest) = (λ h. cc, λ h. cc)

module _ (same : Strncasecmp) (law : IsStrncasecmp same) where
  is_protocol_header_iff :
      (h : Header)
      → IsLowcase h.key h.lowcase_key
      → (is_protocol_header same h ≡ true) ↔ IsProtocol h
  unfolding is_protocol_header
  is_protocol_header_iff h lowcase =
      has_name_iff same capsule_protocol h law (refl, ground arith) lowcase

  not-IsProtocol :
      (h : Header)
      → IsLowcase h.key h.lowcase_key
      → is_protocol_header same h ≡ false
      → ¬ IsProtocol h
  not-IsProtocol h lowcase e = λ p. ground (arith, e, (is_protocol_header_iff h lowcase).1 p)

  scan_headers-one : (hs : List Header) → AreHeaders hs → (scan_headers same 1 hs ≡ ok) ↔ HasNone hs
  unfolding scan_headers
  scan_headers-one [] are = (λ h. tt, λ h. refl)
  scan_headers-one (h ∷ hs) (lowcase, are) = elim (Bool-cases (is_protocol_header same h)) [
    | inl e ↦
        let named = (is_protocol_header_iff h lowcase).0 e in
        elim (Bool-cases (is_true h.value)) [
          | inl t ↦ rw (e, t) (λ q. cc, λ q. absurd (q.0 named))
          | inr t ↦ rw (e, t) (λ q. cc, λ q. absurd (q.0 named))
        ]
    | inr e ↦
        let (to, from) = scan_headers-one hs are in
        rw e (λ q. (not-IsProtocol h lowcase e, to q), λ q. from q.1)
  ]

  -- A request counts as using capsules exactly if one of its headers has the key
  -- `capsule-protocol`, in letters of any case, with the value `?1`, and no other header has that
  -- key. nginx compares names as it does, and keeps a key in lower case beside it or none.
  pub is_header_present-IsSingle :
      (hs : List Header) → AreHeaders hs → (is_header_present same hs ≡ ok) ↔ IsSingle hs
  unfolding is_header_present scan_headers
  is_header_present-IsSingle [] are = (λ h. cc, λ h. elim h [ ])
  is_header_present-IsSingle (h ∷ hs) (lowcase, are) =
      elim (Bool-cases (is_protocol_header same h)) [
        | inl e ↦
            let named = (is_protocol_header_iff h lowcase).0 e in
            let (to, from) = scan_headers-one hs are in
            let (value, is_value) = is_true_iff h.value in
            elim (Bool-cases (is_true h.value)) [
              | inl t ↦
                  rw (e, t)
                    (
                      λ q. inl (named, value t, to q),
                      λ q. elim q [ inl s ↦ from s.2 | inr s ↦ absurd (s.0 named) ],
                    )
              | inr t ↦
                  rw (e, t)
                    (
                      λ q. cc,
                      λ q. elim q [
                        | inl s ↦ absurd (ground (arith, t, is_value s.1))
                        | inr s ↦ absurd (s.0 named)
                      ],
                    )
            ]
        | inr e ↦
            let not_named = not-IsProtocol h lowcase e in
            let (to, from) = is_header_present-IsSingle hs are in
            rw e (
              λ q. inr (not_named, to q),
              λ q. elim q [ inl s ↦ absurd (not_named s.0) | inr s ↦ from s.1 ],
            )
      ]
