-- ===== src/Target/Resolve.antt =====
-- What the parser of extended CONNECT targets (src/utils.c) accepts.
use ngx_http_tunnel_module.Common.{
  ℕ, ◌%◌, ◌^◌, ◌≤◌, ◌≡◌, refl, ◌⊎◌, inl, inr, false, ◌||◌, some, List, [], ◌∷◌, is_nil, ltb, arith,
  Bool-cases, Option-cases,
}
use ngx_http_tunnel_module.Rc.{Rc, ok, bad_request, internal_server_error}
use ngx_http_tunnel_module.Context.{Resolved}
use ngx_http_tunnel_module.Acl.{Atoi}
use ngx_http_tunnel_module.Target.{
  Pattern, regexes, Match, no_match, match_error, captures, slice, matched, try_patterns,
  parse_extended_connect,
}

-- A first pattern matched, with the captures `at`: the target is what the two captures say.
abbrev pub MatchedBy : Atoi → List ℕ → Pattern → (ℕ → ℕ × ℕ) → Resolved → Type 0
MatchedBy atoi params re at r =
    (r.host ≡ slice params (at re.host_capture))
    × (is_nil r.host ≡ false)
    × (atoi (slice params (at re.port_capture)) ≡ some r.port)
    × (1 ≤ r.port)
    × (r.port ≤ 65535)
    × (r.no_port ≡ false)

-- A call keeps the target as it was and fails, or stores one.
abbrev pub Answer : Atoi → List ℕ → Pattern → (ℕ → ℕ × ℕ) → Resolved → Rc × Resolved → Type 0
Answer atoi params re at before (rc, after) =
    ((rc ≡ ok) × MatchedBy atoi params re at after) ⊎ ((rc ≡ bad_request) × (after ≡ before))

matched-Answer :
    (atoi : Atoi) (re : Pattern) (params : List ℕ) (at : ℕ → ℕ × ℕ) (r : Resolved)
    → Answer atoi params re at r (matched atoi re params at r)
unfolding matched
matched-Answer atoi re params at r =
    elim (Bool-cases (is_nil (slice params (at re.host_capture)))) [
      | inl e ↦ rw e (inr (refl, refl))
      | inr e ↦ elim (Option-cases (atoi (slice params (at re.port_capture)))) [
        | inl q ↦ rw (e, q, matched) (inr (refl, refl))
        | inr (n, q) ↦ elim (Bool-cases (ltb n 1 || ltb 65535 n)) [
          | inl out ↦ rw (e, q, matched) (rw out (inr (refl, refl)))
          | inr fine ↦
              let same : n % 2 ^ 16 ≡ n = ground (arith, fine) in
              rw (e, q, matched)
                (rw (fine, same)
                  (inl (refl, (refl, e, refl, ground (arith, fine), ground (arith, fine), refl))))
        ]
      ]
    ]

-- The first pattern of a table that the engine does not reject, and its captures.
abbrev pub FirstMatch :
    (ℕ → List ℕ → Match) → List ℕ → Pattern → (ℕ → ℕ × ℕ) → List Pattern → Type 0
FirstMatch exec params re at [] = ⊥
FirstMatch exec params re at (p ∷ ps) =
    ((p ≡ re) × (exec p.regex params ≡ captures at))
    ⊎ ((exec p.regex params ≡ no_match) × FirstMatch exec params re at ps)

abbrev pub Outcomes :
    (ℕ → List ℕ → Match) → Atoi → List Pattern → List ℕ → Resolved → Rc × Resolved → Type 0
Outcomes exec atoi ps params before result =
    ((re : Pattern) × (at : ℕ → ℕ × ℕ) × FirstMatch exec params re at ps
      × Answer atoi params re at before result)
    ⊎ (((result.0 ≡ bad_request) ⊎ (result.0 ≡ internal_server_error)) × (result.1 ≡ before))

try_patterns-Outcomes :
    (exec : ℕ → List ℕ → Match) (atoi : Atoi) (ps : List Pattern) (params : List ℕ) (r : Resolved)
    → Outcomes exec atoi ps params r (try_patterns exec atoi ps params r)
unfolding try_patterns
try_patterns-Outcomes exec atoi [] params r = inr (inl refl, refl)
try_patterns-Outcomes exec atoi (p ∷ ps) params r =
    go (try_patterns-Outcomes exec atoi ps params r) (exec p.regex params) refl
  where
    go :
        Outcomes exec atoi ps params r (try_patterns exec atoi ps params r)
        → (m : Match) → exec p.regex params ≡ m
        → Outcomes exec atoi (p ∷ ps) params r (try_patterns exec atoi (p ∷ ps) params r)
    go later no_match e =
        rw (e, try_patterns)
          (elim later [
            | inl (re, at, first, answer) ↦ inl (re, at, inr (refl, first), answer)
            | inr kept ↦ inr kept
          ])
    go later match_error e = rw (e, try_patterns) (inr (inr refl, refl))
    go later (captures at) e =
        rw (e, try_patterns) (inl (p, at, inl (refl, refl), matched-Answer atoi p params at r))

-- For a request that has no target yet and a path that is not empty, a call either stores the host
-- and the port that the first matching pattern of the table captures, the host not empty and the
-- port from 1 to 65535, or leaves the target alone and fails with 400 or 500.
pub parse_extended_connect-Outcomes :
    (exec : ℕ → List ℕ → Match) (atoi : Atoi) (params : List ℕ) (r : Resolved)
    → r.host ≡ []
    → is_nil params ≡ false
    → (result : Rc × Resolved) × (parse_extended_connect exec atoi (some params) (some r)
        ≡ (result.0, some result.1))
      × Outcomes exec atoi regexes params r result
unfolding parse_extended_connect
parse_extended_connect-Outcomes exec atoi params r unset some_path = (
  try_patterns exec atoi regexes params r,
  simp (unset, some_path, parse_extended_connect),
  try_patterns-Outcomes exec atoi regexes params r,
)
