-- ===== src/Target/Tests.antt =====
-- The parser of extended CONNECT targets at a concrete input.
use ngx_http_tunnel_module.Common.{
  ℕ, ◌≡◌, refl, false, Option, none, some, List, [], ◌∷◌, ◌-◌, ◌==◌, if◌then◌else◌,
}
use ngx_http_tunnel_module.Rc.{Rc}
use ngx_http_tunnel_module.Context.{Resolved}
use ngx_http_tunnel_module.Target.{Match, no_match, captures, regexes, parse_extended_connect}
use ngx_http_tunnel_module.Target.Resolve.{Outcomes, parse_extended_connect-Outcomes}

-- "p=7&h=a" matches the third pattern only: the port is at 2, the host at 6.
abbrev path : List ℕ
path = 112 ∷ 61 ∷ 55 ∷ 38 ∷ 104 ∷ 61 ∷ 97 ∷ []

abbrev capture : ℕ → ℕ × ℕ
capture n = if n == 1 then (2, 3) else (6, 7)

abbrev engine : ℕ → List ℕ → Match
engine n params = if n == 2 then captures capture else no_match

abbrev digit : List ℕ → Option ℕ
digit (x ∷ []) = some (x - 48)
digit _ = none

abbrev unset : Resolved
unset = record { host = []; port = 0; no_port = false }

parse_extended_connect-Outcomes_example :
    (result : Rc × Resolved) × (parse_extended_connect engine digit (some path) (some unset)
      ≡ (result.0, some result.1))
    × Outcomes engine digit regexes path unset result
parse_extended_connect-Outcomes_example =
    parse_extended_connect-Outcomes engine digit path unset refl refl
