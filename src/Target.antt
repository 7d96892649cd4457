-- ===== src/Target.antt =====
-- src/utils.c: the target of an extended CONNECT request. The regex engine is a parameter.
pub mod Resolve
pub mod Variable
mod Tests
use ngx_http_tunnel_module.Common.{
  ℕ, ◌-◌, ◌%◌, ◌^◌, Bool, true, false, not, ◌&&◌, ◌||◌, Option, none, some, List, [], ◌∷◌, ◌++◌,
  length, take, drop, is_nil, ltb, ◌==◌, if◌then◌else◌,
}
use ngx_http_tunnel_module.Rc.{Rc, ok, error, declined, bad_request, internal_server_error}
use ngx_http_tunnel_module.Context.{Protocol, unknown_protocol, connect_udp, Resolved}
use ngx_http_tunnel_module.Headers.{Strncasecmp}
use ngx_http_tunnel_module.Acl.{Atoi}

-- One of the five patterns, by its place in the table, with the numbers of its two captures.
pub record Pattern : Type 0 where
  pub regex : ℕ
  pub host_capture : ℕ
  pub port_capture : ℕ

abbrev pattern_at : ℕ → ℕ → ℕ → Pattern
pattern_at regex host port = record { regex = regex; host_capture = host; port_capture = port }

abbrev pub regexes : List Pattern
regexes =
    pattern_at 0 1 2
    ∷ pattern_at 1 1 2
    ∷ pattern_at 2 2 1
    ∷ pattern_at 3 1 2
    ∷ pattern_at 4 2 1
    ∷ []

-- The loop of `tunnel_utils_init_extended_connect`, with the places that are compiled so far;
-- `compiles` is whether `ngx_regex_compile` takes the pattern of a place.
compile_patterns : (ℕ → Bool) → List Pattern → List ℕ → Rc × List ℕ
compile_patterns compiles [] compiled = (ok, compiled)
compile_patterns compiles (re ∷ res) compiled =
    let rest = compile_patterns compiles res (compiled ++ re.regex ∷ []) in
    if not (compiles re.regex) then (error, compiled) else rest

unfoldable pub init_extended_connect : (ℕ → Bool) → Rc × List ℕ
unfolding compile_patterns
init_extended_connect compiles = compile_patterns compiles regexes []

-- What `ngx_regex_exec` finds: no match, an error, or the begin and end of each capture.
pub data Match : Type 0 where
  no_match match_error : Match
  captures : (ℕ → ℕ × ℕ) → Match

abbrev slice : List ℕ → ℕ × ℕ → List ℕ
slice xs (first, end) = take (end - first) (drop first xs)

-- Behind a match. `ngx_atoi` gives none for its error.
matched : Atoi → Pattern → List ℕ → (ℕ → ℕ × ℕ) → Resolved → Rc × Resolved
matched atoi re params at resolved =
    let host = slice params (at re.host_capture) in
    let port = atoi (slice params (at re.port_capture)) in
    if is_nil host then (bad_request, resolved) else elim port [
      | none ↦ (bad_request, resolved)
      | some n ↦
          if ltb n 1 || ltb 65535 n
          then (bad_request, resolved)
          else (ok, record { host = host; port = n % 2 ^ 16; no_port = false })
    ]

-- The loop over the table.
try_patterns : (ℕ → List ℕ → Match) → Atoi → List Pattern → List ℕ → Resolved → Rc × Resolved
try_patterns exec atoi [] params resolved = (bad_request, resolved)
try_patterns exec atoi (re ∷ res) params resolved =
    let rest = try_patterns exec atoi res params resolved in
    elim (exec re.regex params) [
      | no_match ↦ rest
      | match_error ↦ (internal_server_error, resolved)
      | captures at ↦ matched atoi re params at resolved
    ]

-- `params` is none for a null pointer.
unfoldable pub parse_extended_connect :
    (ℕ → List ℕ → Match) → Atoi → Option (List ℕ) → Option Resolved → Rc × Option Resolved
unfolding matched try_patterns
parse_extended_connect exec atoi none resolved = (internal_server_error, resolved)
parse_extended_connect exec atoi (some params) none = (internal_server_error, none)
parse_extended_connect exec atoi (some params) (some resolved) =
    let (rc, found) = try_patterns exec atoi regexes params resolved in
    if not (is_nil resolved.host)
    then (ok, some resolved)
    else if is_nil params
    then (internal_server_error, some resolved)
    else (rc, some found)

-- "connect-udp", and `tunnel_udp_is_request` of src/udp.c
abbrev pub connect_udp_name : List ℕ
connect_udp_name = 99 ∷ 111 ∷ 110 ∷ 110 ∷ 101 ∷ 99 ∷ 116 ∷ 45 ∷ 117 ∷ 100 ∷ 112 ∷ []

unfoldable pub udp_is_request : Strncasecmp → List ℕ → Rc
udp_is_request same protocol =
    if not (length protocol == length connect_udp_name)
      || not (same protocol connect_udp_name (length connect_udp_name))
    then declined
    else ok

unfoldable pub match_protocol : Strncasecmp → List ℕ → Protocol
unfolding udp_is_request
match_protocol same protocol =
    if is_nil protocol
    then unknown_protocol
    else elim (udp_is_request same protocol) [ ok ↦ connect_udp | _ ↦ unknown_protocol ]
