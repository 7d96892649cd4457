-- ===== src/Capsule/Header.antt =====
-- `tunnel_capsule_is_header_present` and `capsule_is_protocol_header` of src/capsule.c.
pub mod Single
use ngx_http_tunnel_module.Common.{
  ℕ, ◌+◌, Bool, true, false, not, ◌&&◌, ◌||◌, List, [], ◌∷◌, length, ltb, ◌==◌, if◌then◌else◌,
}
use ngx_http_tunnel_module.Rc.{Rc, ok, declined}
use ngx_http_tunnel_module.Headers.{Header, Strncasecmp, has_name}

-- "capsule-protocol"
abbrev pub capsule_protocol : List ℕ
capsule_protocol =
    99 ∷ 97 ∷ 112 ∷ 115 ∷ 117 ∷ 108 ∷ 101 ∷ 45 ∷ 112 ∷ 114 ∷ 111 ∷ 116 ∷ 111 ∷ 99 ∷ 111 ∷ 108 ∷ []

-- `value.len != 2 || ngx_strncmp(value.data, "?1", 2) != 0`, negated
unfoldable pub is_true : List ℕ → Bool
is_true (x ∷ y ∷ []) = x == 63 && y == 49
is_true _ = false

unfoldable pub is_protocol_header : Strncasecmp → Header → Bool
unfolding has_name
is_protocol_header same h = has_name same capsule_protocol h

-- The loop, with `found`.
scan_headers : Strncasecmp → ℕ → List Header → Rc
scan_headers same found [] = if found == 1 then ok else declined
scan_headers same found (h ∷ hs) =
    let rest = scan_headers same found hs in
    let rest_found = scan_headers same (found + 1) hs in
    if not (is_protocol_header same h)
    then rest
    else if not (is_true h.value)
    then declined
    else if ltb 1 (found + 1)
    then declined
    else rest_found

unfoldable pub is_header_present : Strncasecmp → List Header → Rc
unfolding scan_headers
is_header_present same headers = scan_headers same 0 headers
