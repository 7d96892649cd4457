-- ===== src/Rc.antt =====
-- `ngx_int_t` return codes. The negative ones are nginx's named constants; a positive one is an
-- HTTP status.
use ngx_http_tunnel_module.Common.{ℕ, Bool, true, false, leb}

pub data Rc : Type 0 where
  ok error again busy done declined abort : Rc
  status : ℕ → Rc

abbrev pub http_special_response : ℕ
http_special_response = 300

abbrev pub bad_request : Rc
bad_request = status 400

abbrev pub forbidden : Rc
forbidden = status 403

abbrev pub not_allowed : Rc
not_allowed = status 405

abbrev pub not_implemented : Rc
not_implemented = status 501

abbrev pub proxy_auth_required : Rc
proxy_auth_required = status 407

abbrev pub internal_server_error : Rc
internal_server_error = status 500

-- rc == NGX_OK
abbrev pub is_ok : Rc → Bool
is_ok ok = true
is_ok _ = false

-- rc >= NGX_HTTP_SPECIAL_RESPONSE
abbrev pub is_special_response : Rc → Bool
is_special_response (status n) = leb http_special_response n
is_special_response _ = false
