-- ===== src/Access.antt =====
-- `ngx_http_tunnel_access_handler` of src/core.c: who gets to the content handler.
pub mod Admission
mod Tests
use ngx_http_tunnel_module.Common.{
  ℕ, Bool, true, false, not, ◌&&◌, ◌||◌, Option, none, some, List, is_nil, ◌==◌, if◌then◌else◌,
}
use ngx_http_tunnel_module.Rc.{
  Rc, ok, error, again, busy, done, declined, abort, status, is_ok, bad_request, forbidden,
  internal_server_error,
}
use ngx_http_tunnel_module.Context.{Protocol, unknown_protocol}
use ngx_http_tunnel_module.Headers.{Strncasecmp}
use ngx_http_tunnel_module.Target.{match_protocol}

-- What the handler reads. `auth` is what `tunnel_auth_check` returns, where the build has the call
-- (nginx before 1.31); `acl` is what `tunnel_acl_eval` returns.
pub record Visit : Type 0 where
  pub is_connect : Bool
  pub enable : Bool
  pub auth_compiled : Bool
  pub auth : Rc
  pub ctx_allocated : Bool
  pub resolved_allocated : Bool
  pub connect_protocol : List ℕ
  pub acl : Rc

-- What it writes of the request: `ctx` is the context that is set, with `extended_connect` and
-- `protocol`.
pub record Admitted : Type 0 where
  pub keepalive : Bool
  pub ctx : Option (Bool × Protocol)
  pub content_handler : Bool

abbrev pub is_unknown : Protocol → Bool
is_unknown unknown_protocol = true
is_unknown _ = false

-- Behind `tunnel_acl_eval`: the log and `keepalive` go with every answer but 400 and 403.
acl_answer : Rc → Admitted → Rc × Admitted
acl_answer ok r = (ok, record r { content_handler = true })
acl_answer declined r = (declined, record r { content_handler = true })
acl_answer (status n) r =
    if n == 400 || n == 403
    then (status n, r)
    else (internal_server_error, record r { keepalive = false })
acl_answer rc r = (internal_server_error, record r { keepalive = false })

-- Behind authentication.
authenticated : Strncasecmp → Visit → Admitted → Rc × Admitted
authenticated same v r =
    let extended_connect = not (is_nil v.connect_protocol) in
    let protocol = match_protocol same v.connect_protocol in
    if not v.ctx_allocated
    then (internal_server_error, r)
    else if not v.resolved_allocated
    then (internal_server_error, r)
    else if extended_connect && is_unknown protocol
    then (bad_request, r)
    else acl_answer v.acl (record r { ctx = some (extended_connect, protocol) })

pub access_handler : Strncasecmp → Visit → Admitted → Rc × Admitted
access_handler same v r =
    if not v.is_connect
    then (declined, r)
    else if not v.enable
    then (declined, r)
    else if v.auth_compiled && not (is_ok v.auth)
    then (v.auth, record r { keepalive = false })
    else authenticated same v r
