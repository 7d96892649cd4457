-- ===== src/Access/Tests.antt =====
-- The access handler at a concrete input.
use ngx_http_tunnel_module.Common.{true, false, none, []}
use ngx_http_tunnel_module.Rc.{ok, declined}
use ngx_http_tunnel_module.Headers.{Strncasecmp}
use ngx_http_tunnel_module.Access.{Visit, Admitted, access_handler}
use ngx_http_tunnel_module.Access.Admission.{Guarded, access_handler-Guarded}

abbrev same_never : Strncasecmp
same_never a b n = false

abbrev visit : Visit
visit = record {
  is_connect = true;
  enable = true;
  auth_compiled = true;
  auth = ok;
  ctx_allocated = true;
  resolved_allocated = true;
  connect_protocol = [];
  acl = declined;
}

abbrev fresh : Admitted
fresh = record { keepalive = true; ctx = none; content_handler = false }

access_handler-Guarded_example :
    Guarded same_never visit fresh (access_handler same_never visit fresh)
access_handler-Guarded_example = access_handler-Guarded same_never visit fresh
