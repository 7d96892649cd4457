-- ===== src/Connect.antt =====
-- src/connect.c and src/udp.c: the upstream request, its target and the response, up to the relay.
pub mod Answered
pub mod Result
pub mod Branching
pub mod Release
use ngx_http_tunnel_module.Common.{
  ℕ, zero, suc, ◌+◌, ◌-◌, Bool, true, false, not, ◌&&◌, ◌||◌, Option, none, some, List, [], ◌∷◌,
  ◌++◌, is_nil, ltb, ◌==◌, if◌then◌else◌,
}
use ngx_http_tunnel_module.Rc.{
  Rc, ok, error, again, busy, done, declined, abort, status, is_ok, bad_request, not_allowed,
  not_implemented, internal_server_error,
}
use ngx_http_tunnel_module.Context.{
  TunnelCtx, Resolved, Protocol, unknown_protocol, websocket, connect_udp, connect_tcp, connect_ip,
  capsule_filter, CapsuleState, read_type, CapsuleCtx,
}
use ngx_http_tunnel_module.Headers.{Header}
use ngx_http_tunnel_module.Padding.Negotiation.{add_response_header}
use ngx_http_tunnel_module.Capsule.Header.{is_header_present}
use ngx_http_tunnel_module.Session.{
  ProcessHeader, connect_process_header, udp_process_header, Upstream, Action, header_sent,
  flush_sent, upstream_started, Session, Site, SetupNginx,
}
use ngx_http_tunnel_module.Target.Variable.{Value, failed, not_found, found, target_host_handler}

-- `ngx_http_upstream_create` makes a new upstream request, or fails.
abbrev pub new_upstream : Resolved → Upstream
new_upstream resolved = record {
  resolved = resolved;
  datagram = false;
  configured = false;
  process_header = none;
}

unfoldable pub init_upstream_peer : SetupNginx → Session → Rc × Session
init_upstream_peer nginx s =
    if not nginx.upstream_create
    then (error, s)
    else (ok, record s { upstream = some (new_upstream s.ctx.resolved) })

unfoldable pub set_target : Site → TunnelCtx → Rc × TunnelCtx
set_target site ctx =
    if not site.host_start || not site.host_end || is_nil site.server then (bad_request, ctx) else (
      ok,
      record ctx {
        resolved = record { host = site.server; port = site.port; no_port = site.port == 0 };
      },
    )

-- "capsule-protocol" and "?1"
abbrev pub capsule_header : Header
capsule_header = record {
  key =
      99 ∷ 97 ∷ 112 ∷ 115 ∷ 117 ∷ 108 ∷ 101 ∷ 45 ∷ 112 ∷ 114 ∷ 111 ∷ 116 ∷ 111 ∷ 99 ∷ 111 ∷ 108
      ∷ [];
  lowcase_key = none;
  value = 63 ∷ 49 ∷ [];
}

-- "200 Connection Established"
abbrev pub established : List ℕ
established =
    50 ∷ 48 ∷ 48 ∷ 32 ∷ 67 ∷ 111 ∷ 110 ∷ 110 ∷ 101 ∷ 99 ∷ 116 ∷ 105 ∷ 111 ∷ 110 ∷ 32 ∷ 69 ∷ 115
    ∷ 116 ∷ 97 ∷ 98 ∷ 108 ∷ 105 ∷ 115 ∷ 104 ∷ 101 ∷ 100 ∷ []

abbrev pub is_connect_udp : Protocol → Bool
is_connect_udp connect_udp = true
is_connect_udp _ = false

-- `rc == NGX_ERROR || rc > NGX_OK`
abbrev pub is_failure : Rc → Bool
is_failure error = true
is_failure (status n) = ltb 0 n
is_failure _ = false

-- `rc == NGX_ERROR`
abbrev pub is_error : Rc → Bool
is_error error = true
is_error _ = false

-- The headers that the module adds.
unfoldable pub add_headers : Site → SetupNginx → Session → Rc × List Header
add_headers site nginx s =
    if is_connect_udp s.ctx.protocol && not nginx.capsule_push
    then (error, s.headers_out)
    else add_response_header site.padding site.stream_downstream s.ctx.padding nginx.padding_value
        nginx.padding_push nginx.random
        (if is_connect_udp s.ctx.protocol
          then s.headers_out ++ capsule_header ∷ []
          else s.headers_out)

abbrev pub respond : Session → Session
respond s = record s {
  keepalive = false;
  status = 200;
  content_length = none;
  status_line = established;
  content_type = [];
}

abbrev pub act : Action → Session → Session
act a s = record s { actions = s.actions ++ a ∷ [] }

-- From `ngx_http_send_header` on.
unfoldable pub send_header : SetupNginx → Session → Rc × Session
send_header nginx s =
    if is_failure nginx.send_header
    then (error, act header_sent s)
    else if is_error nginx.send_special
    then (error, act flush_sent (act header_sent s))
    else (ok, record (act flush_sent (act header_sent s)) { response_sent = true })

unfoldable pub send_response : Site → SetupNginx → Session → Rc × Session
unfolding send_header add_headers
send_response site nginx s =
    let (rc, headers) = add_headers site nginx s in
    if not (is_ok rc)
    then (error, record s { headers_out = headers })
    else send_header nginx (respond (record s { headers_out = headers }))

abbrev pub configure : ProcessHeader → Bool → Option Upstream → Option Upstream
configure handler datagram none = none
configure handler datagram (some u) =
    some (record u { datagram = datagram; configured = true; process_header = some handler })

-- `u->conf` and the handlers, the reference, and `ngx_http_upstream_init`.
abbrev pub start_upstream : ProcessHeader → Bool → Session → Session
start_upstream handler datagram s = act upstream_started (record s {
  ctx = record s.ctx { content_handler_ref = true };
  count = s.count + 1;
  upstream = configure handler datagram s.upstream;
})

abbrev pub value_rc : Value → Rc
value_rc failed = internal_server_error
value_rc not_found = bad_request
value_rc (found _) = ok

-- `ngx_http_get_variable` calls the handler of the variable; NULL is a failure of the handler or of
-- an allocation.
unfoldable pub udp_set_target : Site → SetupNginx → TunnelCtx → Rc × TunnelCtx
unfolding target_host_handler
udp_set_target site nginx ctx =
    let (value, ctx') = target_host_handler site nginx ctx in
    if not nginx.variable then (internal_server_error, ctx) else (value_rc value, ctx')

-- `ngx_pcalloc`
abbrev pub new_capsule : CapsuleCtx
new_capsule = record { capsule_len = 0; payload_size = 0; read_state = read_type }

abbrev pub filtered : TunnelCtx → TunnelCtx
filtered ctx = record ctx {
  downstream_filter = some capsule_filter;
  upstream_filter = some capsule_filter;
}

-- Behind the response.
unfoldable pub udp_responded : Rc × Session → Rc × Session
udp_responded (rc, s) =
    if not (is_ok rc)
    then (internal_server_error, s)
    else (done, start_upstream udp_process_header true s)

-- Behind the upstream request.
unfoldable pub udp_created : Site → SetupNginx → Rc × Session → Rc × Session
unfolding send_response udp_responded
udp_created site nginx (rc, s) =
    if not (is_ok rc)
    then (internal_server_error, s)
    else udp_responded (send_response site nginx s)

-- Behind the target.
unfoldable pub udp_targeted : Site → SetupNginx → Rc → Session → Rc × Session
unfolding udp_created init_upstream_peer
udp_targeted site nginx rc s =
    if not (is_ok rc)
    then (rc, s)
    else if not nginx.capsule_ctx
    then (internal_server_error, record s { ctx = filtered s.ctx })
    else udp_created site nginx (
        init_upstream_peer nginx
          (record s { ctx = record (filtered s.ctx) { capsule = some new_capsule } }))

unfoldable pub udp_init_upstream : Site → SetupNginx → Session → Rc × Session
unfolding udp_targeted udp_set_target
udp_init_upstream site nginx s =
    let (rc, ctx) = udp_set_target site nginx s.ctx in
    udp_targeted site nginx rc (record s { ctx = ctx })

-- `case CONNECT_UDP`
unfoldable pub branch_udp : Site → SetupNginx → Session → Rc × Session
unfolding udp_init_upstream
branch_udp site nginx s =
    if not site.udp
    then (not_allowed, s)
    else if not site.stream_downstream
    then (bad_request, record s { keepalive = false })
    else if not (is_ok (is_header_present nginx.same site.headers_in))
    then (bad_request, record s { keepalive = false })
    else udp_init_upstream site nginx (record s { keepalive = false })

unfoldable pub branch_protocol : Site → SetupNginx → Protocol → Session → Rc × Session
unfolding branch_udp
branch_protocol site nginx connect_udp s = branch_udp site nginx s
branch_protocol site nginx unknown_protocol s = (bad_request, s)
branch_protocol site nginx _ s = (not_implemented, s)

unfoldable pub extended_connect_branching : Site → SetupNginx → Session → Rc × Session
unfolding branch_protocol
extended_connect_branching site nginx s =
    if not s.ctx.extended_connect
    then (declined, s)
    else branch_protocol site nginx s.ctx.protocol s
