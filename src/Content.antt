-- ===== src/Content.antt =====
-- `ngx_http_tunnel_content_handler` and `ngx_tunnel_skip_phase_handler` of src/core.c.
pub mod Plain
pub mod Outcome
pub mod References
pub mod Ready
pub mod Handed
mod Tests
use ngx_http_tunnel_module.Common.{
  ℕ, Bool, true, false, not, ◌&&◌, ◌||◌, Option, none, some, if◌then◌else◌,
}
use ngx_http_tunnel_module.Rc.{Rc, ok, declined, done, is_ok, internal_server_error}
use ngx_http_tunnel_module.Buffers.{create_temp_buf}
use ngx_http_tunnel_module.Context.{
  TunnelCtx, PaddingCtx, header_b0, header_reserve_bytes, max_padding_size, padding_filter,
}
use ngx_http_tunnel_module.Padding.Negotiation.{padding_needed}
use ngx_http_tunnel_module.Session.{Session, Site, SetupNginx, connect_process_header}
use ngx_http_tunnel_module.Connect.{
  set_target, init_upstream_peer, send_response, start_upstream, extended_connect_branching,
}

abbrev pub is_declined : Rc → Bool
is_declined declined = true
is_declined _ = false

-- `padding_needed`
abbrev pub needs_padding : Site → SetupNginx → TunnelCtx → Bool
needs_padding site nginx ctx =
    if ctx.extended_connect
    then false
    else is_ok (padding_needed nginx.same site.padding site.stream_downstream site.headers_in)

-- Behind the response, where there is one.
unfoldable pub connect_responded : Rc × Session → Rc × Session
connect_responded (rc, s) =
    if not (is_ok rc)
    then (internal_server_error, s)
    else (done, start_upstream connect_process_header false s)

-- Behind the upstream request.
unfoldable pub connect_created : Site → SetupNginx → Rc × Session → Rc × Session
unfolding connect_responded
connect_created site nginx (rc, s) =
    if not (is_ok rc)
    then (internal_server_error, s)
    else connect_responded (if site.stream_downstream then send_response site nginx s else (ok, s))

-- Behind the target.
unfoldable pub connect_targeted : Site → SetupNginx → Rc × TunnelCtx → Session → Rc × Session
unfolding connect_created
connect_targeted site nginx (rc, ctx) s =
    if not (is_ok rc)
    then (rc, record s { ctx = ctx })
    else connect_created site nginx (init_upstream_peer nginx (record s { ctx = ctx }))

-- `ngx_pcalloc`
abbrev pub new_padding : PaddingCtx
new_padding = record {
  payload_size = 0;
  padding_size = 0;
  downstream_count = 0;
  upstream_count = 0;
  read_state = header_b0;
}

abbrev pub padded : TunnelCtx → TunnelCtx
padded ctx = record ctx {
  padding = some new_padding;
  buffer_tail_reserve = max_padding_size;
  downstream_filter = some padding_filter;
  upstream_filter = some padding_filter;
}

-- From `if (padding_needed == NGX_OK)` on.
unfoldable pub connect_plain : Site → SetupNginx → Bool → Session → Rc × Session
unfolding connect_targeted
connect_plain site nginx needed s =
    if needed && not nginx.padding_ctx
    then (internal_server_error, s)
    else let ctx = if needed then padded s.ctx else s.ctx in
      connect_targeted site nginx (set_target site ctx) (record s { ctx = ctx })

unfoldable pub branched : Site → SetupNginx → Bool → Rc × Session → Rc × Session
unfolding connect_plain
branched site nginx needed (rc, s) =
    if not (is_declined rc) then (rc, s) else connect_plain site nginx needed s

abbrev pub with_send_buf : Site → Session → Session
with_send_buf site s = record s {
  ctx = record s.ctx { send_buf = create_temp_buf site.buffer_size };
}

abbrev pub with_recv_buf : Site → Session → Session
with_recv_buf site s = record s {
  ctx = record s.ctx { recv_buf = create_temp_buf site.buffer_size };
}

abbrev pub with_header_buf : Session → Session
with_header_buf s = record s {
  ctx = record s.ctx { header_buf = create_temp_buf header_reserve_bytes };
}

-- From the header buffer on.
unfoldable pub content_branching : Site → SetupNginx → Bool → Session → Rc × Session
unfolding branched
content_branching site nginx needed s =
    let header = s.ctx.extended_connect || needed in
    if header && not nginx.header_buf
    then (internal_server_error, s)
    else branched site nginx needed
        (extended_connect_branching site nginx (if header then with_header_buf s else s))

unfoldable pub content_buffers : Site → SetupNginx → Bool → Session → Rc × Session
unfolding content_branching
content_buffers site nginx needed s =
    if not nginx.send_buf
    then (internal_server_error, s)
    else if not nginx.recv_buf
    then (internal_server_error, with_send_buf site s)
    else content_branching site nginx needed (with_recv_buf site (with_send_buf site s))

-- `has_ctx` is whether the request has the module's context.
unfoldable pub content_handler : Site → SetupNginx → Bool → Session → Rc × Session
unfolding content_buffers
content_handler site nginx has_ctx s =
    if not site.is_connect
    then (declined, s)
    else if not site.enable
    then (declined, s)
    else if not site.is_main || not has_ctx
    then (internal_server_error, s)
    else content_buffers site nginx (needs_padding site nginx s.ctx) s

-- A handler that keeps the phases behind it from a CONNECT request.
abbrev pub skip_phase_handler : Site → Rc
skip_phase_handler site =
    if not site.is_connect then declined else if not site.enable then declined else ok
