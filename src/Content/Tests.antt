-- ===== src/Content/Tests.antt =====
-- Runs of `ngx_http_tunnel_content_handler` (src/core.c), and the theorems about it at them.
use ngx_http_tunnel_module.Common.{◌+◌, true, false, none, some, [], ◌∷◌, ◌≡◌, refl, arith}
use ngx_http_tunnel_module.Rc.{Rc, ok, done, bad_request, not_implemented}
use ngx_http_tunnel_module.Context.{connect_udp, websocket}
use ngx_http_tunnel_module.Context.Fixtures.{empty_ctx}
use ngx_http_tunnel_module.Headers.{Header}
use ngx_http_tunnel_module.Padding.Negotiation.{
  padding_name, padding_needed, add_response_header, is_padding_present,
}
use ngx_http_tunnel_module.Capsule.Header.{
  capsule_protocol, is_header_present, is_protocol_header, is_true,
}
use ngx_http_tunnel_module.Target.{captures, parse_extended_connect}
use ngx_http_tunnel_module.Target.Variable.{target_host_handler}
use ngx_http_tunnel_module.Target.Variable.Printed.{read_host_port, target_host_handler-reads}
use ngx_http_tunnel_module.Relay.Finalize.{Request}
use ngx_http_tunnel_module.Relay.Download.Reserve.{KeepsReserve}
use ngx_http_tunnel_module.Session.{
  Session, Site, SetupNginx, header_sent, flush_sent, upstream_started,
}
use ngx_http_tunnel_module.Connect.{extended_connect_branching, set_target}
use ngx_http_tunnel_module.Connect.Release.{by_upstream, by_relay, releases}
use ngx_http_tunnel_module.Content.{content_handler}
use ngx_http_tunnel_module.Content.Outcome.{Outcome, content_handler-Outcome}
use ngx_http_tunnel_module.Content.References.{content_handler-releases}
use ngx_http_tunnel_module.Content.Ready.{IsReady}
use ngx_http_tunnel_module.Content.Handed.{content_handler-IsReady}

abbrev padding_header : Header
padding_header = record { key = padding_name; lowcase_key = none; value = 33 ∷ [] }

abbrev capsule_request : Header
capsule_request = record { key = capsule_protocol; lowcase_key = none; value = 63 ∷ 49 ∷ [] }

-- A client on HTTP/2 asks for padding.
abbrev site : Site
site = record {
  enable = true;
  padding = true;
  udp = true;
  buffer_size = 2048;
  is_connect = true;
  is_main = true;
  stream_downstream = true;
  host_start = true;
  host_end = true;
  host = 97 ∷ 58 ∷ 57 ∷ [];
  server = 97 ∷ [];
  port = 9;
  headers_in = padding_header ∷ [];
  params = some (47 ∷ []);
}

-- Every call succeeds; names compare equal, and every path has the captures "a" and "9".
abbrev nginx : SetupNginx
nginx = record {
  same = λ _ _ _. true;
  exec = λ _ _. captures (λ _. (0, 1));
  atoi = λ _. some 9;
  print_ui = λ n. (48 + n) ∷ [];
  send_buf = true;
  recv_buf = true;
  header_buf = true;
  padding_ctx = true;
  capsule_ctx = true;
  variable = true;
  variable_data = true;
  upstream_create = true;
  capsule_push = true;
  padding_value = true;
  padding_push = true;
  random = λ n. n;
  send_header = ok;
  send_special = ok;
}

abbrev session : Session
session = record {
  ctx = empty_ctx;
  count = 1;
  keepalive = true;
  headers_out = [];
  status = 0;
  content_length = some 0;
  status_line = [];
  content_type = [];
  response_sent = false;
  upstream = none;
  actions = [];
}

abbrev padded_run : Rc × Session
padded_run = content_handler site nginx true session

padded_run_done : padded_run ≡ (done, padded_run.1)
unfolding content_handler extended_connect_branching padding_needed add_response_header
    is_padding_present set_target
padded_run_done = refl

-- A client asks for CONNECT-UDP.
abbrev udp_session : Session
udp_session = record session {
  ctx = record empty_ctx { extended_connect = true; protocol = connect_udp };
}

udp_calls :
    let r =
      content_handler (record site { headers_in = capsule_request ∷ [] }) nginx true udp_session in
    (r.0 ≡ done)
    × (r.1.actions ≡ header_sent ∷ flush_sent ∷ upstream_started ∷ [])
    × (r.1.ctx.resolved.port ≡ 9)
unfolding content_handler extended_connect_branching add_response_header is_header_present
    parse_extended_connect is_protocol_header is_true
udp_calls = (refl, refl, refl)

udp_needs_header :
    (content_handler (record site { headers_in = [] }) nginx true udp_session).0 ≡ bad_request
unfolding content_handler extended_connect_branching is_header_present is_protocol_header is_true
udp_needs_header = refl

websocket_not_implemented :
    let s : Session = record session {
      ctx = record empty_ctx { extended_connect = true; protocol = websocket };
    } in
    (content_handler site nginx true s).0 ≡ not_implemented
unfolding content_handler extended_connect_branching
websocket_not_implemented = refl

content_handler-Outcome_example : Outcome true session (content_handler site nginx true session)
content_handler-Outcome_example = content_handler-Outcome site nginx true session

abbrev request : Request
request = record {
  count = 2;
  stream_downstream = true;
  http2 = true;
  header_sent = true;
  read_eof = false;
  read_timer = true;
  write_timer = true;
  upstream = none;
  rst_data_prepended = 0;
  names_done = 0;
  peers_freed = 0;
  pools_destroyed = 0;
  connections_closed = 0;
  finalized_with = [];
}

content_handler-releases_example :
    let t = releases (by_relay ok ok ∷ by_upstream ∷ []) (padded_run.1.ctx, request) in
    (t.0.content_handler_ref ≡ false) × (t.1.count ≡ 1)
unfolding content_handler extended_connect_branching padding_needed add_response_header
    is_padding_present set_target
content_handler-releases_example =
    content_handler-releases site nginx session padded_run.1 request (by_relay ok ok)
      (by_upstream ∷ []) padded_run_done refl (omega arith) refl

content_handler-IsReady_example : IsReady 2048 padded_run.1.ctx × KeepsReserve padded_run.1.ctx
content_handler-IsReady_example =
    content_handler-IsReady site nginx true session padded_run.1
      (record {
        body = refl;
        flush = refl;
        reserve = refl;
        padding = refl;
        capsule = refl;
        filters = (refl, refl);
        alive = refl;
      })
      (omega arith) padded_run_done

target_host_handler-reads_example : read_host_port (47 ∷ 58 ∷ 57 ∷ []) ≡ some (47 ∷ [], 9)
unfolding target_host_handler parse_extended_connect
target_host_handler-reads_example =
    target_host_handler-reads site nginx udp_session.ctx
      (record udp_session.ctx { resolved = record { host = 47 ∷ []; port = 9; no_port = false } })
      (47 ∷ 58 ∷ 57 ∷ []) refl refl ((omega arith, omega arith), tt) refl
