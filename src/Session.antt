-- ===== src/Session.antt =====
-- A request while its tunnel is set up (src/connect.c, src/udp.c, src/core.c): what the functions
-- write of it, and what they get from nginx.
use ngx_http_tunnel_module.Common.{ℕ, Bool, Option, List}
use ngx_http_tunnel_module.Rc.{Rc}
use ngx_http_tunnel_module.Context.{TunnelCtx, Resolved}
use ngx_http_tunnel_module.Headers.{Header, Strncasecmp}
use ngx_http_tunnel_module.Target.{Match}
use ngx_http_tunnel_module.Acl.{Atoi}

-- `u->process_header`
pub data ProcessHeader : Type 0 where
  connect_process_header udp_process_header : ProcessHeader

-- What the module writes of `r->upstream`, with the handlers that are empty or log only left out.
-- `datagram` is `u->peer.type == SOCK_DGRAM`; `resolved` is what the pointer of that name points at.
pub record Upstream : Type 0 where
  pub resolved : Resolved
  pub datagram : Bool
  pub configured : Bool
  pub process_header : Option ProcessHeader

-- The calls that nobody can take back, in their order.
pub data Action : Type 0 where
  header_sent flush_sent upstream_started : Action

-- `ctx` is the module's context of the request; `count` is `r->main->count`; a `content_length` of
-- none is -1, with no header of that name.
pub record Session : Type 0 where
  pub ctx : TunnelCtx
  pub count : ℕ
  pub keepalive : Bool
  pub headers_out : List Header
  pub status : ℕ
  pub content_length : Option ℕ
  pub status_line : List ℕ
  pub content_type : List ℕ
  pub response_sent : Bool
  pub upstream : Option Upstream
  pub actions : List Action

-- The configuration of the server, and the request line and headers as nginx has parsed them.
-- `params` is the value of `udp_path`, none where `ngx_http_complex_value` fails; the two host
-- pointers are there or not.
pub record Site : Type 0 where
  pub enable : Bool
  pub padding : Bool
  pub udp : Bool
  pub buffer_size : ℕ
  pub is_connect : Bool
  pub is_main : Bool
  pub stream_downstream : Bool
  pub host_start : Bool
  pub host_end : Bool
  pub host : List ℕ
  pub server : List ℕ
  pub port : ℕ
  pub headers_in : List Header
  pub params : Option (List ℕ)

-- Whether the allocations succeed, and what the calls of nginx return; `print_ui` is `%ui` of
-- `ngx_sprintf`.
pub record SetupNginx : Type 0 where
  pub same : Strncasecmp
  pub exec : ℕ → List ℕ → Match
  pub atoi : Atoi
  pub print_ui : ℕ → List ℕ
  pub send_buf : Bool
  pub recv_buf : Bool
  pub header_buf : Bool
  pub padding_ctx : Bool
  pub capsule_ctx : Bool
  pub variable : Bool
  pub variable_data : Bool
  pub upstream_create : Bool
  pub capsule_push : Bool
  pub padding_value : Bool
  pub padding_push : Bool
  pub random : ℕ → ℕ
  pub send_header : Rc
  pub send_special : Rc
