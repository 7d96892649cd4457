-- ===== src/Context.antt =====
-- The per-tunnel context and the module's types (src/ngx_http_tunnel_module.h).
pub mod Fixtures
pub mod Kept
use ngx_http_tunnel_module.Common.{ℕ, Bool, List, Option}
use ngx_http_tunnel_module.Rc.{Rc}
use ngx_http_tunnel_module.Buffers.{Chain, Buf}

pub data Protocol : Type 0 where
  unknown_protocol websocket connect_udp connect_tcp connect_ip : Protocol

-- The 3-bit `read_state` of padding.c. `unused` stands for the values 5 to 7.
pub data PaddingState : Type 0 where
  header_b0 header_b1 header_b2 payload discard unused : PaddingState

-- The 3-bit `read_state` of capsule.c. `unused` stands for the values 4 to 7.
pub data CapsuleState : Type 0 where
  read_type read_length read_context read_payload unused : CapsuleState

pub record PaddingCtx : Type 0 where
  pub payload_size : ℕ
  pub padding_size : ℕ
  pub downstream_count : ℕ
  pub upstream_count : ℕ
  pub read_state : PaddingState

pub record CapsuleCtx : Type 0 where
  pub capsule_len : ℕ
  pub payload_size : ℕ
  pub read_state : CapsuleState

-- What a filter pointer of the context can point at.
pub data Filter : Type 0 where
  padding_filter capsule_filter : Filter

-- `ngx_http_upstream_resolved_t`, as far as the module writes it.
pub record Resolved : Type 0 where
  pub host : List ℕ
  pub port : ℕ
  pub no_port : Bool

-- `buffers[SEND_BUF]` is `send_buf`, `buffers[RECV_BUF]` is `recv_buf`, and `downstream_out.buf` is
-- `header_buf`. A null pointer is `none`.
pub record TunnelCtx : Type 0 where
  pub downstream_in : Chain
  pub send_buf : Buf
  pub recv_buf : Buf
  pub header_buf : Buf
  pub flush_size : ℕ
  pub buffer_tail_reserve : ℕ
  pub resolved : Resolved
  pub protocol : Protocol
  pub padding : Option PaddingCtx
  pub capsule : Option CapsuleCtx
  pub downstream_filter : Option Filter
  pub upstream_filter : Option Filter
  pub finalized : Bool
  pub content_handler_ref : Bool
  pub downstream_eof : Bool
  pub upstream_write_closed : Bool
  pub extended_connect : Bool
  pub downstream_empty_datagram : Bool
  pub upstream_empty_datagram : Bool

-- What a function that takes `ctx` and `ngx_uint_t *activity` leaves behind.
pub record Outcome : Type 0 where
  pub rc : Rc
  pub ctx : TunnelCtx
  pub activity : Bool

-- NGX_HTTP_TUNNEL_K_FIRST_PADDINGS and its neighbours
abbrev pub first_paddings : ℕ
first_paddings = 8

abbrev pub padding_header_size : ℕ
padding_header_size = 3

abbrev pub max_padding_payload : ℕ
max_padding_payload = 65535

abbrev pub max_padding_size : ℕ
max_padding_size = 255

abbrev pub header_reserve_bytes : ℕ
header_reserve_bytes = 32

abbrev pub max_datagram_capsule : ℕ
max_datagram_capsule = 65508
