-- ===== src/Relay.antt =====
-- src/relay.c: what the relay uses of nginx, and what its functions take and leave. Everything else
-- of nginx and of the system is a world `W`.
pub mod Upload
pub mod Download
pub mod Script
pub mod Process
pub mod Finalize
pub mod Life
mod Tests
use ngx_http_tunnel_module.Common.{ℕ, Bool, true, false, not, ◌&&◌, Option, List, ◌==◌}
use ngx_http_tunnel_module.Rc.{Rc}
use ngx_http_tunnel_module.Buffers.{Chain, Buf, Pool}
use ngx_http_tunnel_module.Context.{TunnelCtx}

-- The flags of one `ngx_event_t`.
pub record Event : Type 0 where
  pub ready : Bool
  pub eof : Bool
  pub error : Bool
  pub timedout : Bool

-- The fields that the relay reads or writes of `r`, of its connection `c` and of the upstream
-- connection `pc`. `out` is the pointer `r->out` as an address, 0 for NULL; `bufs` is
-- `r->request_body->bufs`, empty where either pointer is NULL; `pc` tells whether
-- `r->upstream->peer.connection` is there.
pub record Net (W : Type 0) : Type 0 where
  pub world : W
  pub pc : Bool
  pub datagram : Bool
  pub pc_read : Event
  pub pc_write : Event
  pub pc_sent : ℕ
  pub c_read : Event
  pub c_write : Event
  pub c_sent : ℕ
  pub c_buffered : Bool
  pub out : ℕ
  pub r_buffered : Bool
  pub reading_body : Bool
  pub bufs : Chain

-- The macro `downstream_output_idle(r)`
abbrev pub downstream_output_idle : {W : Type 0} → Net W → Bool
downstream_output_idle net = net.out == 0 && not net.r_buffered && not net.c_buffered

-- `n = pc->recv(...)`: NGX_AGAIN, n bytes, or another negative value.
pub data Received : Type 0 where
  would_block failed : Received
  received : List ℕ → Received

-- The chain that `ngx_http_output_filter` is given: NULL, the send buffer, the header buffer, or
-- the header buffer and the send buffer behind it.
pub data Output : Type 0 where
  nothing data_only header_only header_and_data : Output

pub record Written (W : Type 0) : Type 0 where
  pub rc : Rc
  pub net : Net W
  pub header_buf : Buf
  pub send_buf : Buf

-- `ngx_shutdown_socket`: done, refused with ENOTCONN or ECONNRESET, or another errno.
pub data ShutdownResult : Type 0 where
  shut not_connected refused : ShutdownResult

-- The calls into nginx, and `ngx_terminate || ngx_quit || ngx_exiting`. `handle_events` is whether
-- the two calls of `ngx_handle_write_event` and `ngx_handle_read_event` behind the loop succeed.
-- `send_chain` takes the chain and the limit and leaves the chain that it has not sent, or none for
-- NGX_CHAIN_ERROR. The filter chain behind `output_filter` may move `pos` of the buffers that it
-- was given in this or an earlier call.
pub record Nginx (W : Type 0) : Type 0 where
  pub pool : W → Pool
  pub random : W → ℕ
  pub send_chain : Net W → Chain → ℕ → Net W × Option Chain
  pub recv : Net W → ℕ → Net W × Received
  pub output_filter : Output → Net W → Buf → Buf → Written W
  pub read_request_body : Net W → Rc × Net W
  pub exiting : W → Bool
  pub handle_events : Net W → Bool
  pub shutdown : W → ShutdownResult × W

-- What a function that takes `ctx` and `activity` leaves.
pub record Step (W : Type 0) : Type 0 where
  pub rc : Rc
  pub ctx : TunnelCtx
  pub net : Net W
  pub activity : Bool
