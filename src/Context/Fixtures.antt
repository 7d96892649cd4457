-- ===== src/Context/Fixtures.antt =====
-- Contexts for the tests.
use ngx_http_tunnel_module.Common.{ℕ, false, none, List, []}
use ngx_http_tunnel_module.Buffers.{ChainBuf, create_temp_buf}
use ngx_http_tunnel_module.Context.{TunnelCtx, unknown_protocol}

abbrev pub empty_ctx : TunnelCtx
empty_ctx = record {
  downstream_in = [];
  send_buf = create_temp_buf 0;
  recv_buf = create_temp_buf 0;
  header_buf = create_temp_buf 32;
  flush_size = 0;
  buffer_tail_reserve = 0;
  resolved = record { host = []; port = 0; no_port = false };
  protocol = unknown_protocol;
  padding = none;
  capsule = none;
  downstream_filter = none;
  upstream_filter = none;
  finalized = false;
  content_handler_ref = false;
  downstream_eof = false;
  upstream_write_closed = false;
  extended_connect = false;
  downstream_empty_datagram = false;
  upstream_empty_datagram = false;
}

abbrev pub body_buf : List ℕ → ChainBuf
body_buf xs = record { bytes = xs; flush = false; last_buf = false; last_in_chain = false }
