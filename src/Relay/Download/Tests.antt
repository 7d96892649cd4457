-- ===== src/Relay/Download/Tests.antt =====
-- An upstream that always has bytes, in front of a client that takes frames.
use ngx_http_tunnel_module.Common.{
  ℕ, zero, suc, ◌-◌, ◌<◌, ◌≡◌, refl, ap, false, true, none, some, [], ◌∷◌, length-replicate,
  replicate, arith,
}
use ngx_http_tunnel_module.Rc.{ok, internal_server_error}
use ngx_http_tunnel_module.Buffers.{create_temp_buf}
use ngx_http_tunnel_module.Context.{TunnelCtx, PaddingCtx, header_b0, padding_filter}
use ngx_http_tunnel_module.Context.Fixtures.{empty_ctx}
use ngx_http_tunnel_module.Capsule.Datagram.Boundary.{both}
use ngx_http_tunnel_module.Relay.{Event, Net, Nginx, received, shut}
use ngx_http_tunnel_module.Relay.Download.{recv_upstream, send_downstream}
use ngx_http_tunnel_module.Relay.Download.Oversize.{FillsUp, send_downstream-oversize_frame}

abbrev filling : Nginx (Unit {0})
filling = record {
  pool = λ w. both;
  random = λ w. 258;
  send_chain = λ net cl limit. (net, none);
  recv = λ net size. (net, received (replicate size 0));
  output_filter = λ chain net h b. record { rc = ok; net = net; header_buf = h; send_buf = b };
  read_request_body = λ net. (ok, net);
  exiting = λ w. false;
  handle_events = λ net. true;
  shutdown = λ w. (shut, w);
}

replicate-pos : (n : ℕ) → 0 < n → replicate {A = ℕ} n 0 ≡ 0 ∷ replicate (n - 1) 0
replicate-pos zero h = elim h [ ]
replicate-pos (suc k) h =
    let e : k ≡ suc k - 1 = omega arith in ap (λ m. 0 ∷ replicate {A = ℕ} m 0) e

filling-FillsUp : FillsUp filling
filling-FillsUp net size pos = (
  net.world,
  0,
  replicate (size - 1) 0,
  ap (λ xs. (net, received xs)) (replicate-pos size pos),
  omega (arith, pos, length-replicate {A = ℕ} (size - 1) 0),
)

abbrev start : PaddingCtx
start = record {
  payload_size = 0;
  padding_size = 0;
  downstream_count = 0;
  upstream_count = 0;
  read_state = header_b0;
}

abbrev framing : TunnelCtx
framing = record empty_ctx {
  send_buf = create_temp_buf 131072;
  recv_buf = create_temp_buf 131072;
  padding = some start;
  upstream_filter = some padding_filter;
  buffer_tail_reserve = 255;
}

abbrev quiet : Event
quiet = record { ready = true; eof = false; error = false; timedout = false }

abbrev open_stream : Net (Unit {0})
open_stream = record {
  world = tt;
  pc = true;
  datagram = false;
  pc_read = quiet;
  pc_write = quiet;
  pc_sent = 0;
  c_read = quiet;
  c_write = quiet;
  c_sent = 0;
  c_buffered = false;
  out = 0;
  r_buffered = false;
  reading_body = true;
  bufs = [];
}

send_downstream-oversize_frame_example :
    let first = recv_upstream filling framing open_stream false in
    let second = recv_upstream filling first.ctx first.net false in
    (send_downstream filling second.ctx second.net false).rc ≡ internal_server_error
send_downstream-oversize_frame_example =
    send_downstream-oversize_frame filling filling-FillsUp framing open_stream start
      (refl, refl, refl, refl, refl) refl (omega arith) refl refl refl refl (omega arith)
