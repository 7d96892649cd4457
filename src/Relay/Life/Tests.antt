-- ===== src/Relay/Life/Tests.antt =====
-- The life of a tunnel (src/relay.c) at concrete inputs.
use ngx_http_tunnel_module.Common.{◌+◌, true, false, some, [], ◌≡◌, refl, arith, inl, ◌||◌}
use ngx_http_tunnel_module.Rc.{Rc, ok, done}
use ngx_http_tunnel_module.Buffers.{create_temp_buf}
use ngx_http_tunnel_module.Context.Fixtures.{empty_ctx}
use ngx_http_tunnel_module.Relay.{Net}
use ngx_http_tunnel_module.Relay.Script.{Script, script, connected}
use ngx_http_tunnel_module.Relay.Upload.{recv_downstream}
use ngx_http_tunnel_module.Relay.Download.{
  recv_size, recv_upstream, next_send_buf, rewind_drained, send_buffers, send_downstream,
}
use ngx_http_tunnel_module.Relay.Process.{
  settles, timed_out, loops, relay_round, receive, sent_then_receive, relay_settled, closed_ending,
  close_upstream_write,
}
use ngx_http_tunnel_module.Relay.Finalize.{Request}
use ngx_http_tunnel_module.Relay.Life.{
  Tunnel, StartNginx, UpstreamAnswer, status_established, init_request_body, install, prepare,
  after_relay, relays, RelayStart, started, start_answered, stream_client, upstream_read, Handles,
  handled, Life, here, elsewhere,
}
use ngx_http_tunnel_module.Relay.Life.Whole.{ReadsBody, IsAlive, IsEnded}
use ngx_http_tunnel_module.Relay.Life.Taken.{
  Establishes, Establishes-Life-IsAlive, timed_out-IsEnded,
}

-- The body is not read at once, so that the reference for it stays.
abbrev start : StartNginx Script
start = record {
  core_nodelay = false;
  tunnel_nodelay = true;
  client_nodelay = true;
  peer_nodelay = true;
  in_closed = false;
  read_client_body = λ post net r. (ok, net, record r { count = r.count + 1 });
  cleanup_add = true;
  send_last = λ w. ok;
}

start-ReadsBody : ReadsBody start
start-ReadsBody = record { counted = λ net r pos. (r.count + 1, omega arith, refl) }

abbrev request : Request
request = record {
  count = 1;
  stream_downstream = true;
  http2 = true;
  header_sent = true;
  read_eof = false;
  read_timer = false;
  write_timer = false;
  upstream = some (record {
    cleanup = true;
    resolving = false;
    bound = true;
    connection = some (record { read_timer = false; write_timer = true; pool = true });
  });
  rst_data_prepended = 0;
  names_done = 0;
  peers_freed = 0;
  pools_destroyed = 0;
  connections_closed = 0;
  finalized_with = [];
}

-- Upstream says nothing yet.
abbrev silent : Net Script
silent = let net = connected [] in record net { pc_read = record net.pc_read { ready = false } }

abbrev tunnel : Tunnel Script
tunnel = record {
  ctx = record empty_ctx { send_buf = create_temp_buf 16; recv_buf = create_temp_buf 16 };
  net = silent;
  request = request;
  handlers = false;
  cleanup = false;
  keepalive = true;
  no_buffering = false;
}

abbrev answer : UpstreamAnswer
answer = record { status_n = 0; keepalive = true; upgrade = false }

begins :
    (r : Rc × Tunnel Script) × RelayStart script start (record tunnel { keepalive = false }) r
    × (r.1.handlers ≡ true)
unfolding prepare init_request_body install relay_round receive sent_then_receive relay_settled
    closed_ending recv_size recv_upstream next_send_buf rewind_drained send_buffers send_downstream
    close_upstream_write recv_downstream after_relay
begins = (
  _,
  started refl (relays refl (loops refl refl (settles refl refl refl refl))) refl
      (relays refl (loops refl refl (settles refl refl refl refl))),
  refl,
)

abbrev taken_over : Rc × UpstreamAnswer × Tunnel Script
taken_over = (done, status_established answer, start_answered script start begins.0)

takes_over : Establishes script start answer tunnel taken_over
takes_over = inl (stream_client refl refl begins.1)

runs : (taken_over.2.request.read_timer ≡ true) × (taken_over.2.ctx.finalized ≡ false)
unfolding start_answered begins
runs = (refl, refl)

-- A timer of the client's connection runs out.
abbrev late : Tunnel Script
late =
    let l = taken_over.2 in
    record l { net = record l.net { c_read = record l.net.c_read { timedout = true } } }

timeout :
    late.net.c_read.timedout || late.net.c_write.timedout || late.net.pc_read.timedout
      || late.net.pc_write.timedout
    ≡ true
unfolding start_answered begins
timeout = refl

late-Life : Life script start taken_over.2 late
late-Life = elsewhere _ here

times_out : (last : Tunnel Script) × Handles script start upstream_read true late last
unfolding start_answered begins
times_out = (_, handled refl (relays refl (timed_out refl refl)))

Establishes-Life-IsAlive_example : IsAlive tunnel.request late
Establishes-Life-IsAlive_example =
    Establishes-Life-IsAlive script start answer tunnel taken_over late start-ReadsBody
      (_, _, refl, refl) (omega arith) refl takes_over refl late-Life

timed_out-IsEnded_example : IsEnded tunnel.request times_out.0
timed_out-IsEnded_example =
    timed_out-IsEnded script start answer tunnel taken_over late times_out.0 upstream_read
      start-ReadsBody (_, _, refl, refl) (omega arith) refl takes_over refl late-Life timeout
      times_out.1
