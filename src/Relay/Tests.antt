-- ===== src/Relay/Tests.antt =====
-- The relay at concrete inputs.
use ngx_http_tunnel_module.Relay.Finalize.{Request}
use ngx_http_tunnel_module.Relay.Finalize.Once.{Finalized, finalize_calls, finalize_calls-Finalized}
use ngx_http_tunnel_module.Common.{some, ℕ, ◌≡◌, refl, true, false, List, [], ◌∷◌, arith}
use ngx_http_tunnel_module.Rc.{done, status, ok}
use ngx_http_tunnel_module.Buffers.{create_temp_buf}
use ngx_http_tunnel_module.Context.{TunnelCtx}
use ngx_http_tunnel_module.Context.Fixtures.{empty_ctx}
use ngx_http_tunnel_module.Relay.{Net}
use ngx_http_tunnel_module.Relay.Script.{Script, script, connected, script-RecvFits, script-IsPipe}
use ngx_http_tunnel_module.Relay.Download.{
  recv_size, upstream_received, recv_upstream, next_send_buf, rewind_drained, output_answer,
  after_output, write_out, filter_download, send_buffers, send_downstream,
}
use ngx_http_tunnel_module.Relay.Download.Reserve.{IsGiven, Filled, recv_upstream-Filled}
use ngx_http_tunnel_module.Relay.Download.Order.{InOrder}
use ngx_http_tunnel_module.Relay.Process.{
  Ending, finalized, continues, settles, ProcessRelay, loops, relay_round, receive,
  sent_then_receive, relay_settled,
}
use ngx_http_tunnel_module.Relay.Process.Settled.{Settled, process_relay-Settled}
use ngx_http_tunnel_module.Relay.Process.Ordered.{process_relay-InOrder}

abbrev downloading : TunnelCtx
downloading = record empty_ctx { send_buf = create_temp_buf 16; recv_buf = create_temp_buf 16 }

recv_upstream-Filled_example :
    (xs : List ℕ) × IsGiven script downloading (connected (1 ∷ 2 ∷ [])) xs
    × Filled downloading xs (recv_upstream script downloading (connected (1 ∷ 2 ∷ [])) false).ctx
recv_upstream-Filled_example =
    recv_upstream-Filled script script-RecvFits downloading (connected (1 ∷ 2 ∷ [])) false
      (omega arith, omega arith)

abbrev two_bytes : Net Script
two_bytes = connected (1 ∷ 2 ∷ [])

-- The two bytes come in, go out, upstream turns out to be at its end, and the tunnel is done.
relayed :
    (r : TunnelCtx × Net Script × Ending) × ProcessRelay script true false downloading two_bytes r
    × (r.1.world.taken ≡ 1 ∷ 2 ∷ [])
    × (r.2 ≡ finalized ok)
unfolding relay_round receive sent_then_receive relay_settled recv_size upstream_received
    recv_upstream next_send_buf rewind_drained output_answer after_output write_out filter_download
    send_buffers send_downstream
relayed = (
  _,
  loops refl refl
      (continues refl refl refl refl (continues refl refl refl refl (settles refl refl refl refl))),
  refl,
  refl,
)

process_relay-InOrder_example : InOrder (λ w. w.given) (λ w. w.taken) relayed.0.0 relayed.0.1
process_relay-InOrder_example =
    process_relay-InOrder script (λ w. w.given) (λ w. w.taken) script-IsPipe false downloading
      two_bytes relayed.0 relayed.1 (record { plain = refl; no_header = refl; order = refl })

process_relay-Settled_example : Settled relayed.0
process_relay-Settled_example =
    process_relay-Settled script true false downloading two_bytes relayed.0 relayed.1

-- A tunnel over HTTP/2 with its peer connected.
abbrev established : Request
established = record {
  count = 2;
  stream_downstream = true;
  http2 = true;
  header_sent = true;
  read_eof = false;
  read_timer = true;
  write_timer = true;
  upstream = some (record {
    cleanup = true;
    resolving = false;
    bound = true;
    connection = some (record { read_timer = true; write_timer = true; pool = true });
  });
  rst_data_prepended = 0;
  names_done = 0;
  peers_freed = 0;
  pools_destroyed = 0;
  connections_closed = 0;
  finalized_with = [];
}

abbrev referenced : TunnelCtx
referenced = record empty_ctx { content_handler_ref = true }

finalize_calls-Finalized_example :
    let s = finalize_calls ((ok, status 500) ∷ (ok, done) ∷ []) (referenced, established) in
    (s.0.finalized ≡ true) × (s.0.content_handler_ref ≡ false) × Finalized established s.1
finalize_calls-Finalized_example =
    finalize_calls-Finalized ok (status 500) ((ok, done) ∷ []) referenced established refl
      (omega arith)
