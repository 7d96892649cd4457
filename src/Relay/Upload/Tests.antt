-- ===== src/Relay/Upload/Tests.antt =====
-- `send_upstream` at a concrete input.
use ngx_http_tunnel_module.Capsule.Varint.{read_varint}
use ngx_http_tunnel_module.Capsule.Datagram.{prepare_datagram}
use ngx_http_tunnel_module.Relay.Upload.Datagram.{Forwarded, send_upstream-Forwarded}
use ngx_http_tunnel_module.Capsule.Downstream.Parser.{datagram, parse}
use ngx_http_tunnel_module.Capsule.Downstream.{reset, capsule_downstream_filter}
use ngx_http_tunnel_module.Common.{ℕ, ◌≡◌, refl, false, some, [], ◌∷◌, arith}
use ngx_http_tunnel_module.Rc.{ok}
use ngx_http_tunnel_module.Buffers.{free_consumed_chain, chain_bytes}
use ngx_http_tunnel_module.Context.{TunnelCtx, padding_filter, capsule_filter}
use ngx_http_tunnel_module.Context.Fixtures.{empty_ctx, body_buf}
use ngx_http_tunnel_module.Relay.Script.{
  datagram_script, datagram_connected, datagram_script-SendsDatagrams, script, connected,
  script-SendsPrefix,
}
use ngx_http_tunnel_module.Relay.Upload.{
  sent_upstream, send_body, send_filtered, filter_upload, call_downstream_filter,
  downstream_filtered, send_upstream,
}
use ngx_http_tunnel_module.Relay.Upload.Flow.{Sent, send_upstream-Sent}

-- Three bytes of a payload are due, and the first buffer of the body holds two of them.
abbrev uploading : TunnelCtx
uploading = record empty_ctx {
  downstream_in = body_buf [] ∷ body_buf (7 ∷ 8 ∷ []) ∷ body_buf (9 ∷ 0 ∷ []) ∷ [];
  flush_size = 3;
  downstream_filter = some padding_filter;
}

sends_payload :
    let s = send_upstream script uploading (connected []) false in
    (s.rc ≡ ok) × (s.ctx.flush_size ≡ 1)
unfolding send_upstream filter_upload send_filtered send_body sent_upstream free_consumed_chain
sends_payload = (refl, refl)

send_upstream-Sent_example :
    (k : ℕ) × Sent uploading
      (connected [])
      3
      k
      (send_upstream script uploading (connected []) false)
send_upstream-Sent_example =
    send_upstream-Sent script script-SendsPrefix uploading (connected []) false padding_filter refl
      refl (omega arith) (omega arith) sends_payload.0

-- A capsule with the datagram 7 8, cut inside the payload, and a byte of the next one.
abbrev reading : TunnelCtx
reading = record empty_ctx {
  downstream_in = body_buf (0 ∷ 3 ∷ []) ∷ body_buf (0 ∷ 7 ∷ []) ∷ body_buf (8 ∷ 0 ∷ []) ∷ [];
  downstream_filter = some capsule_filter;
  capsule = some reset;
}

forwards :
    ((send_upstream datagram_script reading datagram_connected false).rc ≡ ok)
    × ((send_upstream datagram_script reading datagram_connected false).net.world
        ≡ (7 ∷ 8 ∷ []) ∷ [])
unfolding send_upstream filter_upload send_filtered send_body sent_upstream free_consumed_chain
    call_downstream_filter downstream_filtered capsule_downstream_filter read_varint
    prepare_datagram
forwards = (refl, refl)

finds : parse reset (chain_bytes reading.downstream_in) ≡ datagram 2 (7 ∷ 8 ∷ 0 ∷ [])
unfolding parse
finds = refl

send_upstream-Forwarded_example :
    Forwarded
      (λ w. w)
      datagram_connected
      2
      (7 ∷ 8 ∷ 0 ∷ [])
      (send_upstream datagram_script reading datagram_connected false)
send_upstream-Forwarded_example =
    send_upstream-Forwarded datagram_script (λ w. w) datagram_script-SendsDatagrams reading reset
      datagram_connected false 2 (7 ∷ 8 ∷ 0 ∷ []) refl refl tt refl refl (ground arith)
      (refl, (refl, (refl, tt))) refl refl finds forwards.0
