-- ===== src/Relay/Upload/Kept.antt =====
-- The upload (src/relay.c) leaves the way down to the client alone.
use ngx_http_tunnel_module.Common.{
  ℕ, Bool, true, not, ◌&&◌, ◌||◌, Option, none, some, [], ◌∷◌, is_nil, ◌==◌, ◌≡◌, if_cases,
}
use ngx_http_tunnel_module.Rc.{
  Rc, ok, error, again, busy, done, declined, abort, status, is_ok, is_special_response,
}
use ngx_http_tunnel_module.Buffers.{Buf, Chain, Pool, free_consumed_chain}
use ngx_http_tunnel_module.Context.{TunnelCtx, Filter, padding_filter, capsule_filter}
use ngx_http_tunnel_module.Context.Kept.{download_side, KeepsDownload}
use ngx_http_tunnel_module.Capsule.Downstream.Kept.{capsule_downstream_filter-KeepsDownload}
use ngx_http_tunnel_module.Padding.Downstream.Kept.{padding_downstream_filter-KeepsDownload}
use ngx_http_tunnel_module.Relay.{Net, Nginx, Step}
use ngx_http_tunnel_module.Relay.Upload.{
  is_null, call_downstream_filter, empty_buf, empty_datagram_sent, send_empty_datagram,
  sent_upstream, send_body, send_filtered, downstream_filtered, filter_upload, send_upstream,
  take_bufs, read_body, recv_downstream,
}

module _ {W : Type 0} (nginx : Nginx W) (side : Option Filter × Buf × Buf × Buf × Bool × Bool) where
  abbrev pub StepKeeps : Step W → Type 0
  StepKeeps s = download_side s.ctx ≡ side

  call_downstream_filter-KeepsDownload :
      (f : Filter) (pool : Pool) (ctx : TunnelCtx) (activity : Bool)
      → download_side ctx ≡ side
      → KeepsDownload side (call_downstream_filter f pool ctx activity)
  unfolding call_downstream_filter
  call_downstream_filter-KeepsDownload padding_filter pool =
      padding_downstream_filter-KeepsDownload side
  call_downstream_filter-KeepsDownload capsule_filter pool =
      capsule_downstream_filter-KeepsDownload side pool

  empty_datagram_sent-StepKeeps :
      (ctx : TunnelCtx) (activity : Bool) (r : Net W × Option Chain)
      → download_side ctx ≡ side
      → StepKeeps (empty_datagram_sent nginx ctx activity r)
  unfolding empty_datagram_sent
  empty_datagram_sent-StepKeeps ctx activity (net, none) h = h
  empty_datagram_sent-StepKeeps ctx activity (net, some []) h = h
  empty_datagram_sent-StepKeeps ctx activity (net, some (b ∷ out)) h = h

  sent_upstream-StepKeeps :
      (ctx : TunnelCtx) (before : ℕ) (activity : Bool) (r : Net W × Option Chain)
      → download_side ctx ≡ side
      → StepKeeps (sent_upstream nginx ctx before activity r)
  unfolding sent_upstream
  sent_upstream-StepKeeps ctx before activity (net, none) h = h
  sent_upstream-StepKeeps ctx before activity (net, some out) h = h

  send_body-StepKeeps :
      (ctx : TunnelCtx) (net : Net W) (activity : Bool)
      → download_side ctx ≡ side
      → StepKeeps (send_body nginx ctx net activity)
  unfolding send_body
  send_body-StepKeeps ctx net activity h =
      if_cases StepKeeps
        (is_nil ctx.downstream_in && not (ctx.flush_size == 0) && ctx.downstream_eof) _ _ (λ _. h)
        (λ _.
          if_cases StepKeeps (is_nil ctx.downstream_in || not net.pc_write.ready) _ _ (λ _. h)
            (λ _.
              sent_upstream-StepKeeps ctx net.pc_sent activity
                (nginx.send_chain net ctx.downstream_in ctx.flush_size) h))

  send_filtered-StepKeeps :
      (ctx : TunnelCtx) (net : Net W) (activity : Bool)
      → download_side ctx ≡ side
      → StepKeeps (send_filtered nginx ctx net activity)
  unfolding send_filtered send_empty_datagram
  send_filtered-StepKeeps ctx net activity h =
      if_cases StepKeeps ctx.downstream_empty_datagram _ _
        (λ _.
          if_cases StepKeeps (not net.pc_write.ready) _ _ (λ _. h)
            (λ _.
              empty_datagram_sent-StepKeeps ctx activity (nginx.send_chain net (empty_buf ∷ []) 0)
                h))
        (λ _. send_body-StepKeeps ctx net activity h)

  downstream_filtered-StepKeeps :
      (net : Net W) (rc : Rc) (ctx : TunnelCtx) (activity : Bool)
      → download_side ctx ≡ side
      → StepKeeps (downstream_filtered nginx net rc ctx activity)
  unfolding downstream_filtered
  downstream_filtered-StepKeeps net ok ctx activity h =
      if_cases StepKeeps
        (not (is_null ctx.downstream_filter)
          && ctx.flush_size == 0
          && not ctx.downstream_empty_datagram)
        _ _ (λ _. h) (λ _. send_filtered-StepKeeps ctx net activity h)
  downstream_filtered-StepKeeps net again ctx activity h = h
  downstream_filtered-StepKeeps net error ctx activity h = h
  downstream_filtered-StepKeeps net busy ctx activity h = h
  downstream_filtered-StepKeeps net done ctx activity h = h
  downstream_filtered-StepKeeps net declined ctx activity h = h
  downstream_filtered-StepKeeps net abort ctx activity h = h
  downstream_filtered-StepKeeps net (status n) ctx activity h = h

  filter_upload-StepKeeps :
      (filter : Option Filter) (ctx : TunnelCtx) (net : Net W) (activity : Bool)
      → download_side ctx ≡ side
      → StepKeeps (filter_upload nginx filter ctx net activity)
  unfolding filter_upload
  filter_upload-StepKeeps none ctx net activity h = send_filtered-StepKeeps ctx net activity h
  filter_upload-StepKeeps (some f) ctx net activity h =
      let o = call_downstream_filter f (nginx.pool net.world) ctx activity in
      if_cases StepKeeps (not ctx.downstream_empty_datagram && ctx.flush_size == 0) _ _
        (λ _.
          downstream_filtered-StepKeeps net o.rc o.ctx o.activity
            (call_downstream_filter-KeepsDownload f (nginx.pool net.world) ctx activity h))
        (λ _. send_filtered-StepKeeps ctx net activity h)

  pub send_upstream-StepKeeps :
      (ctx : TunnelCtx) (net : Net W) (activity : Bool)
      → download_side ctx ≡ side
      → StepKeeps (send_upstream nginx ctx net activity)
  unfolding send_upstream
  send_upstream-StepKeeps ctx net activity h =
      let trimmed : TunnelCtx = record ctx {
        downstream_in = free_consumed_chain ctx.downstream_in 0;
      } in
      filter_upload-StepKeeps ctx.downstream_filter _ net activity (
        if_cases (λ c. download_side c ≡ side)
          (not (ctx.flush_size == 0) && is_null ctx.downstream_filter)
          (record trimmed { flush_size = 0 }) trimmed (λ _. h) (λ _. h))

  take_bufs-StepKeeps :
      (at_end : Bool) (ctx : TunnelCtx) (net : Net W) (activity : Bool)
      → download_side ctx ≡ side
      → StepKeeps (take_bufs nginx at_end ctx net activity)
  unfolding take_bufs
  take_bufs-StepKeeps at_end ctx net activity h =
      if_cases StepKeeps (not (is_nil net.bufs)) _ _ (λ _. h)
        (λ _. if_cases StepKeeps at_end _ _ (λ _. h) (λ _. h))

  pub recv_downstream-StepKeeps :
      (ctx : TunnelCtx) (net : Net W) (activity : Bool)
      → download_side ctx ≡ side
      → StepKeeps (recv_downstream nginx ctx net activity)
  unfolding recv_downstream read_body
  recv_downstream-StepKeeps ctx net activity h =
      let (rc, net') = nginx.read_request_body net in
      if_cases StepKeeps
        (ctx.downstream_eof || (not (is_nil ctx.downstream_in) && is_null ctx.downstream_filter)) _
        _ (λ _. h)
        (λ _.
          if_cases StepKeeps (not net.reading_body) _ _
            (λ _. take_bufs-StepKeeps true ctx net activity h)
            (λ _.
              if_cases StepKeeps (is_special_response rc) _ _ (λ _. h)
                (λ _. take_bufs-StepKeeps (is_ok rc && not net'.reading_body) ctx net' activity h)))
