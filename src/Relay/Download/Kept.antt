-- ===== src/Relay/Download/Kept.antt =====
-- The download (src/relay.c) neither finalizes the tunnel nor touches the reference.
use ngx_http_tunnel_module.Common.{
  ℕ, Bool, not, ◌&&◌, ◌||◌, Option, none, some, [], ◌∷◌, is_nil, ◌==◌, ◌≡◌, if_cases,
}
use ngx_http_tunnel_module.Rc.{Rc, ok, error, again, busy, done, declined, abort, status}
use ngx_http_tunnel_module.Buffers.{room}
use ngx_http_tunnel_module.Context.{TunnelCtx, Filter, padding_filter, capsule_filter}
use ngx_http_tunnel_module.Context.Kept.{ending_flags, KeepsFlags}
use ngx_http_tunnel_module.Capsule.Upstream.Kept.{capsule_upstream_filter-KeepsFlags}
use ngx_http_tunnel_module.Padding.Upstream.Kept.{padding_upstream_filter-KeepsFlags}
use ngx_http_tunnel_module.Relay.{
  Net, Nginx, Step, Received, would_block, failed, received, Output, data_only, Written,
  downstream_output_idle,
}
use ngx_http_tunnel_module.Relay.Download.{
  call_upstream_filter, recv_size, upstream_received, recv_upstream, next_send_buf, output_answer,
  after_output, write_out, upstream_filtered, filter_download, send_buffers, send_downstream,
}

module _ {W : Type 0} (nginx : Nginx W) (flags : Bool × Bool) where
  abbrev pub StepKeeps : Step W → Type 0
  StepKeeps s = ending_flags s.ctx ≡ flags

  call_upstream_filter-KeepsFlags :
      (f : Filter) (random : ℕ) (ctx : TunnelCtx) (activity : Bool)
      → ending_flags ctx ≡ flags
      → KeepsFlags flags (call_upstream_filter f random ctx activity)
  unfolding call_upstream_filter
  call_upstream_filter-KeepsFlags padding_filter random =
      padding_upstream_filter-KeepsFlags flags random
  call_upstream_filter-KeepsFlags capsule_filter random = capsule_upstream_filter-KeepsFlags flags

  upstream_received-StepKeeps :
      (ctx : TunnelCtx) (activity : Bool) (r : Net W × Received)
      → ending_flags ctx ≡ flags
      → StepKeeps (upstream_received nginx ctx activity r)
  unfolding upstream_received
  upstream_received-StepKeeps ctx activity (net, would_block) h = h
  upstream_received-StepKeeps ctx activity (net, failed) h = h
  upstream_received-StepKeeps ctx activity (net, received []) h =
      if_cases StepKeeps net.datagram _ _ (λ _. h) (λ _. h)
  upstream_received-StepKeeps ctx activity (net, received (x ∷ xs)) h = h

  pub recv_upstream-StepKeeps :
      (ctx : TunnelCtx) (net : Net W) (activity : Bool)
      → ending_flags ctx ≡ flags
      → StepKeeps (recv_upstream nginx ctx net activity)
  unfolding recv_upstream
  recv_upstream-StepKeeps ctx net activity h =
      if_cases StepKeeps
        (not net.pc
          || not net.pc_read.ready
          || ctx.upstream_empty_datagram
          || room ctx.recv_buf == 0)
        _ _ (λ _. h)
        (λ _.
          if_cases StepKeeps (net.datagram && not (is_nil ctx.recv_buf.content)) _ _ (λ _. h)
            (λ _.
              if_cases StepKeeps (recv_size ctx == 0) _ _ (λ _. h)
                (λ _. upstream_received-StepKeeps ctx activity (nginx.recv net (recv_size ctx)) h)))

  output_answer-StepKeeps :
      (rc : Rc) (unsent sent : TunnelCtx) (net : Net W) (moved activity : Bool)
      → ending_flags unsent ≡ flags
      → ending_flags sent ≡ flags
      → StepKeeps (output_answer nginx rc unsent sent net moved activity)
  unfolding output_answer
  output_answer-StepKeeps error unsent sent net moved activity h h' = h
  output_answer-StepKeeps ok unsent sent net moved activity h h' = h'
  output_answer-StepKeeps again unsent sent net moved activity h h' = h'
  output_answer-StepKeeps busy unsent sent net moved activity h h' = h'
  output_answer-StepKeeps done unsent sent net moved activity h h' = h'
  output_answer-StepKeeps declined unsent sent net moved activity h h' = h'
  output_answer-StepKeeps abort unsent sent net moved activity h h' = h'
  output_answer-StepKeeps (status n) unsent sent net moved activity h h' = h'

  after_output-StepKeeps :
      (before : Net W) (before_pos : ℕ) (ctx : TunnelCtx) (activity : Bool) (w : Written W)
      → ending_flags ctx ≡ flags
      → StepKeeps (after_output nginx before before_pos ctx activity w)
  unfolding after_output
  after_output-StepKeeps before before_pos ctx activity w h =
      output_answer-StepKeeps w.rc _ _ w.net _ activity h h

  write_out-StepKeeps :
      (ctx : TunnelCtx) (net : Net W) (before_pos : ℕ) (activity : Bool) (chain : Output)
      → ending_flags ctx ≡ flags
      → StepKeeps (write_out nginx ctx net before_pos activity chain)
  unfolding write_out
  write_out-StepKeeps ctx net before_pos activity chain h =
      after_output-StepKeeps net before_pos _ activity _ h

  upstream_filtered-StepKeeps :
      (net : Net W) (before_pos : ℕ) (rc : Rc) (ctx : TunnelCtx) (activity : Bool)
      → ending_flags ctx ≡ flags
      → StepKeeps (upstream_filtered nginx net before_pos rc ctx activity)
  unfolding upstream_filtered
  upstream_filtered-StepKeeps net before_pos again ctx activity h = h
  upstream_filtered-StepKeeps net before_pos done ctx activity h = h
  upstream_filtered-StepKeeps net before_pos ok ctx activity h =
      write_out-StepKeeps ctx net before_pos activity _ h
  upstream_filtered-StepKeeps net before_pos declined ctx activity h =
      write_out-StepKeeps ctx net before_pos activity data_only h
  upstream_filtered-StepKeeps net before_pos error ctx activity h = h
  upstream_filtered-StepKeeps net before_pos busy ctx activity h = h
  upstream_filtered-StepKeeps net before_pos abort ctx activity h = h
  upstream_filtered-StepKeeps net before_pos (status n) ctx activity h = h

  filter_download-StepKeeps :
      (filter : Option Filter) (ctx : TunnelCtx) (net : Net W) (activity : Bool)
      → ending_flags ctx ≡ flags
      → StepKeeps (filter_download nginx filter ctx net activity)
  unfolding filter_download
  filter_download-StepKeeps none ctx net activity h =
      write_out-StepKeeps ctx net _ activity data_only h
  filter_download-StepKeeps (some f) ctx net activity h =
      let o = call_upstream_filter f (nginx.random net.world) ctx activity in
      upstream_filtered-StepKeeps net ctx.send_buf.pos o.rc o.ctx o.activity
        (call_upstream_filter-KeepsFlags f (nginx.random net.world) ctx activity h)

  next_send_buf-flags :
      (ctx : TunnelCtx) (net : Net W) (activity : Bool)
      → ending_flags ctx ≡ flags
      → ending_flags (next_send_buf nginx ctx net activity).0 ≡ flags
  unfolding next_send_buf
  next_send_buf-flags ctx net activity h =
      let P : TunnelCtx × Bool → Type 0 = λ r. ending_flags r.0 ≡ flags in
      if_cases P (is_nil ctx.send_buf.content && downstream_output_idle net) _ _
        (λ _. if_cases P (not (is_nil ctx.recv_buf.content)) _ _ (λ _. h) (λ _. h)) (λ _. h)

  pub send_downstream-StepKeeps :
      (ctx : TunnelCtx) (net : Net W) (activity : Bool)
      → ending_flags ctx ≡ flags
      → StepKeeps (send_downstream nginx ctx net activity)
  unfolding send_downstream send_buffers
  send_downstream-StepKeeps ctx net activity h =
      let (c, a) = next_send_buf nginx ctx net activity in
      let h' = next_send_buf-flags ctx net activity h in
      if_cases StepKeeps
        (is_nil c.send_buf.content && not c.upstream_empty_datagram && downstream_output_idle net) _
        _ (λ _. h')
        (λ _.
          if_cases StepKeeps (not (downstream_output_idle net)) _ _
            (λ _. after_output-StepKeeps net c.send_buf.pos c a _ h')
            (λ _. filter_download-StepKeeps c.upstream_filter c net a h'))
