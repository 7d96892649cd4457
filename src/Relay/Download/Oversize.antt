-- ===== src/Relay/Download/Oversize.antt =====
-- Two receives in a row (src/relay.c) in front of the frame writer of src/padding.c.
use ngx_http_tunnel_module.Common.{
  ℕ, ◌+◌, ◌-◌, ◌<◌, ◌≡◌, ap, ◌∙◌, Bool, true, false, some, List, [], ◌∷◌, ◌++◌, length,
  length-append, is_nil, min, ◌==◌, arith,
}
use ngx_http_tunnel_module.Rc.{ok, internal_server_error}
use ngx_http_tunnel_module.Buffers.{room}
use ngx_http_tunnel_module.Context.{
  TunnelCtx, PaddingCtx, padding_filter, first_paddings, max_padding_payload,
}
use ngx_http_tunnel_module.Padding.Upstream.{padding_upstream_filter}
use ngx_http_tunnel_module.Padding.Upstream.Wire.{padding_upstream_filter-oversize}
use ngx_http_tunnel_module.Relay.{Net, Nginx, Step, received, downstream_output_idle}
use ngx_http_tunnel_module.Relay.Download.{
  recv_size, upstream_received, recv_upstream, next_send_buf, call_upstream_filter,
  upstream_filtered, filter_download, send_buffers, send_downstream,
}

-- Upstream always has as many bytes as are asked for.
abbrev pub FillsUp : {W : Type 0} → Nginx W → Type 0
FillsUp {W} nginx =
    (net : Net W) (size : ℕ)
    → 0 < size
    → (w : W) × (x : ℕ) × (xs : List ℕ) × (nginx.recv net size
        ≡ (record net { world = w }, received (x ∷ xs)))
      × (length (x ∷ xs) ≡ size)

-- A stream on which frames are written, with bytes to receive.
abbrev pub Framing : {W : Type 0} → TunnelCtx → Net W → Type 0
Framing ctx net =
    (net.pc ≡ true)
    × (net.datagram ≡ false)
    × (net.pc_read.ready ≡ true)
    × (ctx.upstream_empty_datagram ≡ false)
    × (ctx.buffer_tail_reserve ≡ 255)

module _ {W : Type 0} (nginx : Nginx W) (fills : FillsUp nginx) where
  recv_size-reserve :
      (ctx : TunnelCtx)
      → ctx.buffer_tail_reserve ≡ 255
      → 255 < room ctx.recv_buf
      → (recv_size ctx ≡ min (room ctx.recv_buf - 255) 65535) × (0 < recv_size ctx)
  unfolding recv_size
  recv_size-reserve ctx reserve space =
      (ground (arith, reserve, space), ground (arith, reserve, space))

  recv_upstream-receives :
      (ctx : TunnelCtx) (net : Net W) (activity : Bool)
      → Framing ctx net
      → 255 < room ctx.recv_buf
      → 0 < recv_size ctx
      → recv_upstream nginx ctx net activity
        ≡ upstream_received nginx ctx activity (nginx.recv net (recv_size ctx))
  unfolding recv_upstream
  recv_upstream-receives ctx net activity (pc, stream, ready, no_empty, reserve) space pos =
      let some_room : (room ctx.recv_buf == 0) ≡ false = ground (arith, space) in
      let some_size : (recv_size ctx == 0) ≡ false = ground (arith, pos) in
      simp (pc, stream, ready, no_empty, some_room, some_size, recv_upstream)

  recv_upstream-fills :
      (ctx : TunnelCtx) (net : Net W) (activity : Bool)
      → Framing ctx net
      → 255 < room ctx.recv_buf
      → (w : W) × (xs : List ℕ) × (recv_upstream nginx ctx net activity ≡ record {
        rc = ok;
        ctx = record ctx {
          recv_buf = record ctx.recv_buf { content = ctx.recv_buf.content ++ xs };
        };
        net = record net { world = w };
        activity = true;
      })
        × (length xs ≡ min (room ctx.recv_buf - 255) 65535)
  unfolding upstream_received
  recv_upstream-fills ctx net activity f space =
      let (size, pos) = recv_size-reserve ctx f.4 space in
      let (w, x, xs, e, n) = fills net (recv_size ctx) pos in
      (
        w,
        x ∷ xs,
        recv_upstream-receives ctx net activity f space pos
            ∙ ap (upstream_received nginx ctx activity) e,
        n ∙ size,
      )

  abbrev swapped : TunnelCtx → TunnelCtx
  swapped ctx = record ctx {
    send_buf = ctx.recv_buf;
    recv_buf = record ctx.send_buf { pos = 0; content = [] };
  }

  next_send_buf-swapped :
      (ctx : TunnelCtx) (net : Net W) (activity : Bool)
      → is_nil ctx.send_buf.content ≡ true
      → downstream_output_idle net ≡ true
      → is_nil ctx.recv_buf.content ≡ false
      → next_send_buf nginx ctx net activity ≡ (swapped ctx, true)
  unfolding next_send_buf
  next_send_buf-swapped ctx net activity empty idle more = simp (empty, idle, more, next_send_buf)

  send_buffers-filtered :
      (ctx : TunnelCtx) (net : Net W) (activity : Bool)
      → ctx.upstream_filter ≡ some padding_filter
      → is_nil ctx.send_buf.content ≡ false
      → downstream_output_idle net ≡ true
      → let o = padding_upstream_filter (nginx.random net.world) ctx activity in
        send_buffers nginx (ctx, activity) net
        ≡ upstream_filtered nginx net ctx.send_buf.pos o.rc o.ctx o.activity
  unfolding send_buffers filter_download call_upstream_filter
  send_buffers-filtered ctx net activity filtered more idle =
      simp (filtered, more, idle, send_buffers)

  -- The send buffer is empty, so the receive buffer takes its place and goes through the filter.
  send_downstream-oversize :
      (ctx : TunnelCtx) (net : Net W) (activity : Bool) (p : PaddingCtx)
      → ctx.padding ≡ some p
      → p.upstream_count < first_paddings
      → ctx.upstream_filter ≡ some padding_filter
      → is_nil ctx.send_buf.content ≡ true
      → downstream_output_idle net ≡ true
      → max_padding_payload < length ctx.recv_buf.content
      → (send_downstream nginx ctx net activity).rc ≡ internal_server_error
  unfolding send_downstream upstream_filtered
  send_downstream-oversize ctx net activity p installed few filtered empty idle large =
      let more : is_nil ctx.recv_buf.content ≡ false = ground (arith, large) in
      ap (λ t. (send_buffers nginx t net).rc)
        (next_send_buf-swapped ctx net activity empty idle more)
      ∙ ap (λ (s : Step W). s.rc) (send_buffers-filtered (swapped ctx) net true filtered more idle)
      ∙ ap (λ o. (upstream_filtered nginx net ctx.recv_buf.pos o.rc o.ctx o.activity).rc)
          (padding_upstream_filter-oversize (nginx.random net.world) (swapped ctx) p true installed
            few large)

  -- While fewer than eight frames are written, the send buffer is empty and the output idle: after
  -- two receives in a row from an upstream that fills them, into an empty receive buffer with room
  -- for more than 65535 bytes and the reserve, the next send fails with 500, since a frame cannot
  -- tell that many bytes.
  pub send_downstream-oversize_frame :
      (ctx : TunnelCtx) (net : Net W) (p : PaddingCtx)
      → Framing ctx net
      → ctx.padding ≡ some p
      → p.upstream_count < first_paddings
      → ctx.upstream_filter ≡ some padding_filter
      → is_nil ctx.send_buf.content ≡ true
      → ctx.recv_buf.content ≡ []
      → downstream_output_idle net ≡ true
      → 65535 + 255 < room ctx.recv_buf
      → let first = recv_upstream nginx ctx net false in
        let second = recv_upstream nginx first.ctx first.net false in
        (send_downstream nginx second.ctx second.net false).rc ≡ internal_server_error
  send_downstream-oversize_frame ctx net p f installed few filtered empty start idle space =
      let (w, xs, e, n) = recv_upstream-fills ctx net false f (omega (arith, space)) in
      let ctx' : TunnelCtx = record ctx {
        recv_buf = record ctx.recv_buf { content = ctx.recv_buf.content ++ xs };
      } in
      let net' : Net W = record net { world = w } in
      let size : length ctx'.recv_buf.content ≡ 65535 =
        ground (arith, n, space, length-append ctx.recv_buf.content xs, ap length start) in
      let (w', ys, e', n') =
        recv_upstream-fills ctx' net' false f (omega (arith, size, space, ap length start)) in
      let large : 65535 < length (ctx'.recv_buf.content ++ ys) =
        ground (arith, n', size, space, ap length start, length-append ctx'.recv_buf.content ys) in
      rw (e, e')
        (send_downstream-oversize
          (record ctx { recv_buf = record ctx.recv_buf { content = ctx'.recv_buf.content ++ ys } })
          (record net { world = w' }) false p installed few filtered empty idle large)
