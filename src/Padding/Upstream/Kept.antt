-- ===== src/Padding/Upstream/Kept.antt =====
-- `tunnel_padding_upstream_filter` (src/padding.c) leaves the flags of the context alone.
use ngx_http_tunnel_module.Common.{
  ℕ, ◌+◌, Bool, ◌||◌, length, ltb, leb, ◌==◌, ◌≡◌, if_cases, option_cases,
}
use ngx_http_tunnel_module.Rc.{Rc, ok, error, again, busy, done, declined, abort, status}
use ngx_http_tunnel_module.Buffers.{Buf, room, prepare_addition_header}
use ngx_http_tunnel_module.Context.{
  TunnelCtx, PaddingCtx, first_paddings, padding_header_size, max_padding_payload, max_padding_size,
}
use ngx_http_tunnel_module.Context.Kept.{ending_flags, KeepsFlags}
use ngx_http_tunnel_module.Padding.Upstream.{write_frame, padding_upstream_filter}

module _ (flags : Bool × Bool) where
  write_frame-KeepsFlags :
      (ctx : TunnelCtx) (p : PaddingCtx) (activity : Bool) (rc : Rc) (hb : Buf) (padding_size : ℕ)
      → ending_flags ctx ≡ flags
      → KeepsFlags flags (write_frame ctx p activity rc hb padding_size)
  unfolding write_frame
  write_frame-KeepsFlags ctx p activity again hb padding_size h = h
  write_frame-KeepsFlags ctx p activity ok hb padding_size h =
      if_cases (KeepsFlags flags) (leb first_paddings (p.upstream_count + 1)) _ _ (λ _. h) (λ _. h)
  write_frame-KeepsFlags ctx p activity error hb padding_size h = h
  write_frame-KeepsFlags ctx p activity busy hb padding_size h = h
  write_frame-KeepsFlags ctx p activity done hb padding_size h = h
  write_frame-KeepsFlags ctx p activity declined hb padding_size h = h
  write_frame-KeepsFlags ctx p activity abort hb padding_size h = h
  write_frame-KeepsFlags ctx p activity (status n) hb padding_size h = h

  pub padding_upstream_filter-KeepsFlags :
      (random : ℕ) (ctx : TunnelCtx) (activity : Bool)
      → ending_flags ctx ≡ flags
      → KeepsFlags flags (padding_upstream_filter random ctx activity)
  unfolding padding_upstream_filter
  padding_upstream_filter-KeepsFlags random ctx activity h =
      let (rc, hb) = prepare_addition_header ctx.header_buf padding_header_size in
      option_cases (KeepsFlags flags) ctx.padding _ _ (λ _. h)
        (λ p _.
          if_cases (KeepsFlags flags) (leb first_paddings p.upstream_count) _ _ (λ _. h)
            (λ _.
              if_cases (KeepsFlags flags) (length ctx.send_buf.content == 0) _ _ (λ _. h)
                (λ _.
                  if_cases (KeepsFlags flags)
                    (ltb max_padding_payload (length ctx.send_buf.content)
                      || ltb (room ctx.send_buf) max_padding_size)
                    _ _ (λ _. h) (λ _. write_frame-KeepsFlags ctx p activity rc hb _ h))))
