-- ===== src/Capsule/Upstream/Kept.antt =====
-- `tunnel_capsule_upstream_filter` (src/capsule.c) leaves the flags of the context alone.
use ngx_http_tunnel_module.Common.{
  ℕ, ◌+◌, Bool, not, ◌&&◌, ◌||◌, length, ltb, ◌==◌, ◌≡◌, if_cases, option_cases,
}
use ngx_http_tunnel_module.Rc.{Rc, ok, error, again, busy, done, declined, abort, status}
use ngx_http_tunnel_module.Buffers.{Buf, room, prepare_addition_header}
use ngx_http_tunnel_module.Context.{TunnelCtx, header_reserve_bytes}
use ngx_http_tunnel_module.Context.Kept.{ending_flags, KeepsFlags}
use ngx_http_tunnel_module.Capsule.Upstream.{encode_header, write_header, capsule_upstream_filter}
use ngx_http_tunnel_module.Capsule.Varint.{varint_size}
use ngx_http_tunnel_module.Capsule.Downstream.{capsule_datagram, datagram_context_id}

module _ (flags : Bool × Bool) where
  write_header-KeepsFlags :
      (ctx : TunnelCtx) (activity : Bool) (rc : Rc) (hb : Buf) (capsule_len : ℕ)
      → ending_flags ctx ≡ flags
      → KeepsFlags flags (write_header ctx activity rc hb capsule_len)
  unfolding write_header
  write_header-KeepsFlags ctx activity again hb capsule_len h = h
  write_header-KeepsFlags ctx activity ok hb capsule_len h =
      option_cases (KeepsFlags flags) (encode_header (room hb) capsule_len) _ _ (λ _. h)
        (λ bytes _. h)
  write_header-KeepsFlags ctx activity error hb capsule_len h = h
  write_header-KeepsFlags ctx activity busy hb capsule_len h = h
  write_header-KeepsFlags ctx activity done hb capsule_len h = h
  write_header-KeepsFlags ctx activity declined hb capsule_len h = h
  write_header-KeepsFlags ctx activity abort hb capsule_len h = h
  write_header-KeepsFlags ctx activity (status n) hb capsule_len h = h

  pub capsule_upstream_filter-KeepsFlags :
      (ctx : TunnelCtx) (activity : Bool)
      → ending_flags ctx ≡ flags
      → KeepsFlags flags (capsule_upstream_filter ctx activity)
  unfolding capsule_upstream_filter
  capsule_upstream_filter-KeepsFlags ctx activity h =
      let payload_len = length ctx.send_buf.content in
      let context_len = varint_size datagram_context_id in
      let capsule_len = context_len + payload_len in
      let header_len = varint_size capsule_datagram + varint_size capsule_len + context_len in
      let (rc, hb) = prepare_addition_header ctx.header_buf header_len in
      if_cases (KeepsFlags flags) (payload_len == 0 && not ctx.upstream_empty_datagram) _ _ (λ _. h)
        (λ _.
          if_cases (KeepsFlags flags)
            (context_len == 0
              || varint_size capsule_len == 0
              || ltb header_reserve_bytes header_len)
            _ _ (λ _. h) (λ _. write_header-KeepsFlags ctx activity rc hb capsule_len h))
