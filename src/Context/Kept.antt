-- ===== src/Context/Kept.antt =====
-- The parts of a context (src/ngx_http_tunnel_module.h) that the functions of one direction leave
-- alone.
use ngx_http_tunnel_module.Common.{Bool, Option, ◌≡◌}
use ngx_http_tunnel_module.Buffers.{Buf}
use ngx_http_tunnel_module.Context.{TunnelCtx, Filter, Outcome}

-- Whether the tunnel is finalized, and whether the reference is noted.
abbrev pub ending_flags : TunnelCtx → Bool × Bool
ending_flags ctx = (ctx.finalized, ctx.content_handler_ref)

-- What belongs to the way from upstream to the client, and the flags.
abbrev pub download_side : TunnelCtx → Option Filter × Buf × Buf × Buf × Bool × Bool
download_side ctx = (
  ctx.upstream_filter, ctx.header_buf, ctx.send_buf, ctx.recv_buf, ctx.finalized,
  ctx.content_handler_ref,
)

abbrev pub KeepsDownload : Option Filter × Buf × Buf × Buf × Bool × Bool → Outcome → Type 0
KeepsDownload side o = download_side o.ctx ≡ side

abbrev pub KeepsFlags : Bool × Bool → Outcome → Type 0
KeepsFlags flags o = ending_flags o.ctx ≡ flags
