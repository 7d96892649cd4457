-- ===== src/Connect/Release.antt =====
-- `tunnel_connect_finalize_request` of src/connect.c, and the calls that may give back the reference
-- of the content handler.
use ngx_http_tunnel_module.Common.{
  ◌-◌, false, not, ◌&&◌, Option, none, some, List, [], ◌∷◌, ltb, if◌then◌else◌,
}
use ngx_http_tunnel_module.Rc.{Rc}
use ngx_http_tunnel_module.Context.{TunnelCtx}
use ngx_http_tunnel_module.Relay.Finalize.{Request, relay_finalize}

-- `if (r->main->count > 1) { r->main->count--; }`
abbrev pub drop_reference : Request → Request
drop_reference r = if ltb 1 r.count then record r { count = r.count - 1 } else r

unfoldable pub finalize_with_ctx : TunnelCtx × Request → TunnelCtx × Request
finalize_with_ctx (ctx, r) =
    if not ctx.finalized && ctx.content_handler_ref
    then (record ctx { content_handler_ref = false }, drop_reference r)
    else (ctx, r)

-- A context of none is NULL.
unfoldable pub connect_finalize_request : Option TunnelCtx → Request → Option TunnelCtx × Request
unfolding finalize_with_ctx
connect_finalize_request none r = (none, drop_reference r)
connect_finalize_request (some ctx) r =
    let (ctx', r') = finalize_with_ctx (ctx, r) in (some ctx', r')

-- nginx finalizes the upstream request, or the relay finalizes the tunnel, with its return code and
-- that of the last chunk.
pub data Release : Type 0 where
  by_upstream : Release
  by_relay : Rc → Rc → Release

unfoldable pub release : Release → TunnelCtx × Request → TunnelCtx × Request
unfolding finalize_with_ctx
release by_upstream s = finalize_with_ctx s
release (by_relay last rc) s = relay_finalize last s rc

abbrev pub releases : List Release → TunnelCtx × Request → TunnelCtx × Request
releases [] s = s
releases (x ∷ xs) s = releases xs (release x s)
