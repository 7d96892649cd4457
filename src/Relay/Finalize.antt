-- ===== src/Relay/Finalize.antt =====
-- `tunnel_relay_finalize` and `tunnel_relay_cleanup` of src/relay.c.
pub mod Once
use ngx_http_tunnel_module.Common.{
  ℕ, ◌+◌, ◌-◌, Bool, true, false, not, ◌&&◌, ◌||◌, Option, none, some, List, [], ◌∷◌, ◌++◌, ltb,
  if◌then◌else◌,
}
use ngx_http_tunnel_module.Rc.{Rc, ok, error, done, is_ok, is_special_response}
use ngx_http_tunnel_module.Context.{TunnelCtx, PaddingCtx}

-- The upstream connection `pc`.
pub record Peer : Type 0 where
  pub read_timer : Bool
  pub write_timer : Bool
  pub pool : Bool

-- `u`: whether `u->cleanup`, `u->resolved->ctx`, and both `u->peer.free` and `u->peer.sockaddr` are
-- there, and the connection.
pub record Upstream : Type 0 where
  pub cleanup : Bool
  pub resolving : Bool
  pub bound : Bool
  pub connection : Option Peer

-- The request `r`, its connection `c`, and how often what is to be done once has been done. The list
-- holds the return codes that `ngx_http_finalize_request` was called with.
pub record Request : Type 0 where
  pub count : ℕ
  pub stream_downstream : Bool
  pub http2 : Bool
  pub header_sent : Bool
  pub read_eof : Bool
  pub read_timer : Bool
  pub write_timer : Bool
  pub upstream : Option Upstream
  pub rst_data_prepended : ℕ
  pub names_done : ℕ
  pub peers_freed : ℕ
  pub pools_destroyed : ℕ
  pub connections_closed : ℕ
  pub finalized_with : List Rc

-- `tunnel_padding_active(padding) == NGX_OK`
abbrev pub padding_active : Option PaddingCtx → Bool
padding_active none = false
padding_active (some p) = true

abbrev one_if : Bool → ℕ
one_if b = if b then 1 else 0

-- `if (pc != NULL)`
close_peer : Option Peer → Request → Request
close_peer none r = r
close_peer (some pc) r = record r {
  pools_destroyed = r.pools_destroyed + one_if pc.pool;
  connections_closed = r.connections_closed + 1;
}

-- `if (u != NULL)`
close_upstream : Option Upstream → Request → Request
close_upstream none r = record r { upstream = none }
close_upstream (some u) r = close_peer u.connection (record r {
  names_done = r.names_done + one_if u.resolving;
  peers_freed = r.peers_freed + one_if u.bound;
  upstream = some (record { cleanup = false; resolving = false; bound = false; connection = none });
})

-- `last` is what `ngx_http_send_special(r, NGX_HTTP_LAST)` returns, if it is called.
ending_rc : Rc → TunnelCtx → Request → Rc → Rc
ending_rc last ctx r rc =
    if is_ok rc
      && r.stream_downstream
      && r.header_sent
      && (not r.http2 || not (padding_active ctx.padding))
    then last
    else rc

-- Once the response header has gone out, no error page can follow it.
final_rc : Request → Rc → Rc
final_rc r rc = if r.header_sent && is_special_response rc then error else rc

-- `ngx_http_finalize_request(r, rc)`
finalize_request : Rc → Request → Request
finalize_request rc r = record r { finalized_with = final_rc r rc ∷ r.finalized_with }

-- In front of `if (u != NULL)`: the reference, the end of the client's side, the DATA frame in front
-- of a reset (src/padding.c), and the timers. The timers do not matter to what stands in between.
stop_request : Bool → Request → Request
stop_request content_handler_ref r = record r {
  count = if content_handler_ref && ltb 1 r.count then r.count - 1 else r.count;
  read_eof = if r.stream_downstream then true else r.read_eof;
  rst_data_prepended = r.rst_data_prepended + 1;
  read_timer = false;
  write_timer = false;
}

pub relay_finalize : Rc → TunnelCtx × Request → Rc → TunnelCtx × Request
relay_finalize last (ctx, r) rc = if ctx.finalized then (ctx, r) else (
  record ctx { finalized = true; content_handler_ref = false },
  finalize_request (ending_rc last ctx r rc)
      (close_upstream r.upstream (stop_request ctx.content_handler_ref r)),
)

unfoldable pub relay_cleanup : Rc → TunnelCtx × Request → TunnelCtx × Request
relay_cleanup last s = relay_finalize last s done
