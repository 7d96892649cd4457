-- ===== src/Relay/Life.antt =====
-- The life of a tunnel (src/relay.c, src/connect.c, src/udp.c): its start when upstream is
-- connected, the event handlers, and the end.
pub mod Whole
pub mod Alive
pub mod Taken
mod Tests
use ngx_http_tunnel_module.Common.{
  ℕ, Bool, true, false, not, ◌&&◌, ◌||◌, Option, none, some, List, [], ◌∷◌, if◌then◌else◌, ◌≡◌,
}
use ngx_http_tunnel_module.Rc.{
  Rc, ok, error, done, status, is_ok, is_special_response, internal_server_error,
}
use ngx_http_tunnel_module.Context.{TunnelCtx}
use ngx_http_tunnel_module.Connect.Release.{drop_reference}
use ngx_http_tunnel_module.Relay.{Net, Nginx}
use ngx_http_tunnel_module.Relay.Process.{Ending, finalized, waiting, ProcessRelay}
use ngx_http_tunnel_module.Relay.Finalize.{Peer, Upstream, Request, relay_finalize, relay_cleanup}

-- A tunnel: the context, the connections, the request, and whether the four event handlers of the
-- relay and its cleanup handler are installed. `net` is not read any more once the tunnel is
-- finalized.
pub record Tunnel (W : Type 0) : Type 0 where
  pub ctx : TunnelCtx
  pub net : Net W
  pub request : Request
  pub handlers : Bool
  pub cleanup : Bool
  pub keepalive : Bool
  pub no_buffering : Bool

-- The configuration, and what nginx returns: whether the two calls of `ngx_tcp_nodelay` and
-- `ngx_http_cleanup_add` succeed, and `r->stream && r->stream->in_closed`. `read_client_body` takes
-- the handler that it posts; `send_last` is what `ngx_http_send_special` returns.
pub record StartNginx (W : Type 0) : Type 0 where
  pub core_nodelay : Bool
  pub tunnel_nodelay : Bool
  pub client_nodelay : Bool
  pub peer_nodelay : Bool
  pub in_closed : Bool
  pub read_client_body : (Request → Request) → Net W → Request → Rc × Net W × Request
  pub cleanup_add : Bool
  pub send_last : W → Rc

-- What the two `process_header` functions write of `r->upstream`: the status, `keepalive` and
-- `upgrade`.
pub record UpstreamAnswer : Type 0 where
  pub status_n : ℕ
  pub keepalive : Bool
  pub upgrade : Bool

abbrev pub status_established : UpstreamAnswer → UpstreamAnswer
status_established u = record u { status_n = 200; keepalive = false }

-- `request_body_post_handler`
unfoldable pub request_body_post_handler : Request → Request
request_body_post_handler r = drop_reference r

-- The timers of the upstream connection, in one state.
abbrev pub connection_timers : Bool → Option Peer → Option Peer
connection_timers set none = none
connection_timers set (some pc) = some (record pc { read_timer = set; write_timer = set })

abbrev pub upstream_timers : Bool → Option Upstream → Option Upstream
upstream_timers set none = none
upstream_timers set (some u) = some (record u { connection = connection_timers set u.connection })

abbrev pub peer_timers : Bool → Request → Request
peer_timers set r = record r { upstream = upstream_timers set r.upstream }

-- All four set.
abbrev pub idle_timers : Request → Request
idle_timers r = peer_timers true (record r { read_timer = true; write_timer = true })

-- The event handlers.
pub data Handler : Type 0 where
  downstream_read downstream_write upstream_read upstream_write : Handler

-- The arguments `from_upstream` and `do_write` of the call that each makes.
abbrev pub from_upstream : Handler → Bool
from_upstream downstream_read = false
from_upstream downstream_write = true
from_upstream upstream_read = true
from_upstream upstream_write = false

abbrev pub do_write : Handler → Bool
do_write downstream_read = false
do_write downstream_write = true
do_write upstream_read = false
do_write upstream_write = true

module _ {W : Type 0} (nginx : Nginx W) (start : StartNginx W) where
  unfoldable pub init_request_body : Tunnel W → Rc × Tunnel W
  init_request_body l =
      let (rc, net, request) = start.read_client_body request_body_post_handler l.net l.request in
      if not l.request.stream_downstream
      then (ok, l)
      else if start.in_closed
      then (ok, record l { ctx = record l.ctx { downstream_eof = true } })
      else (
        if is_special_response rc then rc else ok,
        record l { net = net; request = request; no_buffering = true },
      )

  -- Behind `tunnel_relay_init_request_body`, up to the timers.
  unfoldable pub install : Rc × Tunnel W → Rc × Tunnel W
  install (rc, l) =
      let installed = record l { handlers = true } in
      if not (is_ok rc)
      then (rc, l)
      else if not start.cleanup_add
      then (error, installed)
      else (ok, record installed { cleanup = true; request = idle_timers l.request })

  -- The two calls of `ngx_tcp_nodelay`
  abbrev pub nodelay_fails : Tunnel W → Bool
  nodelay_fails l =
      (start.core_nodelay || start.tunnel_nodelay)
      && ((l.request.http2 && not start.client_nodelay)
          || (not l.net.datagram && not start.peer_nodelay))

  -- In front of the two calls of `process_relay`.
  unfoldable pub prepare : Tunnel W → Rc × Tunnel W
  unfolding init_request_body install
  prepare l =
      let stopped = record l { request = peer_timers false l.request; keepalive = false } in
      if not l.net.pc
      then (error, l)
      else if nodelay_fails l
      then (error, stopped)
      else install (init_request_body stopped)

  unfoldable pub finalize : Rc → Tunnel W → Tunnel W
  finalize rc l =
      let (ctx, request) = relay_finalize (start.send_last l.net.world) (l.ctx, l.request) rc in
      record l { ctx = ctx; request = request }

  unfoldable pub clean_up : Tunnel W → Tunnel W
  clean_up l =
      let (ctx, request) = relay_cleanup (start.send_last l.net.world) (l.ctx, l.request) in
      record l { ctx = ctx; request = request }

  -- How `process_relay` leaves the tunnel.
  unfoldable pub after_relay : Ending → Tunnel W → Tunnel W
  unfolding finalize
  after_relay (finalized rc) l = finalize rc l
  after_relay (waiting true) l = record l { request = idle_timers l.request }
  after_relay (waiting false) l = l

  -- `process_relay`, its first test included.
  pub data Process (from_upstream do_write : Bool) (l : Tunnel W) : Tunnel W → Type 0 where
    no_more : l.ctx.finalized ≡ true → Process from_upstream do_write l l
    relays :
        {r : TunnelCtx × Net W × Ending}
        → l.ctx.finalized ≡ false
        → ProcessRelay nginx from_upstream do_write l.ctx l.net r
        → Process from_upstream do_write l (after_relay r.2 (record l { ctx = r.0; net = r.1 }))

  pub data RelayStart (l : Tunnel W) : Rc × Tunnel W → Type 0 where
    not_started : is_ok (prepare l).0 ≡ false → RelayStart l (prepare l)
    ended_at_once :
        {l' : Tunnel W}
        → is_ok (prepare l).0 ≡ true
        → Process true true (prepare l).1 l'
        → l'.ctx.finalized ≡ true
        → RelayStart l (ok, l')
    started :
        {l' l'' : Tunnel W}
        → is_ok (prepare l).0 ≡ true
        → Process true true (prepare l).1 l'
        → l'.ctx.finalized ≡ false
        → Process false false l' l''
        → RelayStart l (ok, l'')

  -- What the two `process_header` functions do behind `tunnel_relay_start`; both return NGX_DONE
  -- then.
  unfoldable pub start_answered : Rc × Tunnel W → Tunnel W
  unfolding finalize
  start_answered (rc, l) =
      if not (is_ok rc)
      then finalize (if is_special_response rc then rc else internal_server_error) l
      else l

  -- `tunnel_connect_process_header`; `has_ctx` is whether the request has a context.
  pub data ConnectProcessHeader (has_ctx : Bool) (u : UpstreamAnswer) (l : Tunnel W)
      : Rc × UpstreamAnswer × Tunnel W → Type 0 where
    raw_client :
        l.request.stream_downstream ≡ false
        → ConnectProcessHeader has_ctx u l
            (ok, record (status_established u) { upgrade = true }, record l { keepalive = false })
    no_context :
        l.request.stream_downstream ≡ true
        → has_ctx ≡ false
        → ConnectProcessHeader has_ctx u l
            (error, status_established u, record l { keepalive = false })
    stream_client :
        {r : Rc × Tunnel W}
        → l.request.stream_downstream ≡ true
        → has_ctx ≡ true
        → RelayStart (record l { keepalive = false }) r
        → ConnectProcessHeader has_ctx u l (done, status_established u, start_answered r)

  -- `tunnel_udp_process_header`
  pub data UdpProcessHeader (has_ctx : Bool) (u : UpstreamAnswer) (l : Tunnel W)
      : Rc × UpstreamAnswer × Tunnel W → Type 0 where
    no_context :
        has_ctx ≡ false
        → UdpProcessHeader has_ctx u l (error, status_established u, record l { keepalive = false })
    any_client :
        {r : Rc × Tunnel W}
        → has_ctx ≡ true
        → RelayStart (record l { keepalive = false }) r
        → UdpProcessHeader has_ctx u l (done, status_established u, start_answered r)

  -- Without a context the request ends with 500, or `process_relay` returns at once.
  abbrev pub without_context : Handler → Tunnel W → Tunnel W
  without_context downstream_read l = record l {
    request = record l.request {
      finalized_with = internal_server_error ∷ l.request.finalized_with;
    };
  }
  without_context downstream_write l = record l {
    request = record l.request {
      finalized_with = internal_server_error ∷ l.request.finalized_with;
    };
  }
  without_context upstream_read l = l
  without_context upstream_write l = l

  pub data Handles (h : Handler) (has_ctx : Bool) (l : Tunnel W) : Tunnel W → Type 0 where
    missing : has_ctx ≡ false → Handles h has_ctx l (without_context h l)
    handled :
        {l' : Tunnel W}
        → has_ctx ≡ true
        → Process (from_upstream h) (do_write h) l l'
        → Handles h has_ctx l l'

  -- What may happen to a tunnel with its context from `l` on: events, the end of the request's
  -- pool, and whatever else changes the connections.
  pub data Life (l : Tunnel W) : Tunnel W → Type 0 where
    here : Life l l
    event : {l' l'' : Tunnel W} (h : Handler) → Life l l' → Handles h true l' l'' → Life l l''
    pool_destroyed : {l' : Tunnel W} → Life l l' → Life l (clean_up l')
    elsewhere : {l' : Tunnel W} (net : Net W) → Life l l' → Life l (record l' { net = net })
