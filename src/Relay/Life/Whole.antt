-- ===== src/Relay/Life/Whole.antt =====
-- The request of a tunnel (src/relay.c) while nothing of it has ended, and when all of it has.
use ngx_http_tunnel_module.Common.{
  ℕ, ◌<◌, Bool, true, false, ◌&&◌, some, ◌∷◌, ◌≡◌, refl, sym, ap, ◌∙◌, arith, ◌⊎◌,
}
use mathlib.Core.Path.{subst}
use ngx_http_tunnel_module.Rc.{is_special_response}
use ngx_http_tunnel_module.Relay.{Net}
use ngx_http_tunnel_module.Relay.Finalize.{Peer, Upstream, Request}
use ngx_http_tunnel_module.Relay.Finalize.Once.{
  Finalized, open_connections, pending_names, bound_peers, pool_of, connection_pools,
}
use ngx_http_tunnel_module.Relay.Life.{
  Tunnel, StartNginx, connection_timers, upstream_timers, peer_timers, idle_timers,
  request_body_post_handler,
}

-- Upstream is connected.
abbrev pub HasPeer : Request → Type 0
HasPeer r = (u : Upstream) × (pc : Peer) × (r.upstream ≡ some u) × (u.connection ≡ some pc)

-- Reading the body changes nothing of the request but its count, and the request stays referenced.
pub record ReadsBody {W : Type 0} (start : StartNginx W) : Type 0 where
  pub counted :
      (net : Net W) (r : Request)
      → 0 < r.count
      → (n : ℕ) × (0 < n)
        × ((start.read_client_body request_body_post_handler net r).2 ≡ record r { count = n })

-- Nothing of the request has ended.
pub record IsWhole (before r : Request) : Type 0 where
  pub peer : HasPeer r
  pub counted : 0 < r.count
  pub opened : open_connections r.upstream ≡ open_connections before.upstream
  pub held :
      (pending_names r.upstream ≡ pending_names before.upstream)
      × (bound_peers r.upstream ≡ bound_peers before.upstream)
      × (connection_pools r.upstream ≡ connection_pools before.upstream)
  pub given_back :
      (r.names_done ≡ before.names_done)
      × (r.peers_freed ≡ before.peers_freed)
      × (r.pools_destroyed ≡ before.pools_destroyed)
  pub closed : r.connections_closed ≡ before.connections_closed
  pub header : r.header_sent ≡ before.header_sent
  pub prepended : r.rst_data_prepended ≡ before.rst_data_prepended
  pub answered : r.finalized_with ≡ before.finalized_with

-- The four idle timers are set.
pub record IsTimed (r : Request) : Type 0 where
  pub client : (r.read_timer ≡ true) × (r.write_timer ≡ true)
  pub upstream : Upstream
  pub connection : Peer
  pub there : (r.upstream ≡ some upstream) × (upstream.connection ≡ some connection)
  pub peer : (connection.read_timer ≡ true) × (connection.write_timer ≡ true)

abbrev pub IsEnded : {W : Type 0} → Request → Tunnel W → Type 0
IsEnded before l =
    (l.ctx.finalized ≡ true) × (l.ctx.content_handler_ref ≡ false) × Finalized before l.request

-- The tunnel runs, with its timers set, or has ended in full.
abbrev pub IsAlive : {W : Type 0} → Request → Tunnel W → Type 0
IsAlive before l =
    ((l.ctx.finalized ≡ false) × IsWhole before l.request × IsTimed l.request) ⊎ IsEnded before l

pub IsWhole-refl : (r : Request) → HasPeer r → 0 < r.count → IsWhole r r
IsWhole-refl r peer counted = record {
  peer = peer;
  counted = counted;
  opened = refl;
  held = (refl, refl, refl);
  given_back = (refl, refl, refl);
  closed = refl;
  header = refl;
  prepended = refl;
  answered = refl;
}

peer_timers-some :
    (set : Bool) (r : Request) (u : Upstream) (pc : Peer)
    → r.upstream ≡ some u
    → u.connection ≡ some pc
    → peer_timers set r ≡ record r {
      upstream =
          some (record u { connection = some (record pc { read_timer = set; write_timer = set }) });
    }
peer_timers-some set r u pc e e' =
    ap (λ x. record r { upstream = upstream_timers set x }) e
    ∙ ap (λ x. record r { upstream = some (record u { connection = connection_timers set x }) }) e'

pub peer_timers-IsWhole :
    (before : Request) (set : Bool) (r : Request)
    → IsWhole before r
    → IsWhole before (peer_timers set r)
peer_timers-IsWhole before set r w =
    let (u, pc, e, e') = w.peer in
    let one : open_connections r.upstream ≡ 1 = rw (e, e') refl in
    let pools : connection_pools r.upstream ≡ pool_of pc = rw (e, e') refl in
    subst (IsWhole before) (sym (peer_timers-some set r u pc e e')) (record {
      peer = (_, _, refl, refl);
      counted = w.counted;
      opened = sym one ∙ w.opened;
      held = (
        sym (ap pending_names e) ∙ w.held.0,
        sym (ap bound_peers e) ∙ w.held.1,
        sym pools ∙ w.held.2,
      );
      given_back = w.given_back;
      closed = w.closed;
      header = w.header;
      prepended = w.prepended;
      answered = w.answered;
    })

pub idle_timers-IsWhole : (before r : Request) → IsWhole before r → IsWhole before (idle_timers r)
idle_timers-IsWhole before r w =
    peer_timers-IsWhole before true (record r { read_timer = true; write_timer = true })
      (record {
        peer = w.peer;
        counted = w.counted;
        opened = w.opened;
        held = w.held;
        given_back = w.given_back;
        closed = w.closed;
        header = w.header;
        prepended = w.prepended;
        answered = w.answered;
      })

pub idle_timers-IsTimed : (r : Request) → HasPeer r → IsTimed (idle_timers r)
idle_timers-IsTimed r (u, pc, e, e') =
    subst IsTimed
      (sym (peer_timers-some true (record r { read_timer = true; write_timer = true }) u pc e e'))
      (record {
        client = (refl, refl);
        upstream = _;
        connection = _;
        there = (refl, refl);
        peer = (refl, refl);
      })

-- What ends a request that is as it was, ends it as from the start.
pub Finalized-IsWhole :
    (before mid after : Request) → IsWhole before mid → Finalized mid after → Finalized before after
Finalized-IsWhole before mid after w f = record {
  timers = f.timers;
  released = f.released;
  closed = omega (arith, f.closed, w.closed, w.opened);
  names = omega (arith, f.names, w.held.0, w.given_back.0);
  freed = omega (arith, f.freed, w.held.1, w.given_back.1);
  pools = omega (arith, f.pools, w.held.2, w.given_back.2);
  counted = f.counted;
  prepended = omega (arith, f.prepended, w.prepended);
  rc = f.rc;
  answered = f.answered ∙ ap (λ l. f.rc ∷ l) w.answered;
  no_page = ap (λ h. h && is_special_response f.rc) (sym w.header) ∙ f.no_page;
}
