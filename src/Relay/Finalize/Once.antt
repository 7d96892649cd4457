-- ===== src/Relay/Finalize/Once.antt =====
-- Calls of `tunnel_relay_finalize` (src/relay.c), one after the other.
use ngx_http_tunnel_module.Common.{
  ℕ, ◌+◌, ◌<◌, ◌≡◌, refl, sym, ap, ◌∙◌, Bool, true, false, ◌&&◌, Option, none, some, List, [], ◌∷◌,
  ◌-◌, ltb, if◌then◌else◌, arith, Bool-cases, inl, inr, Option-cases,
}
use ngx_http_tunnel_module.Rc.{Rc, is_special_response}
use ngx_http_tunnel_module.Context.{TunnelCtx}
use ngx_http_tunnel_module.Relay.Finalize.{
  Peer, Upstream, Request, one_if, close_peer, close_upstream, ending_rc, final_rc,
  finalize_request, stop_request, relay_finalize,
}

-- Nothing of the upstream connection is left.
abbrev pub IsReleased : Option Upstream → Type 0
IsReleased none = Unit {0}
IsReleased (some u) =
    (u.cleanup ≡ false) × (u.resolving ≡ false) × (u.bound ≡ false) × (u.connection ≡ none)

-- The connections that there are to close.
abbrev pub open_connections : Option Upstream → ℕ
open_connections none = 0
open_connections (some u) = elim u.connection [ none ↦ 0 | some pc ↦ 1 ]

-- The names that are being resolved, the addresses that the balancer keeps, and the pools of
-- connections.
abbrev pub pending_names : Option Upstream → ℕ
pending_names none = 0
pending_names (some u) = elim u.resolving [ false ↦ 0 | true ↦ 1 ]

abbrev pub bound_peers : Option Upstream → ℕ
bound_peers none = 0
bound_peers (some u) = elim u.bound [ false ↦ 0 | true ↦ 1 ]

abbrev pub pool_of : Peer → ℕ
pool_of pc = elim pc.pool [ false ↦ 0 | true ↦ 1 ]

abbrev pub connection_pools : Option Upstream → ℕ
connection_pools none = 0
connection_pools (some u) = elim u.connection [ none ↦ 0 | some pc ↦ pool_of pc ]

pub record Finalized (before after : Request) : Type 0 where
  pub timers : (after.read_timer ≡ false) × (after.write_timer ≡ false)
  pub released : IsReleased after.upstream
  pub closed :
      after.connections_closed ≡ before.connections_closed + open_connections before.upstream
  pub names : after.names_done ≡ before.names_done + pending_names before.upstream
  pub freed : after.peers_freed ≡ before.peers_freed + bound_peers before.upstream
  pub pools : after.pools_destroyed ≡ before.pools_destroyed + connection_pools before.upstream
  pub counted : 0 < after.count
  pub prepended : after.rst_data_prepended ≡ before.rst_data_prepended + 1
  pub rc : Rc
  pub answered : after.finalized_with ≡ rc ∷ before.finalized_with
  pub no_page : before.header_sent && is_special_response rc ≡ false

-- The calls, one after the other: each with its return code, and with what sending the last chunk
-- would return.
abbrev pub finalize_calls : List (Rc × Rc) → TunnelCtx × Request → TunnelCtx × Request
finalize_calls [] s = s
finalize_calls ((last, rc) ∷ calls) s = finalize_calls calls (relay_finalize last s rc)

pub relay_finalize-finalized :
    (last : Rc) (s : TunnelCtx × Request) (rc : Rc)
    → s.0.finalized ≡ true
    → relay_finalize last s rc ≡ s
unfolding relay_finalize
relay_finalize-finalized last (ctx, r) rc e = simp (e, relay_finalize)

finalize_calls-finalized :
    (calls : List (Rc × Rc)) (s : TunnelCtx × Request)
    → s.0.finalized ≡ true
    → finalize_calls calls s ≡ s
finalize_calls-finalized [] s e = refl
finalize_calls-finalized ((last, rc) ∷ calls) s e =
    let same : relay_finalize last s rc ≡ s = relay_finalize-finalized last s rc e in
    ap (finalize_calls calls) same ∙ finalize_calls-finalized calls s e

-- What `close_upstream` does and what it leaves alone.
record Closes (u : Option Upstream) (before after : Request) : Type 0 where
  released : IsReleased after.upstream
  closed : after.connections_closed ≡ before.connections_closed + open_connections u
  names : after.names_done ≡ before.names_done + pending_names u
  freed : after.peers_freed ≡ before.peers_freed + bound_peers u
  pools : after.pools_destroyed ≡ before.pools_destroyed + connection_pools u
  count : after.count ≡ before.count
  timers : (after.read_timer ≡ before.read_timer) × (after.write_timer ≡ before.write_timer)
  prepended : after.rst_data_prepended ≡ before.rst_data_prepended
  answered : after.finalized_with ≡ before.finalized_with
  header : after.header_sent ≡ before.header_sent

one_if-eq : (b : Bool) → one_if b ≡ elim b [ false ↦ 0 | true ↦ 1 ]
one_if-eq false = refl
one_if-eq true = refl

close_upstream-Closes : (u : Option Upstream) (r : Request) → Closes u r (close_upstream u r)
unfolding close_upstream close_peer
close_upstream-Closes none r = record {
  released = tt;
  closed = omega arith;
  names = omega arith;
  freed = omega arith;
  pools = omega arith;
  count = refl;
  timers = (refl, refl);
  prepended = refl;
  answered = refl;
  header = refl;
}
close_upstream-Closes (some u) r = elim (Option-cases u.connection) [
  | inl e ↦
      rw (e, close_upstream)
        (record {
          released = (refl, refl, refl, refl);
          closed = omega arith;
          names = ap (λ n. r.names_done + n) (one_if-eq u.resolving);
          freed = ap (λ n. r.peers_freed + n) (one_if-eq u.bound);
          pools = omega arith;
          count = refl;
          timers = (refl, refl);
          prepended = refl;
          answered = refl;
          header = refl;
        })
  | inr (pc, e) ↦
      rw (e, close_upstream)
        (record {
          released = (refl, refl, refl, refl);
          closed = refl;
          names = ap (λ n. r.names_done + n) (one_if-eq u.resolving);
          freed = ap (λ n. r.peers_freed + n) (one_if-eq u.bound);
          pools = ap (λ n. r.pools_destroyed + n) (one_if-eq pc.pool);
          count = refl;
          timers = (refl, refl);
          prepended = refl;
          answered = refl;
          header = refl;
        })
]

final_rc-no_page :
    (r : Request) (rc : Rc) → r.header_sent && is_special_response (final_rc r rc) ≡ false
unfolding final_rc
final_rc-no_page r rc = elim (Bool-cases (r.header_sent && is_special_response rc)) [
  | inl e ↦ rw e (elim (Bool-cases r.header_sent) [ inl h ↦ rw h refl | inr h ↦ rw h refl ])
  | inr e ↦ rw e e
]

count-stop_request : (ref : Bool) (r : Request) → 0 < r.count → 0 < (stop_request ref r).count
unfolding stop_request
count-stop_request ref r pos = ground arith

finalize_request-Finalized :
    (ref : Bool) (r : Request) (rc : Rc)
    → 0 < r.count
    → Finalized r (finalize_request rc (close_upstream r.upstream (stop_request ref r)))
unfolding finalize_request stop_request
finalize_request-Finalized ref r rc pos =
    let c = close_upstream-Closes r.upstream (stop_request ref r) in
    let closed : Request = close_upstream r.upstream (stop_request ref r) in
    record {
      timers = c.timers;
      released = c.released;
      closed = c.closed;
      names = c.names;
      freed = c.freed;
      pools = c.pools;
      counted = omega (arith, c.count, count-stop_request ref r pos);
      prepended = c.prepended;
      rc = final_rc closed rc;
      answered = ap (λ l. final_rc closed rc ∷ l) c.answered;
      no_page =
          ap (λ h. h && is_special_response (final_rc closed rc)) (sym c.header)
          ∙ final_rc-no_page closed rc;
    }

relay_finalize-first :
    (last : Rc) (ctx : TunnelCtx) (r : Request) (rc : Rc)
    → ctx.finalized ≡ false
    → relay_finalize last (ctx, r) rc ≡ (
      record ctx { finalized = true; content_handler_ref = false },
      finalize_request
          (ending_rc last ctx r rc)
          (close_upstream r.upstream (stop_request ctx.content_handler_ref r)),
    )
unfolding relay_finalize
relay_finalize-first last ctx r rc e = simp (e, relay_finalize)

-- The first call takes the reference of the content handler away, where it is noted.
pub relay_finalize-count :
    (last : Rc) (ctx : TunnelCtx) (r : Request) (rc : Rc)
    → ctx.finalized ≡ false
    → let s = relay_finalize last (ctx, r) rc in
      (s.0.content_handler_ref ≡ false)
      × (s.1.count ≡ (if ctx.content_handler_ref && ltb 1 r.count then r.count - 1 else r.count))
unfolding stop_request finalize_request
relay_finalize-count last ctx r rc e =
    let c = close_upstream-Closes r.upstream (stop_request ctx.content_handler_ref r) in
    rw (relay_finalize-first last ctx r rc e) (refl, c.count)

-- For a tunnel that is not finalized and a request that is still referenced, the first of any
-- number of calls gives everything back, and the later ones change nothing: no timer of the
-- client's connection is left, nothing of the upstream connection is left, a connection that was
-- there is closed once and so is its pool, a name that was being resolved and an address that the
-- balancer kept are given back once, the request keeps a reference, and `ngx_http_finalize_request`
-- is called once, never with an error page once the response header has gone out.
pub finalize_calls-Finalized :
    (last rc : Rc) (calls : List (Rc × Rc)) (ctx : TunnelCtx) (r : Request)
    → ctx.finalized ≡ false
    → 0 < r.count
    → let s = finalize_calls ((last, rc) ∷ calls) (ctx, r) in
      (s.0.finalized ≡ true) × (s.0.content_handler_ref ≡ false) × Finalized r s.1
finalize_calls-Finalized last rc calls ctx r e pos =
    let first = relay_finalize-first last ctx r rc e in
    let done_then = ap (finalize_calls calls) first ∙ finalize_calls-finalized calls _ refl in
    rw done_then (
      refl,
      refl,
      finalize_request-Finalized ctx.content_handler_ref r (ending_rc last ctx r rc) pos,
    )
