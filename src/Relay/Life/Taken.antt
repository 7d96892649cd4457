-- ===== src/Relay/Life/Taken.antt =====
-- A tunnel from the call that takes it over (src/relay.c, src/connect.c, src/udp.c).
use ngx_http_tunnel_module.Common.{
  ◌<◌, Bool, true, false, not, ◌||◌, ◌≡◌, refl, sym, ap, ◌∙◌, arith, if_cases, inl, inr, ◌⊎◌,
}
use mathlib.Core.Path.{subst}
use ngx_http_tunnel_module.Rc.{Rc, ok, done, is_ok}
use ngx_http_tunnel_module.Context.{TunnelCtx}
use ngx_http_tunnel_module.Context.Kept.{ending_flags}
use ngx_http_tunnel_module.Relay.{Net, Nginx}
use ngx_http_tunnel_module.Relay.Process.{
  Ending, finalized, ProcessRelay, no_peer, timed_out, loops,
}
use ngx_http_tunnel_module.Relay.Process.Kept.{process_relay-KeepsFlags}
use ngx_http_tunnel_module.Relay.Finalize.{Request}
use ngx_http_tunnel_module.Relay.Life.{
  Tunnel, StartNginx, UpstreamAnswer, raw_client, stream_client, any_client, peer_timers,
  init_request_body, install, nodelay_fails, prepare, after_relay, no_more, relays, RelayStart,
  not_started, ended_at_once, started, start_answered, ConnectProcessHeader, UdpProcessHeader,
  Handler, from_upstream, do_write, Handles, missing, handled, Life,
}
use ngx_http_tunnel_module.Relay.Life.Whole.{
  HasPeer, ReadsBody, IsWhole, IsTimed, IsEnded, IsAlive, IsWhole-refl, peer_timers-IsWhole,
  idle_timers-IsWhole, idle_timers-IsTimed,
}
use ngx_http_tunnel_module.Relay.Life.Alive.{
  finalize-IsEnded, finalized_ok-IsEnded, Process-IsAlive, Life-IsAlive,
}

module _ {W : Type 0} (nginx : Nginx W) (start : StartNginx W) where
  -- In front of the calls of `process_relay`.
  abbrev Prepared : Request → Rc × Tunnel W → Type 0
  Prepared before (rc, l) =
      (l.ctx.finalized ≡ false) × IsWhole before l.request × (is_ok rc ≡ true → IsTimed l.request)

  init_request_body-IsWhole :
      ReadsBody start
      → (before : Request) (l : Tunnel W) → l.ctx.finalized ≡ false
      → IsWhole before l.request
      → let r = init_request_body nginx start l in
        (r.1.ctx.finalized ≡ false) × IsWhole before r.1.request
  unfolding init_request_body
  init_request_body-IsWhole reads before l e w =
      let P : Rc × Tunnel W → Type 0 =
        λ r. (r.1.ctx.finalized ≡ false) × IsWhole before r.1.request in
      let (n, pos, same) = reads.counted l.net l.request w.counted in
      if_cases P (not l.request.stream_downstream) _ _ (λ _. (e, w))
        (λ _.
          if_cases P start.in_closed _ _ (λ _. (e, w))
            (λ _. (
              e,
              subst (IsWhole before) (sym same) (record {
                peer = w.peer;
                counted = pos;
                opened = w.opened;
                held = w.held;
                given_back = w.given_back;
                closed = w.closed;
                header = w.header;
                prepended = w.prepended;
                answered = w.answered;
              }),
            )))

  install-Prepared :
      (before : Request) (rc : Rc) (l : Tunnel W)
      → l.ctx.finalized ≡ false
      → IsWhole before l.request
      → Prepared before (install nginx start (rc, l))
  unfolding install
  install-Prepared before rc l e w =
      if_cases (Prepared before) (not (is_ok rc)) _ _ (λ f. (e, w, λ t. ground (arith, f, t)))
        (λ _.
          if_cases (Prepared before) (not start.cleanup_add) _ _
            (λ _. (e, w, λ t. ground (arith, t)))
            (λ _. (
              e,
              idle_timers-IsWhole before l.request w,
              λ _. idle_timers-IsTimed l.request w.peer,
            )))

  prepare-Prepared :
      ReadsBody start
      → (before : Request) (l : Tunnel W) → l.ctx.finalized ≡ false
      → IsWhole before l.request
      → Prepared before (prepare nginx start l)
  unfolding prepare
  prepare-Prepared reads before l e w =
      let stopped : Tunnel W = record l {
        request = peer_timers false l.request;
        keepalive = false;
      } in
      let w' = peer_timers-IsWhole before false l.request w in
      let (e'', w'') = init_request_body-IsWhole reads before stopped e w' in
      let r = init_request_body nginx start stopped in
      if_cases (Prepared before) (not l.net.pc) _ _ (λ _. (e, w, λ t. ground (arith, t)))
        (λ _.
          if_cases (Prepared before) (nodelay_fails nginx start l) _ _
            (λ _. (e, w', λ t. ground (arith, t))) (λ _. install-Prepared before r.0 r.1 e'' w''))

  relay_start-IsAlive :
      ReadsBody start
      → (before : Request) (l : Tunnel W) (r : Rc × Tunnel W) → RelayStart nginx start l r
      → l.ctx.finalized ≡ false
      → IsWhole before l.request
      → IsAlive before (start_answered nginx start r)
  unfolding start_answered
  relay_start-IsAlive reads before l r (not_started f) e w =
      let (e', w', timed) = prepare-Prepared reads before l e w in
      if_cases (IsAlive before) (not (is_ok (prepare nginx start l).0)) _ _
        (λ _. inr (finalize-IsEnded nginx start before _ (prepare nginx start l).1 e' w'))
        (λ g. ground (arith, f, g))
  relay_start-IsAlive reads before l r (ended_at_once {l' = l'} g p f) e w =
      let (e', w', timed) = prepare-Prepared reads before l e w in
      Process-IsAlive nginx start before true true (prepare nginx start l).1 l' p
        (inl (e', w', timed g))
  relay_start-IsAlive reads before l r (started {l' = l'} {l'' = l''} g p f p') e w =
      let (e', w', timed) = prepare-Prepared reads before l e w in
      Process-IsAlive nginx start before false false l' l'' p' (
        Process-IsAlive nginx start before true true (prepare nginx start l).1 l' p
          (inl (e', w', timed g)))

  -- A call of one of the two functions that nginx calls once upstream is connected, for a request
  -- with a context.
  abbrev pub Establishes : UpstreamAnswer → Tunnel W → Rc × UpstreamAnswer × Tunnel W → Type 0
  Establishes u l r =
      ConnectProcessHeader nginx start true u l r ⊎ UdpProcessHeader nginx start true u l r

  Establishes-IsAlive :
      ReadsBody start
      → (u : UpstreamAnswer) (l : Tunnel W) (r : Rc × UpstreamAnswer × Tunnel W) → Establishes u l r
      → r.0 ≡ done
      → l.ctx.finalized ≡ false
      → IsWhole l.request l.request
      → IsAlive l.request r.2
  Establishes-IsAlive reads u l r (inl (raw_client s)) d e w = ground (arith, d)
  Establishes-IsAlive reads u l r (inl (ConnectProcessHeader.no_context s c)) d e w =
      ground (arith, d)
  Establishes-IsAlive reads u l r (inl (stream_client {r = r'} s c start')) d e w =
      relay_start-IsAlive reads l.request (record l { keepalive = false }) r' start' e w
  Establishes-IsAlive reads u l r (inr (UdpProcessHeader.no_context c)) d e w = ground (arith, d)
  Establishes-IsAlive reads u l r (inr (any_client {r = r'} c start')) d e w =
      relay_start-IsAlive reads l.request (record l { keepalive = false }) r' start' e w

  -- From the call that takes a tunnel over once upstream is connected, through any events, whatever
  -- becomes of the connections in between: the tunnel runs, with nothing of it ended and its four
  -- idle timers set, or it has ended in full, once, with nothing of the upstream connection left,
  -- no timer of the client's connection, and `ngx_http_finalize_request` called once. This holds of
  -- a tunnel that the function takes over and that was not finalized, over a request that is
  -- referenced and whose upstream connection is there, where reading the client's body changes only
  -- the references of the request and keeps one.
  pub Establishes-Life-IsAlive :
      (u : UpstreamAnswer) (l : Tunnel W) (r : Rc × UpstreamAnswer × Tunnel W) (later : Tunnel W)
      → ReadsBody start
      → HasPeer l.request
      → 0 < l.request.count
      → l.ctx.finalized ≡ false
      → Establishes u l r
      → r.0 ≡ done
      → Life nginx start r.2 later
      → IsAlive l.request later
  Establishes-Life-IsAlive u l r later reads peer counted e taken d life =
      Life-IsAlive nginx start l.request r.2 later life
        (Establishes-IsAlive reads u l r taken d e (IsWhole-refl l.request peer counted))

  timed_out-finalizes :
      (from write : Bool) (l : Tunnel W) (r : TunnelCtx × Net W × Ending)
      → l.net.c_read.timedout || l.net.c_write.timedout || l.net.pc_read.timedout
          || l.net.pc_write.timedout
        ≡ true
      → ProcessRelay nginx from write l.ctx l.net r
      → r.2 ≡ finalized ok
  timed_out-finalizes from write l r t (no_peer p) = refl
  timed_out-finalizes from write l r t (timed_out p t') = refl
  timed_out-finalizes from write l r t (loops p t' more) = ground (arith, t, t')

  timed_out-finishes :
      (before : Request) (l l' : Tunnel W) (h : Handler)
      → IsAlive before l
      → l.net.c_read.timedout || l.net.c_write.timedout || l.net.pc_read.timedout
          || l.net.pc_write.timedout
        ≡ true
      → Handles nginx start h true l l'
      → IsEnded before l'
  timed_out-finishes before l l' h a t (missing e) = ground (arith, e)
  timed_out-finishes before l l' h (inr over) t (handled e (no_more f)) = over
  timed_out-finishes before l l' h (inl (g, w, timed)) t (handled e (no_more f)) =
      ground (arith, f, g)
  timed_out-finishes before l l' h (inr (f, ref, fin)) t (handled e (relays g p)) =
      ground (arith, f, g)
  timed_out-finishes before l l' h (inl (g', w, timed)) t (handled e (relays {r = r} g p)) =
      let kept =
        process_relay-KeepsFlags nginx (ending_flags l.ctx) (from_upstream h) (do_write h) l.ctx
          l.net r p refl in
      let first : Bool × Bool → Bool = λ s. s.0 in
      let l1 : Tunnel W = record l { ctx = r.0; net = r.1 } in
      subst (λ x. IsEnded before (after_relay nginx start x l1))
        (sym (timed_out-finalizes (from_upstream h) (do_write h) l r t p))
        (finalized_ok-IsEnded nginx start before l1 (ap first kept ∙ g) w)

  -- The idle timeout ends a tunnel: whatever has happened since it was taken over, the next event
  -- behind a timer of it that has run out leaves it ended in full. The conditions are those of the
  -- theorem above.
  pub timed_out-IsEnded :
      (u : UpstreamAnswer) (l : Tunnel W) (r : Rc × UpstreamAnswer × Tunnel W)
      (later last : Tunnel W) (h : Handler)
      → ReadsBody start
      → HasPeer l.request
      → 0 < l.request.count
      → l.ctx.finalized ≡ false
      → Establishes u l r
      → r.0 ≡ done
      → Life nginx start r.2 later
      → later.net.c_read.timedout || later.net.c_write.timedout || later.net.pc_read.timedout
          || later.net.pc_write.timedout
        ≡ true
      → Handles nginx start h true later last
      → IsEnded l.request last
  timed_out-IsEnded u l r later last h reads peer counted e taken d life t handles =
      timed_out-finishes l.request later last h
        (Establishes-Life-IsAlive u l r later reads peer counted e taken d life) t handles
