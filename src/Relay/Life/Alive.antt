-- ===== src/Relay/Life/Alive.antt =====
-- What holds of a tunnel (src/relay.c) after any number of events.
use ngx_http_tunnel_module.Common.{Bool, true, false, [], ◌≡◌, refl, sym, ap, ◌∙◌, arith, inl, inr}
use mathlib.Core.Path.{subst}
use ngx_http_tunnel_module.Rc.{Rc, ok, done}
use ngx_http_tunnel_module.Context.{TunnelCtx}
use ngx_http_tunnel_module.Context.Kept.{ending_flags}
use ngx_http_tunnel_module.Relay.{Nginx}
use ngx_http_tunnel_module.Relay.Process.{Ending, finalized, waiting}
use ngx_http_tunnel_module.Relay.Process.Kept.{process_relay-KeepsFlags}
use ngx_http_tunnel_module.Relay.Finalize.{Request, relay_cleanup}
use ngx_http_tunnel_module.Relay.Finalize.Once.{relay_finalize-finalized, finalize_calls-Finalized}
use ngx_http_tunnel_module.Relay.Life.{
  Tunnel, StartNginx, finalize, clean_up, after_relay, Process, no_more, relays, from_upstream,
  do_write, missing, handled, Life, here, event, pool_destroyed, elsewhere,
}
use ngx_http_tunnel_module.Relay.Life.Whole.{
  IsWhole, IsTimed, IsEnded, IsAlive, idle_timers-IsWhole, idle_timers-IsTimed, Finalized-IsWhole,
}

module _ {W : Type 0} (nginx : Nginx W) (start : StartNginx W) where
  pub finalize-IsEnded :
      (before : Request) (rc : Rc) (l : Tunnel W)
      → l.ctx.finalized ≡ false
      → IsWhole before l.request
      → IsEnded before (finalize nginx start rc l)
  unfolding finalize
  finalize-IsEnded before rc l e w =
      let (f, ref, fin) =
        finalize_calls-Finalized (start.send_last l.net.world) rc [] l.ctx l.request e w.counted in
      (f, ref, Finalized-IsWhole before l.request _ w fin)

  clean_up-IsEnded :
      (before : Request) (l : Tunnel W)
      → l.ctx.finalized ≡ false
      → IsWhole before l.request
      → IsEnded before (clean_up nginx start l)
  unfolding clean_up relay_cleanup
  clean_up-IsEnded before l e w =
      let (f, ref, fin) =
        finalize_calls-Finalized (start.send_last l.net.world) done [] l.ctx l.request e
          w.counted in
      (f, ref, Finalized-IsWhole before l.request _ w fin)

  clean_up-IsAlive :
      (before : Request) (l : Tunnel W) → IsAlive before l → IsAlive before (clean_up nginx start l)
  unfolding clean_up relay_cleanup
  clean_up-IsAlive before l (inl (e, w, t)) = inr (clean_up-IsEnded before l e w)
  clean_up-IsAlive before l (inr over) =
      let same =
        relay_finalize-finalized (start.send_last l.net.world) (l.ctx, l.request) done over.0 in
      subst (λ (s : TunnelCtx × Request). IsAlive before (record l { ctx = s.0; request = s.1 }))
        (sym same) (inr over)

  after_relay-IsAlive :
      (before : Request) (ending : Ending) (l : Tunnel W)
      → l.ctx.finalized ≡ false
      → IsWhole before l.request
      → IsTimed l.request
      → IsAlive before (after_relay nginx start ending l)
  unfolding after_relay
  after_relay-IsAlive before (finalized rc) l e w t = inr (finalize-IsEnded before rc l e w)
  after_relay-IsAlive before (waiting true) l e w t =
      inl (e, idle_timers-IsWhole before l.request w, idle_timers-IsTimed l.request w.peer)
  after_relay-IsAlive before (waiting false) l e w t = inl (e, w, t)

  pub finalized_ok-IsEnded :
      (before : Request) (l : Tunnel W)
      → l.ctx.finalized ≡ false
      → IsWhole before l.request
      → IsEnded before (after_relay nginx start (finalized ok) l)
  unfolding after_relay
  finalized_ok-IsEnded before l e w = finalize-IsEnded before ok l e w

  pub Process-IsAlive :
      (before : Request) (from write : Bool) (l l' : Tunnel W)
      → Process nginx start from write l l'
      → IsAlive before l
      → IsAlive before l'
  Process-IsAlive before from write l l' (no_more e) a = a
  Process-IsAlive before from write l l' (relays {r = r} e p) (inr (f, ref, fin)) =
      ground (arith, e, f)
  Process-IsAlive before from write l l' (relays {r = r} e p) (inl (e', w, t)) =
      let kept =
        process_relay-KeepsFlags nginx (ending_flags l.ctx) from write l.ctx l.net r p refl in
      let first : Bool × Bool → Bool = λ s. s.0 in
      after_relay-IsAlive before r.2 (record l { ctx = r.0; net = r.1 }) (ap first kept ∙ e) w t

  pub Life-IsAlive :
      (before : Request) (l l' : Tunnel W)
      → Life nginx start l l'
      → IsAlive before l
      → IsAlive before l'
  Life-IsAlive before l l' here a = a
  Life-IsAlive before l l' (event h life (missing e)) a = ground (arith, e)
  Life-IsAlive before l l' (event h life (handled e p)) a =
      Process-IsAlive before (from_upstream h) (do_write h) _ l' p (Life-IsAlive before l _ life a)
  Life-IsAlive before l l' (pool_destroyed life) a =
      clean_up-IsAlive before _ (Life-IsAlive before l _ life a)
  Life-IsAlive before l l' (elsewhere net life) a = Life-IsAlive before l _ life a
