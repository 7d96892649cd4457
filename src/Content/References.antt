-- ===== src/Content/References.antt =====
-- The reference of `ngx_http_tunnel_content_handler` (src/core.c) and the calls that give it back
-- (src/connect.c, src/relay.c).
use ngx_http_tunnel_module.Common.{
  ℕ, ◌+◌, ◌-◌, ◌<◌, true, false, ◌&&◌, List, [], ◌∷◌, ltb, if◌then◌else◌, ◌≡◌, refl, sym, ◌∙◌,
  arith, inl, inr, lt→ltb, Bool-cases,
}
use mathlib.Core.Path.{subst}
use ngx_http_tunnel_module.Rc.{done}
use ngx_http_tunnel_module.Context.{TunnelCtx}
use ngx_http_tunnel_module.Relay.Finalize.{Request}
use ngx_http_tunnel_module.Relay.Finalize.Once.{relay_finalize-count, relay_finalize-finalized}
use ngx_http_tunnel_module.Session.{Session, Site, SetupNginx}
use ngx_http_tunnel_module.Connect.Release.{
  Release, by_upstream, by_relay, finalize_with_ctx, release, releases,
}
use ngx_http_tunnel_module.Content.{content_handler}
use ngx_http_tunnel_module.Content.Outcome.{Outcome, content_handler-Outcome}

-- The reference is gone.
abbrev Returned : ℕ → TunnelCtx × Request → Type 0
Returned n (ctx, r) = (ctx.content_handler_ref ≡ false) × (r.count ≡ n)

finalize_with_ctx-Returned :
    (n : ℕ) (ctx : TunnelCtx) (r : Request)
    → ctx.content_handler_ref ≡ true
    → ctx.finalized ≡ false
    → 0 < n
    → r.count ≡ n + 1
    → Returned n (finalize_with_ctx (ctx, r))
unfolding finalize_with_ctx
finalize_with_ctx-Returned n ctx r ref alive pos count = ground arith

release-Returned_first :
    (n : ℕ) (x : Release) (ctx : TunnelCtx) (r : Request)
    → ctx.content_handler_ref ≡ true
    → ctx.finalized ≡ false
    → 0 < n
    → r.count ≡ n + 1
    → Returned n (release x (ctx, r))
unfolding release
release-Returned_first n by_upstream ctx r ref alive pos count =
    finalize_with_ctx-Returned n ctx r ref alive pos count
release-Returned_first n (by_relay last rc) ctx r ref alive pos count =
    let (gone, left) = relay_finalize-count last ctx r rc alive in
    let more : ltb 1 r.count ≡ true = lt→ltb 1 r.count (omega arith) in
    let e : (if ctx.content_handler_ref && ltb 1 r.count then r.count - 1 else r.count) ≡ n =
      rw (ref, more) (omega arith) in
    (gone, left ∙ e)

release-Returned :
    (n : ℕ) (x : Release) (s : TunnelCtx × Request) → Returned n s → Returned n (release x s)
unfolding release finalize_with_ctx
release-Returned n by_upstream (ctx, r) (ref, count) = ground arith
release-Returned n (by_relay last rc) (ctx, r) (ref, count) = elim (Bool-cases ctx.finalized) [
  | inl e ↦ subst (Returned n) (sym (relay_finalize-finalized last (ctx, r) rc e)) (ref, count)
  | inr e ↦
      let (gone, left) = relay_finalize-count last ctx r rc e in
      let same : (if ctx.content_handler_ref && ltb 1 r.count then r.count - 1 else r.count)
          ≡ r.count =
        rw ref refl in
      (gone, left ∙ same ∙ count)
]

releases-Returned :
    (n : ℕ) (xs : List Release) (s : TunnelCtx × Request)
    → Returned n s
    → Returned n (releases xs s)
releases-Returned n [] s h = h
releases-Returned n (x ∷ xs) s h = releases-Returned n xs (release x s) (release-Returned n x s h)

-- Whatever calls give the reference back, and however often and in whatever order they come, there
-- is at least one: in the end the request has as many references as before the content handler, and
-- the context notes none. The content handler has returned NGX_DONE for a request with a reference,
-- and nothing but these calls changes the count or the context in between.
pub content_handler-releases :
    (site : Site) (nginx : SetupNginx) (s s' : Session) (r : Request) (x : Release)
    (xs : List Release)
    → content_handler site nginx true s ≡ (done, s')
    → s'.ctx.finalized ≡ false
    → 0 < s.count
    → r.count ≡ s'.count
    → let t = releases (x ∷ xs) (s'.ctx, r) in
      (t.0.content_handler_ref ≡ false) × (t.1.count ≡ s.count)
content_handler-releases site nginx s s' r x xs answer alive pos count =
    elim (subst (Outcome site.stream_downstream s) answer
      (content_handler-Outcome site nginx true s)) [
        | inr (h, _) ↦ absurd (h refl)
        | inl (_, started) ↦ releases-Returned s.count xs (release x (s'.ctx, r)) (
            release-Returned_first s.count x s'.ctx r started.ref alive pos (count ∙ started.count))
      ]
