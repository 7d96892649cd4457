-- ===== src/Capsule/Downstream/Calls.antt =====
-- Two calls of `tunnel_capsule_downstream_filter` (src/capsule.c), with bytes that arrive in between.
use ngx_http_tunnel_module.Common.{
  ℕ, ◌≡◌, refl, sym, ap, ◌∙◌, Bool, some, List, [], ◌∷◌, ◌++◌, append_assoc,
}
use mathlib.Core.Path.{subst}
use ngx_http_tunnel_module.Buffers.{Chain, chain_bytes}
use ngx_http_tunnel_module.Context.{CapsuleCtx, TunnelCtx}
use ngx_http_tunnel_module.Capsule.Varint.Cases.{IsReady}
use ngx_http_tunnel_module.Capsule.Datagram.Boundary.{both}
use ngx_http_tunnel_module.Capsule.Downstream.{capsule_downstream_filter}
use ngx_http_tunnel_module.Capsule.Downstream.Parser.{waiting, parse}
use ngx_http_tunnel_module.Capsule.Downstream.Refine.{
  Implements, IsPending, capsule_downstream_filter-parse,
}
use ngx_http_tunnel_module.Capsule.Downstream.Resume.{resume, parse-append}
use ngx_http_tunnel_module.Capsule.Downstream.Sizes.{Fits, parse-Fits}

chain_bytes-append : (xs ys : Chain) → chain_bytes (xs ++ ys) ≡ chain_bytes xs ++ chain_bytes ys
chain_bytes-append [] ys = refl
chain_bytes-append (b ∷ xs) ys =
    ap (λ z. b.bytes ++ z) (chain_bytes-append xs ys)
    ∙ sym (append_assoc b.bytes (chain_bytes xs) (chain_bytes ys))

-- The context that a first call leaves, with the buffers that have come since.
abbrev pub after_first : TunnelCtx → Bool → Chain → TunnelCtx
after_first ctx activity more =
    let o = capsule_downstream_filter both ctx activity in
    record o.ctx { downstream_in = o.ctx.downstream_in ++ more }

-- With memory and on chains of bytes with no datagram marked: a first call that finds too few
-- bytes, and a second one when more have come, answer together as the flat parser does on all the
-- bytes at once, so a capsule may be cut at any byte.
pub capsule_downstream_filter-resumes :
    (ctx : TunnelCtx) (c c' : CapsuleCtx) (activity : Bool) (xs : List ℕ) (more : Chain)
    → ctx.capsule ≡ some c
    → IsReady ctx.downstream_in
    → IsPending c.read_state c.payload_size
    → parse c (chain_bytes ctx.downstream_in) ≡ waiting c' xs
    → IsReady (after_first ctx activity more).downstream_in
    → Implements
        (after_first ctx activity more)
        (capsule_downstream_filter both (after_first ctx activity more) activity)
        (parse c (chain_bytes ctx.downstream_in ++ chain_bytes more))
capsule_downstream_filter-resumes ctx c c' activity xs more e ready pending waits ready' =
    let o = capsule_downstream_filter both ctx activity in
    let ctx' = after_first ctx activity more in
    let (_, state, left, _, _) : Implements ctx o (waiting c' xs) =
      subst (Implements ctx o) waits
        (capsule_downstream_filter-parse ctx c activity e ready pending) in
    let pending' : IsPending c'.read_state c'.payload_size =
      subst Fits waits (parse-Fits c (chain_bytes ctx.downstream_in) pending) in
    let bytes : chain_bytes ctx'.downstream_in ≡ xs ++ chain_bytes more =
      chain_bytes-append o.ctx.downstream_in more ∙ ap (λ z. z ++ chain_bytes more) left in
    let whole : parse c (chain_bytes ctx.downstream_in ++ chain_bytes more)
        ≡ parse c' (xs ++ chain_bytes more) =
      parse-append c (chain_bytes ctx.downstream_in) (chain_bytes more)
      ∙ ap (λ p. resume p (chain_bytes more)) waits in
    subst (Implements ctx' (capsule_downstream_filter both ctx' activity))
      (ap (parse c') bytes ∙ sym whole)
      (capsule_downstream_filter-parse ctx' c' activity state ready' pending')
