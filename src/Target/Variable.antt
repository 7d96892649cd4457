-- ===== src/Target/Variable.antt =====
-- The variable `$connect_target_host` (src/core.c).
pub mod Printed
use ngx_http_tunnel_module.Common.{
  ℕ, zero, suc, ◌+◌, ◌/◌, ◌%◌, Bool, true, false, not, ◌&&◌, ◌||◌, Option, none, some, List, [],
  ◌∷◌, ◌++◌, ltb, ◌==◌, if◌then◌else◌, ◌≡◌, refl, sym, ap, Bool-cases, Option-cases, inl, inr,
}
use mathlib.Core.Path.{subst}
use ngx_http_tunnel_module.Rc.{Rc, ok, error, status, is_ok}
use ngx_http_tunnel_module.Context.{TunnelCtx, Resolved}
use ngx_http_tunnel_module.Session.{Site, SetupNginx}
use ngx_http_tunnel_module.Target.{parse_extended_connect}

-- "%V:%ui"
abbrev pub host_port : (ℕ → List ℕ) → Resolved → List ℕ
host_port print_ui resolved = resolved.host ++ 58 ∷ print_ui resolved.port

-- What the handler returns: NGX_ERROR, or NGX_OK with a value or with `not_found`.
pub data Value : Type 0 where
  failed not_found : Value
  found : List ℕ → Value

-- NGX_HTTP_INTERNAL_SERVER_ERROR
abbrev is_500 : Rc → Bool
is_500 (status n) = n == 500
is_500 _ = false

-- `ctx->resolved` is written by `tunnel_util_parse_extended_connect`.
abbrev resolve_to : TunnelCtx → Option Resolved → TunnelCtx
resolve_to ctx none = ctx
resolve_to ctx (some resolved) = record ctx { resolved = resolved }

parsed_host : SetupNginx → Rc → TunnelCtx → Value × TunnelCtx
parsed_host nginx rc ctx =
    if is_500 rc
    then (failed, ctx)
    else if not (is_ok rc)
    then (not_found, ctx)
    else if not nginx.variable_data
    then (failed, ctx)
    else (found (host_port nginx.print_ui ctx.resolved), ctx)

unfoldable pub extended_host : Site → SetupNginx → TunnelCtx → Value × TunnelCtx
unfolding parsed_host
extended_host site nginx ctx = elim site.params [
  | none ↦ (failed, ctx)
  | some params ↦
      let (rc, resolved) =
        parse_extended_connect nginx.exec nginx.atoi (some params) (some ctx.resolved) in
      parsed_host nginx rc (resolve_to ctx resolved)
]

-- The value of the authority, where there is one.
plain_host : Site → Value
plain_host site =
    if not site.is_connect || not site.host_start || not site.host_end
    then not_found
    else found site.host

-- For a request with the context `ctx`.
unfoldable pub target_host_handler : Site → SetupNginx → TunnelCtx → Value × TunnelCtx
unfolding extended_host plain_host parsed_host
target_host_handler site nginx ctx =
    if ctx.extended_connect then extended_host site nginx ctx else (plain_host site, ctx)

abbrev pub OnlyResolves : TunnelCtx → TunnelCtx → Type 0
OnlyResolves ctx ctx' = ctx' ≡ record ctx { resolved = ctx'.resolved }

parsed_host_ctx :
    (nginx : SetupNginx) (rc : Rc) (ctx : TunnelCtx) → (parsed_host nginx rc ctx).1 ≡ ctx
unfolding parsed_host
parsed_host_ctx nginx rc ctx = elim (Bool-cases (is_500 rc)) [
  | inl e ↦ rw e refl
  | inr e ↦ elim (Bool-cases (is_ok rc)) [
    | inr e' ↦ rw (e, e') refl
    | inl e' ↦ elim (Bool-cases nginx.variable_data) [
      | inl h ↦ rw (e, e', h) refl
      | inr h ↦ rw (e, e', h) refl
    ]
  ]
]

resolve_to-OnlyResolves :
    (ctx : TunnelCtx) (o : Option Resolved) → OnlyResolves ctx (resolve_to ctx o)
resolve_to-OnlyResolves ctx none = refl
resolve_to-OnlyResolves ctx (some r) = refl

extended_host-OnlyResolves :
    (site : Site) (nginx : SetupNginx) (ctx : TunnelCtx)
    → OnlyResolves ctx (extended_host site nginx ctx).1
unfolding extended_host
extended_host-OnlyResolves site nginx ctx = elim (Option-cases site.params) [
  | inl e ↦ rw e refl
  | inr (params, e) ↦
      let parsed = parse_extended_connect nginx.exec nginx.atoi (some params) (some ctx.resolved) in
      let eq : (extended_host site nginx ctx).1 ≡ resolve_to ctx parsed.1 =
        rw (e, extended_host) (parsed_host_ctx nginx parsed.0 (resolve_to ctx parsed.1)) in
      subst (OnlyResolves ctx) (sym eq) (resolve_to-OnlyResolves ctx parsed.1)
]

pub target_host_handler_extended :
    (site : Site) (nginx : SetupNginx) (ctx : TunnelCtx)
    → ctx.extended_connect ≡ true
    → target_host_handler site nginx ctx ≡ extended_host site nginx ctx
unfolding target_host_handler
target_host_handler_extended site nginx ctx e = simp (e, target_host_handler)

pub target_host_handler-OnlyResolves :
    (site : Site) (nginx : SetupNginx) (ctx : TunnelCtx)
    → OnlyResolves ctx (target_host_handler site nginx ctx).1
unfolding target_host_handler
target_host_handler-OnlyResolves site nginx ctx = elim (Bool-cases ctx.extended_connect) [
  | inl e ↦
      let eq : (target_host_handler site nginx ctx).1 ≡ (extended_host site nginx ctx).1 =
        ap (λ (x : Value × TunnelCtx). x.1) (target_host_handler_extended site nginx ctx e) in
      subst (OnlyResolves ctx) (sym eq) (extended_host-OnlyResolves site nginx ctx)
  | inr e ↦
      let eq : (target_host_handler site nginx ctx).1 ≡ ctx = simp (e, target_host_handler) in
      subst (OnlyResolves ctx) (sym eq) refl
]
