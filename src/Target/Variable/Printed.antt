-- ===== src/Target/Variable/Printed.antt =====
-- The text of `$connect_target_host` (src/core.c), read back.
use ngx_http_tunnel_module.Common.{
  ℕ, ◌+◌, ◌-◌, ◌*◌, ◌≤◌, true, false, not, Option, none, some, List, [], ◌∷◌, ◌++◌, ◌==◌,
  if◌then◌else◌, ◌≡◌, refl, sym, ap, ◌∙◌, arith, Option-cases, inl, inr, All, if_cases,
}
use mathlib.Core.Path.{subst}
use ngx_http_tunnel_module.Context.{TunnelCtx, Resolved}
use ngx_http_tunnel_module.Target.Variable.{
  Value, found, host_port, is_500, parsed_host, extended_host, resolve_to, target_host_handler,
  target_host_handler_extended,
}
use ngx_http_tunnel_module.Rc.{Rc, is_ok}
use ngx_http_tunnel_module.Session.{Site, SetupNginx}
use ngx_http_tunnel_module.Target.{parse_extended_connect}

-- The number that digits tell, behind the number `n` of those in front of them.
abbrev pub number : ℕ → List ℕ → ℕ
number n [] = n
number n (d ∷ ds) = number (n * 10 + (d - 48)) ds

abbrev pub IsDigit : ℕ → Type 0
IsDigit d = (48 ≤ d) × (d ≤ 57)

-- What stands before and behind the last colon.
abbrev pub split_last : List ℕ → Option (List ℕ × List ℕ)
split_last [] = none
split_last (b ∷ bs) = elim (split_last bs) [
  | some (before, behind) ↦ some (b ∷ before, behind)
  | none ↦ if b == 58 then some ([], bs) else none
]

-- A host and a port, read from the text.
abbrev pub read_host_port : List ℕ → Option (List ℕ × ℕ)
read_host_port text = elim (split_last text) [
  | none ↦ none
  | some (host, port) ↦ some (host, number 0 port)
]

split_last-digits : (ds : List ℕ) → All IsDigit ds → split_last ds ≡ none
split_last-digits [] h = refl
split_last-digits (d ∷ ds) ((low, high), h) =
    let e : (d == 58) ≡ false = ground arith in rw (split_last-digits ds h, e) refl

split_last-append :
    (host ds : List ℕ) → All IsDigit ds → split_last (host ++ 58 ∷ ds) ≡ some (host, ds)
split_last-append [] ds h = rw (split_last-digits ds h) refl
split_last-append (b ∷ host) ds h = rw (split_last-append host ds h) refl

read_host_port-host_port :
    (print_ui : ℕ → List ℕ) (resolved : Resolved)
    → All IsDigit (print_ui resolved.port)
    → number 0 (print_ui resolved.port) ≡ resolved.port
    → read_host_port (host_port print_ui resolved) ≡ some (resolved.host, resolved.port)
read_host_port-host_port print_ui resolved h e =
    ap (λ o. elim o [ none ↦ none | some (host, port) ↦ some (host, number 0 port) ])
      (split_last-append resolved.host (print_ui resolved.port) h)
    ∙ ap (λ n. some (resolved.host, n)) e

-- A value is the text of the context's target.
abbrev Shows : SetupNginx → Value × TunnelCtx → Type 0
Shows nginx (found text, ctx) = text ≡ host_port nginx.print_ui ctx.resolved
Shows nginx (_, ctx) = Unit {0}

parsed_host-Shows :
    (nginx : SetupNginx) (rc : Rc) (ctx : TunnelCtx) → Shows nginx (parsed_host nginx rc ctx)
unfolding parsed_host
parsed_host-Shows nginx rc ctx =
    if_cases (Shows nginx) (is_500 rc) _ _ (λ _. tt)
      (λ _.
        if_cases (Shows nginx) (not (is_ok rc)) _ _ (λ _. tt)
          (λ _. if_cases (Shows nginx) (not nginx.variable_data) _ _ (λ _. tt) (λ _. refl)))

extended_host-Shows :
    (site : Site) (nginx : SetupNginx) (ctx : TunnelCtx)
    → Shows nginx (extended_host site nginx ctx)
unfolding extended_host
extended_host-Shows site nginx ctx = elim (Option-cases site.params) [
  | inl e ↦ rw (e, extended_host) tt
  | inr (params, e) ↦
      let parsed = parse_extended_connect nginx.exec nginx.atoi (some params) (some ctx.resolved) in
      rw (e, extended_host) (parsed_host-Shows nginx parsed.0 (resolve_to ctx parsed.1))
]

-- For extended CONNECT, the text of `$connect_target_host` that an access control list decides on
-- tells the target that the tunnel then goes to: read back, it gives the host of the context, with
-- colons inside it or not, and its port. The port is printed in decimal digits that tell it.
pub target_host_handler-reads :
    (site : Site) (nginx : SetupNginx) (ctx ctx' : TunnelCtx) (text : List ℕ)
    → ctx.extended_connect ≡ true
    → target_host_handler site nginx ctx ≡ (found text, ctx')
    → All IsDigit (nginx.print_ui ctx'.resolved.port)
    → number 0 (nginx.print_ui ctx'.resolved.port) ≡ ctx'.resolved.port
    → read_host_port text ≡ some (ctx'.resolved.host, ctx'.resolved.port)
target_host_handler-reads site nginx ctx ctx' text extended answer digits tells =
    let shows : text ≡ host_port nginx.print_ui ctx'.resolved =
      subst (Shows nginx) (sym (target_host_handler_extended site nginx ctx extended) ∙ answer)
        (extended_host-Shows site nginx ctx) in
    ap read_host_port shows ∙ read_host_port-host_port nginx.print_ui ctx'.resolved digits tells
