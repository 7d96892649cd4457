-- ===== src/Connect/Branching.antt =====
-- Setting up a tunnel (src/connect.c, src/udp.c): an upstream request that is started, or none.
use ngx_http_tunnel_module.Common.{
  true, false, some, ◌≡◌, refl, sym, ap, ◌∙◌, arith, Bool-cases, inl, inr,
}
use mathlib.Core.Path.{subst}
use ngx_http_tunnel_module.Rc.{
  Rc, declined, is_ok, bad_request, not_allowed, not_implemented, internal_server_error,
}
use ngx_http_tunnel_module.Context.{
  TunnelCtx, Protocol, unknown_protocol, websocket, connect_udp, connect_tcp, connect_ip,
}
use ngx_http_tunnel_module.Capsule.Header.{is_header_present}
use ngx_http_tunnel_module.Session.{udp_process_header, Session, Site, SetupNginx}
use ngx_http_tunnel_module.Target.Variable.{
  Value, failed, not_found, found, target_host_handler, OnlyResolves,
  target_host_handler-OnlyResolves,
}
use ngx_http_tunnel_module.Connect.{
  new_upstream, init_upstream_peer, send_response, udp_set_target, value_rc, new_capsule, filtered,
  udp_created, udp_targeted, udp_init_upstream, branch_udp, branch_protocol,
  extended_connect_branching,
}
use ngx_http_tunnel_module.Connect.Answered.{send_response-Sends}
use ngx_http_tunnel_module.Connect.Result.{
  Same, Refuses, Result, Same-Result, finish_answered-Result,
}

abbrev IsUdp : Session → Type 0
IsUdp s = (s.ctx.extended_connect ≡ true) × (s.ctx.protocol ≡ connect_udp)

udp_created-Result :
    (site : Site) (nginx : SetupNginx) (s s' : Session)
    → IsUdp s
    → Same s s'
    → Result true s (udp_created site nginx (init_upstream_peer nginx s'))
unfolding udp_created init_upstream_peer
udp_created-Result site nginx s s' udp same = elim (Bool-cases nginx.upstream_create) [
  | inr e ↦ rw e (Same-Result internal_server_error (ground arith) same)
  | inl e ↦
      let created : Session = record s' { upstream = some (new_upstream s'.ctx.resolved) } in
      let same' : Same s created = record {
        count = same.count;
        ref = same.ref;
        actions = same.actions;
        kind = same.kind;
      } in
      rw e (
        finish_answered-Result udp_process_header true s created (send_response site nginx created)
          (inr (udp.0, udp.1, refl, refl)) same' refl (send_response-Sends site nginx created))
]

value_rc-Refuses : (value : Value) → Refuses (value_rc value)
value_rc-Refuses failed = ground arith
value_rc-Refuses not_found = ground arith
value_rc-Refuses (found v) = ground arith

-- The target writes nothing of the context but `resolved`.
pub udp_set_target-OnlyResolves :
    (site : Site) (nginx : SetupNginx) (ctx : TunnelCtx)
    → Refuses (udp_set_target site nginx ctx).0 × OnlyResolves ctx (udp_set_target site nginx ctx).1
unfolding udp_set_target
udp_set_target-OnlyResolves site nginx ctx =
    let r = target_host_handler site nginx ctx in
    elim (Bool-cases nginx.variable) [
      | inr e ↦
          let eq : udp_set_target site nginx ctx ≡ (internal_server_error, ctx) =
            simp (e, udp_set_target) in
          subst (λ (x : Rc × TunnelCtx). Refuses x.0 × OnlyResolves ctx x.1) (sym eq)
            (ground arith, refl)
      | inl e ↦
          let eq : udp_set_target site nginx ctx ≡ (value_rc r.0, r.1) = simp (e, udp_set_target) in
          subst (λ (x : Rc × TunnelCtx). Refuses x.0 × OnlyResolves ctx x.1) (sym eq)
            (value_rc-Refuses r.0, target_host_handler-OnlyResolves site nginx ctx)
    ]

udp_targeted_refused :
    (site : Site) (nginx : SetupNginx) (rc : Rc) (s : Session)
    → is_ok rc ≡ false
    → udp_targeted site nginx rc s ≡ (rc, s)
unfolding udp_targeted
udp_targeted_refused site nginx rc s e = simp (e, udp_targeted)

udp_targeted_full :
    (site : Site) (nginx : SetupNginx) (rc : Rc) (s : Session)
    → is_ok rc ≡ true
    → nginx.capsule_ctx ≡ false
    → udp_targeted site nginx rc s ≡ (internal_server_error, record s { ctx = filtered s.ctx })
unfolding udp_targeted
udp_targeted_full site nginx rc s e e' = simp (e, e', udp_targeted)

pub udp_targeted_created :
    (site : Site) (nginx : SetupNginx) (rc : Rc) (s : Session)
    → is_ok rc ≡ true
    → nginx.capsule_ctx ≡ true
    → udp_targeted site nginx rc s
      ≡ udp_created site nginx (
          init_upstream_peer nginx
            (record s { ctx = record (filtered s.ctx) { capsule = some new_capsule } }))
unfolding udp_targeted
udp_targeted_created site nginx rc s e e' = simp (e, e', udp_targeted)

udp_targeted-Result :
    (site : Site) (nginx : SetupNginx) (rc : Rc) (s s' : Session)
    → Refuses rc
    → IsUdp s
    → Same s s'
    → Result true s (udp_targeted site nginx rc s')
udp_targeted-Result site nginx rc s s' h udp same = elim (Bool-cases (is_ok rc)) [
  | inr e ↦
      subst (Result true s) (sym (udp_targeted_refused site nginx rc s' e)) (Same-Result rc h same)
  | inl e ↦ elim (Bool-cases nginx.capsule_ctx) [
    | inr e' ↦ subst (Result true s) (sym (udp_targeted_full site nginx rc s' e e')) (
        Same-Result internal_server_error (ground arith)
          (record { count = same.count; ref = same.ref; actions = same.actions; kind = same.kind }))
    | inl e' ↦ subst (Result true s) (sym (udp_targeted_created site nginx rc s' e e')) (
        udp_created-Result site nginx s _ udp
          (record { count = same.count; ref = same.ref; actions = same.actions; kind = same.kind }))
  ]
]

udp_init_upstream-Result :
    (site : Site) (nginx : SetupNginx) (s s' : Session)
    → IsUdp s
    → Same s s'
    → Result true s (udp_init_upstream site nginx s')
unfolding udp_init_upstream
udp_init_upstream-Result site nginx s s' udp same =
    let (h, e) = udp_set_target-OnlyResolves site nginx s'.ctx in
    udp_targeted-Result site nginx (udp_set_target site nginx s'.ctx).0 s _ h udp (record {
      count = same.count;
      ref = ap (λ (c : TunnelCtx). c.content_handler_ref) e ∙ same.ref;
      actions = same.actions;
      kind = (
        ap (λ (c : TunnelCtx). c.extended_connect) e ∙ same.kind.0,
        ap (λ (c : TunnelCtx). c.protocol) e ∙ same.kind.1,
      );
    })

branch_udp_forbidden :
    (site : Site) (nginx : SetupNginx) (s : Session)
    → site.udp ≡ false
    → branch_udp site nginx s ≡ (not_allowed, s)
unfolding branch_udp
branch_udp_forbidden site nginx s e = simp (e, branch_udp)

branch_udp_bad_version :
    (site : Site) (nginx : SetupNginx) (s : Session)
    → site.udp ≡ true
    → site.stream_downstream ≡ false
    → branch_udp site nginx s ≡ (bad_request, record s { keepalive = false })
unfolding branch_udp
branch_udp_bad_version site nginx s e e' = simp (e, e', branch_udp)

branch_udp_bad_header :
    (site : Site) (nginx : SetupNginx) (s : Session)
    → site.udp ≡ true
    → site.stream_downstream ≡ true
    → is_ok (is_header_present nginx.same site.headers_in) ≡ false
    → branch_udp site nginx s ≡ (bad_request, record s { keepalive = false })
unfolding branch_udp
branch_udp_bad_header site nginx s e e' e'' = simp (e, e', e'', branch_udp)

pub branch_udp_good :
    (site : Site) (nginx : SetupNginx) (s : Session)
    → site.udp ≡ true
    → site.stream_downstream ≡ true
    → is_ok (is_header_present nginx.same site.headers_in) ≡ true
    → branch_udp site nginx s ≡ udp_init_upstream site nginx (record s { keepalive = false })
unfolding branch_udp
branch_udp_good site nginx s e e' e'' = simp (e, e', e'', branch_udp)

branch_udp-Result :
    (site : Site) (nginx : SetupNginx) (s s' : Session)
    → IsUdp s
    → Same s s'
    → Result site.stream_downstream s (branch_udp site nginx s')
branch_udp-Result site nginx s s' udp same =
    let P = Result site.stream_downstream s in
    let quiet : Same s (record s' { keepalive = false }) = record {
      count = same.count;
      ref = same.ref;
      actions = same.actions;
      kind = same.kind;
    } in
    elim (Bool-cases site.udp) [
      | inr e ↦
          subst P (sym (branch_udp_forbidden site nginx s' e))
            (Same-Result not_allowed (ground arith) same)
      | inl e ↦ elim (Bool-cases site.stream_downstream) [
        | inr e' ↦
            subst P (sym (branch_udp_bad_version site nginx s' e e'))
              (Same-Result bad_request (ground arith) quiet)
        | inl e' ↦ elim (Bool-cases (is_ok (is_header_present nginx.same site.headers_in))) [
          | inr e'' ↦
              subst P (sym (branch_udp_bad_header site nginx s' e e' e''))
                (Same-Result bad_request (ground arith) quiet)
          | inl e'' ↦ subst P (sym (branch_udp_good site nginx s' e e' e'')) (
              subst
                (λ b. Result b s (udp_init_upstream site nginx (record s' { keepalive = false })))
                (sym e')
                (udp_init_upstream-Result site nginx s (record s' { keepalive = false }) udp quiet))
        ]
      ]
    ]

branch_protocol-Result :
    (site : Site) (nginx : SetupNginx) (p : Protocol) (s s' : Session)
    → s.ctx.extended_connect ≡ true
    → s.ctx.protocol ≡ p
    → Same s s'
    → Result site.stream_downstream s (branch_protocol site nginx p s')
unfolding branch_protocol
branch_protocol-Result site nginx connect_udp s s' e q same =
    branch_udp-Result site nginx s s' (e, q) same
branch_protocol-Result site nginx unknown_protocol s s' e q same =
    Same-Result bad_request (ground arith) same
branch_protocol-Result site nginx websocket s s' e q same =
    Same-Result not_implemented (ground arith) same
branch_protocol-Result site nginx connect_ip s s' e q same =
    Same-Result not_implemented (ground arith) same
branch_protocol-Result site nginx connect_tcp s s' e q same =
    Same-Result not_implemented (ground arith) same

pub branching_plain :
    (site : Site) (nginx : SetupNginx) (s : Session)
    → s.ctx.extended_connect ≡ false
    → extended_connect_branching site nginx s ≡ (declined, s)
unfolding extended_connect_branching
branching_plain site nginx s e = simp (e, extended_connect_branching)

pub branching_extended :
    (site : Site) (nginx : SetupNginx) (s : Session)
    → s.ctx.extended_connect ≡ true
    → extended_connect_branching site nginx s ≡ branch_protocol site nginx s.ctx.protocol s
unfolding extended_connect_branching
branching_extended site nginx s e = simp (e, extended_connect_branching)

pub extended_connect_branching-Result :
    (site : Site) (nginx : SetupNginx) (s s' : Session)
    → s'.ctx.extended_connect ≡ true
    → Same s s'
    → Result site.stream_downstream s (extended_connect_branching site nginx s')
extended_connect_branching-Result site nginx s s' e same =
    subst (Result site.stream_downstream s) (sym (branching_extended site nginx s' e)) (
      branch_protocol-Result site nginx s'.ctx.protocol s s' (sym same.kind.0 ∙ e) (sym same.kind.1)
        same)
