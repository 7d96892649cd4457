-- ===== src/Content/Plain.antt =====
-- The part of `ngx_http_tunnel_content_handler` (src/core.c) for a CONNECT request that is not
-- extended.
use ngx_http_tunnel_module.Common.{
  Bool, true, false, some, if◌then◌else◌, ◌≡◌, refl, sym, ap, ◌∙◌, arith, Bool-cases, inl, inr, ◌⊎◌,
}
use mathlib.Core.Path.{subst}
use ngx_http_tunnel_module.Rc.{Rc, ok, error, internal_server_error, bad_request}
use ngx_http_tunnel_module.Context.{TunnelCtx}
use ngx_http_tunnel_module.Session.{Session, Site, SetupNginx, connect_process_header}
use ngx_http_tunnel_module.Connect.{new_upstream, init_upstream_peer, set_target, send_response}
use ngx_http_tunnel_module.Connect.Answered.{send_response-Sends}
use ngx_http_tunnel_module.Connect.Result.{
  Same, Result, finish_setup, Same-Result, finish_answered-Result, finish_silent-Result,
}
use ngx_http_tunnel_module.Content.{connect_created, connect_targeted, padded, connect_plain}

connect_created_stream :
    (site : Site) (nginx : SetupNginx) (s : Session)
    → site.stream_downstream ≡ true
    → connect_created site nginx (ok, s)
      ≡ finish_setup connect_process_header false (send_response site nginx s)
unfolding connect_created
connect_created_stream site nginx s e =
    ap
      (λ b.
        finish_setup connect_process_header false
          (if b then send_response site nginx s else (ok, s)))
      e

connect_created_silent :
    (site : Site) (nginx : SetupNginx) (s : Session)
    → site.stream_downstream ≡ false
    → connect_created site nginx (ok, s) ≡ finish_setup connect_process_header false (ok, s)
unfolding connect_created
connect_created_silent site nginx s e =
    ap
      (λ b.
        finish_setup connect_process_header false
          (if b then send_response site nginx s else (ok, s)))
      e

connect_created_ok-Result :
    (site : Site) (nginx : SetupNginx) (s s' : Session)
    → s.ctx.extended_connect ≡ false
    → Same s s'
    → s'.upstream ≡ some (new_upstream s'.ctx.resolved)
    → Result site.stream_downstream s (connect_created site nginx (ok, s'))
connect_created_ok-Result site nginx s s' plain same up = elim (Bool-cases site.stream_downstream) [
  | inl e ↦
      subst (λ b. Result b s (connect_created site nginx (ok, s'))) (sym e)
        (subst (Result true s) (sym (connect_created_stream site nginx s' e)) (
          finish_answered-Result connect_process_header false s s' (send_response site nginx s')
            (inl (plain, refl, refl)) same up (send_response-Sends site nginx s')))
  | inr e ↦
      subst (λ b. Result b s (connect_created site nginx (ok, s'))) (sym e)
        (subst (Result false s) (sym (connect_created_silent site nginx s' e)) (
          finish_silent-Result connect_process_header false s s' (inl (plain, refl, refl)) same up))
]

connect_created_failed :
    (site : Site) (nginx : SetupNginx) (s : Session)
    → connect_created site nginx (error, s) ≡ (internal_server_error, s)
unfolding connect_created
connect_created_failed site nginx s = refl

created :
    (nginx : SetupNginx) (s : Session)
    → nginx.upstream_create ≡ true
    → init_upstream_peer nginx s ≡ (ok, record s { upstream = some (new_upstream s.ctx.resolved) })
unfolding init_upstream_peer
created nginx s e = simp (e, init_upstream_peer)

not_created :
    (nginx : SetupNginx) (s : Session)
    → nginx.upstream_create ≡ false
    → init_upstream_peer nginx s ≡ (error, s)
unfolding init_upstream_peer
not_created nginx s e = simp (e, init_upstream_peer)

connect_created-Result :
    (site : Site) (nginx : SetupNginx) (s s' : Session)
    → s.ctx.extended_connect ≡ false
    → Same s s'
    → Result site.stream_downstream s (connect_created site nginx (init_upstream_peer nginx s'))
connect_created-Result site nginx s s' plain same = elim (Bool-cases nginx.upstream_create) [
  | inr e ↦
      subst (Result site.stream_downstream s)
        (sym (
          ap (connect_created site nginx) (not_created nginx s' e)
          ∙ connect_created_failed site nginx s'))
        (Same-Result internal_server_error (ground arith) same)
  | inl e ↦
      subst (Result site.stream_downstream s)
        (sym (ap (connect_created site nginx) (created nginx s' e)))
        (connect_created_ok-Result site nginx s
          (record s' { upstream = some (new_upstream s'.ctx.resolved) }) plain
          (record { count = same.count; ref = same.ref; actions = same.actions; kind = same.kind })
          refl)
]

set_target-ref :
    (site : Site) (ctx : TunnelCtx)
    → ((set_target site ctx).1.content_handler_ref ≡ ctx.content_handler_ref)
      × (((set_target site ctx).0 ≡ ok) ⊎ ((set_target site ctx).0 ≡ bad_request))
      × (((set_target site ctx).1.extended_connect ≡ ctx.extended_connect)
          × ((set_target site ctx).1.protocol ≡ ctx.protocol))
unfolding set_target
set_target-ref site ctx = ground arith

connect_targeted-Result :
    (site : Site) (nginx : SetupNginx) (s s' : Session) (rc : Rc) (ctx : TunnelCtx)
    → s.ctx.extended_connect ≡ false
    → Same s (record s' { ctx = ctx })
    → (rc ≡ ok) ⊎ (rc ≡ bad_request)
    → Result site.stream_downstream s (connect_targeted site nginx (rc, ctx) s')
unfolding connect_targeted
connect_targeted-Result site nginx s s' rc ctx plain same (inl e) =
    rw e (connect_created-Result site nginx s (record s' { ctx = ctx }) plain same)
connect_targeted-Result site nginx s s' rc ctx plain same (inr e) =
    rw e (Same-Result bad_request (ground arith) same)

connect_plain_full :
    (site : Site) (nginx : SetupNginx) (s : Session)
    → nginx.padding_ctx ≡ false
    → connect_plain site nginx true s ≡ (internal_server_error, s)
unfolding connect_plain
connect_plain_full site nginx s e = simp (e, connect_plain)

pub connect_plain-padded :
    (site : Site) (nginx : SetupNginx) (s : Session)
    → nginx.padding_ctx ≡ true
    → connect_plain site nginx true s
      ≡ connect_targeted site nginx
          (set_target site (padded s.ctx))
          (record s { ctx = padded s.ctx })
unfolding connect_plain
connect_plain-padded site nginx s e = simp (e, connect_plain)

pub connect_plain_bare :
    (site : Site) (nginx : SetupNginx) (s : Session)
    → connect_plain site nginx false s ≡ connect_targeted site nginx (set_target site s.ctx) s
unfolding connect_plain
connect_plain_bare site nginx s = refl

set_target-Result :
    (site : Site) (nginx : SetupNginx) (s s' : Session)
    → s.ctx.extended_connect ≡ false
    → Same s s'
    → Result site.stream_downstream s (connect_targeted site nginx (set_target site s'.ctx) s')
set_target-Result site nginx s s' plain same =
    let (ref, rc, kind) = set_target-ref site s'.ctx in
    connect_targeted-Result site nginx s s' (set_target site s'.ctx).0 (set_target site s'.ctx).1
      plain
      (record {
        count = same.count;
        ref = ref ∙ same.ref;
        actions = same.actions;
        kind = (kind.0 ∙ same.kind.0, kind.1 ∙ same.kind.1);
      })
      rc

pub connect_plain-Result :
    (site : Site) (nginx : SetupNginx) (needed : Bool) (s s' : Session)
    → s.ctx.extended_connect ≡ false
    → Same s s'
    → Result site.stream_downstream s (connect_plain site nginx needed s')
connect_plain-Result site nginx false s s' plain same =
    subst (Result site.stream_downstream s) (sym (connect_plain_bare site nginx s'))
      (set_target-Result site nginx s s' plain same)
connect_plain-Result site nginx true s s' plain same = elim (Bool-cases nginx.padding_ctx) [
  | inr e ↦
      subst (Result site.stream_downstream s) (sym (connect_plain_full site nginx s' e))
        (Same-Result internal_server_error (ground arith) same)
  | inl e ↦ subst (Result site.stream_downstream s) (sym (connect_plain-padded site nginx s' e)) (
      set_target-Result site nginx s (record s' { ctx = padded s'.ctx }) plain
        (record { count = same.count; ref = same.ref; actions = same.actions; kind = same.kind }))
]
