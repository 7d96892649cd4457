-- ===== src/Content/Outcome.antt =====
-- What `ngx_http_tunnel_content_handler` (src/core.c) does with the reference count of the request
-- and in which order it makes its calls.
use ngx_http_tunnel_module.Common.{
  Bool, true, false, not, ◌&&◌, ◌||◌, if◌then◌else◌, ◌≡◌, ◌≢◌, refl, sym, ◌∙◌, arith, Bool-cases,
  if_cases, inl, inr, ◌⊎◌,
}
use mathlib.Core.Path.{subst}
use ngx_http_tunnel_module.Rc.{Rc, declined, done, internal_server_error}
use ngx_http_tunnel_module.Session.{Session, Site, SetupNginx}
use ngx_http_tunnel_module.Connect.{extended_connect_branching}
use ngx_http_tunnel_module.Connect.Result.{Same, Unstarted, Started, Result, Same-Unstarted}
use ngx_http_tunnel_module.Connect.Branching.{extended_connect_branching-Result, branching_plain}
use ngx_http_tunnel_module.Content.{
  is_declined, needs_padding, connect_plain, branched, with_send_buf, with_recv_buf,
  with_header_buf, content_branching, content_buffers, content_handler,
}
use ngx_http_tunnel_module.Content.Plain.{connect_plain-Result}

pub branched_plain :
    (site : Site) (nginx : SetupNginx) (needed : Bool) (s : Session)
    → branched site nginx needed (declined, s) ≡ connect_plain site nginx needed s
unfolding branched
branched_plain site nginx needed s = refl

is_declined-false : (rc : Rc) → rc ≢ declined → is_declined rc ≡ false
is_declined-false rc h = ground arith

pub branched_answered :
    (site : Site) (nginx : SetupNginx) (needed : Bool) (r : Rc × Session)
    → r.0 ≢ declined
    → branched site nginx needed r ≡ r
unfolding branched
branched_answered site nginx needed (rc, s) h = let e = is_declined-false rc h in simp (e, branched)

pub answered : {b : Bool} {s : Session} {r : Rc × Session} → Result b s r → r.0 ≢ declined
answered (inl (e, _)) = rw e (ground arith)
answered (inr ((_, h), _)) = h

-- Behind the buffers.
branched-Result :
    (site : Site) (nginx : SetupNginx) (needed : Bool) (s s' : Session)
    → Same s s'
    → Result site.stream_downstream s
        (branched site nginx needed (extended_connect_branching site nginx s'))
branched-Result site nginx needed s s' same = elim (Bool-cases s'.ctx.extended_connect) [
  | inr e ↦
      rw (branching_plain site nginx s' e, branched_plain site nginx needed s')
        (connect_plain-Result site nginx needed s s' (sym same.kind.0 ∙ e) same)
  | inl e ↦
      let result = extended_connect_branching-Result site nginx s s' e same in
      subst (Result site.stream_downstream s)
        (sym (
          branched_answered site nginx needed (extended_connect_branching site nginx s')
            (answered result)))
        result
]

-- What a call leaves, whatever its return code.
abbrev pub Outcome : Bool → Session → Rc × Session → Type 0
Outcome stream_downstream s (rc, s') =
    ((rc ≡ done) × Started stream_downstream s s') ⊎ ((rc ≢ done) × Unstarted s s')

result-Outcome : {b : Bool} {s : Session} (r : Rc × Session) → Result b s r → Outcome b s r
result-Outcome r (inl started) = inl started
result-Outcome r (inr ((h, _), unstarted)) = inr (h, unstarted)

same-Outcome : {b : Bool} {s s' : Session} (rc : Rc) → rc ≢ done → Same s s' → Outcome b s (rc, s')
same-Outcome rc h same = inr (h, Same-Unstarted same)

content_branching_full :
    (site : Site) (nginx : SetupNginx) (needed : Bool) (s : Session)
    → (s.ctx.extended_connect || needed) && not nginx.header_buf ≡ true
    → content_branching site nginx needed s ≡ (internal_server_error, s)
unfolding content_branching
content_branching_full site nginx needed s e = simp (e, content_branching)

pub content_branching_room :
    (site : Site) (nginx : SetupNginx) (needed : Bool) (s : Session)
    → (s.ctx.extended_connect || needed) && not nginx.header_buf ≡ false
    → content_branching site nginx needed s
      ≡ branched site nginx needed (
          extended_connect_branching site nginx
            (if s.ctx.extended_connect || needed then with_header_buf s else s))
unfolding content_branching
content_branching_room site nginx needed s e = simp (e, content_branching)

headed-Same :
    (header : Bool) (s s' : Session)
    → Same s s'
    → Same s (if header then with_header_buf s' else s')
headed-Same false s s' same = same
headed-Same true s s' same = record {
  count = same.count;
  ref = same.ref;
  actions = same.actions;
  kind = same.kind;
}

content_branching-Outcome :
    (site : Site) (nginx : SetupNginx) (needed : Bool) (s s' : Session)
    → Same s s'
    → Outcome site.stream_downstream s (content_branching site nginx needed s')
content_branching-Outcome site nginx needed s s' same =
    let P = Outcome site.stream_downstream s in
    elim (Bool-cases ((s'.ctx.extended_connect || needed) && not nginx.header_buf)) [
      | inl e ↦
          subst P (sym (content_branching_full site nginx needed s' e))
            (same-Outcome internal_server_error (ground arith) same)
      | inr e ↦ subst P (sym (content_branching_room site nginx needed s' e)) (
          result-Outcome _ (
            branched-Result site nginx needed s _
              (headed-Same (s'.ctx.extended_connect || needed) s s' same)))
    ]

content_buffers-Outcome :
    (site : Site) (nginx : SetupNginx) (needed : Bool) (s : Session)
    → Outcome site.stream_downstream s (content_buffers site nginx needed s)
unfolding content_buffers
content_buffers-Outcome site nginx needed s =
    let P = Outcome site.stream_downstream s in
    let same : Same s s = record {
      count = refl;
      ref = refl;
      actions = refl;
      kind = (refl, refl);
    } in
    let same' : Same s (with_send_buf site s) = record {
      count = refl;
      ref = refl;
      actions = refl;
      kind = (refl, refl);
    } in
    let same'' : Same s (with_recv_buf site (with_send_buf site s)) = record {
      count = refl;
      ref = refl;
      actions = refl;
      kind = (refl, refl);
    } in
    if_cases P (not nginx.send_buf) _ _
      (λ _. same-Outcome internal_server_error (ground arith) same)
      (λ _.
        if_cases P (not nginx.recv_buf) _ _
          (λ _. same-Outcome internal_server_error (ground arith) same')
          (λ _.
            content_branching-Outcome site nginx needed s
              (with_recv_buf site (with_send_buf site s)) same''))

-- NGX_DONE goes with one new reference of the request, noted in the context, and with an upstream
-- request that is started for the context's target, over TCP for a CONNECT and over datagrams for
-- an extended one, whose protocol is CONNECT-UDP, each with its own handler for the moment when
-- upstream is connected. It is started behind the whole response where the client's side is a
-- stream, and with no response otherwise. Any other return code goes with no reference and no
-- upstream request; then the response may have begun.
pub content_handler-Outcome :
    (site : Site) (nginx : SetupNginx) (has_ctx : Bool) (s : Session)
    → Outcome site.stream_downstream s (content_handler site nginx has_ctx s)
unfolding content_handler
content_handler-Outcome site nginx has_ctx s =
    let P = Outcome site.stream_downstream s in
    let same : Same s s = record {
      count = refl;
      ref = refl;
      actions = refl;
      kind = (refl, refl);
    } in
    if_cases P (not site.is_connect) _ _ (λ _. same-Outcome declined (ground arith) same)
      (λ _.
        if_cases P (not site.enable) _ _ (λ _. same-Outcome declined (ground arith) same)
          (λ _.
            if_cases P (not site.is_main || not has_ctx) _ _
              (λ _. same-Outcome internal_server_error (ground arith) same)
              (λ _. content_buffers-Outcome site nginx (needs_padding site nginx s.ctx) s)))
