-- ===== src/Content/Handed.antt =====
-- From the buffers to the relay: the context that `ngx_http_tunnel_content_handler` (src/core.c)
-- hands to the relay.
use ngx_http_tunnel_module.Common.{
  ℕ, ◌≤◌, Bool, true, false, not, ◌&&◌, ◌||◌, some, if◌then◌else◌, ◌≡◌, ◌≢◌, refl, sym, ap, ◌∙◌,
  arith, inl, inr, ◌⊎◌, if_cases, Bool-cases,
}
use mathlib.Core.Path.{subst}
use ngx_http_tunnel_module.Rc.{Rc, done, is_ok}
use ngx_http_tunnel_module.Buffers.{create_temp_buf}
use ngx_http_tunnel_module.Context.{
  TunnelCtx, Protocol, unknown_protocol, websocket, connect_udp, connect_tcp, connect_ip,
  header_reserve_bytes,
}
use ngx_http_tunnel_module.Relay.Download.Reserve.{KeepsReserve}
use ngx_http_tunnel_module.Capsule.Header.{is_header_present}
use ngx_http_tunnel_module.Session.{Session, Site, SetupNginx}
use ngx_http_tunnel_module.Connect.{
  init_upstream_peer, udp_targeted, udp_set_target, udp_init_upstream, branch_udp, branch_protocol,
  extended_connect_branching, new_capsule, filtered,
}
use ngx_http_tunnel_module.Target.Variable.{OnlyResolves}
use ngx_http_tunnel_module.Connect.Result.{Same}
use ngx_http_tunnel_module.Connect.Branching.{
  branching_plain, branching_extended, extended_connect_branching-Result,
  udp_set_target-OnlyResolves,
}
use ngx_http_tunnel_module.Content.{
  needs_padding, padded, connect_plain, branched, with_send_buf, with_recv_buf, with_header_buf,
  content_branching, content_buffers, content_handler,
}
use ngx_http_tunnel_module.Content.Outcome.{answered, branched_plain, branched_answered}
use ngx_http_tunnel_module.Content.Ready.{
  IsFresh, IsPlain, IsPadded, IsCapsuled, IsReady, connect_targeted-P, udp_created-P,
  init_upstream_peer-P,
}

abbrev ReadyOn : ℕ → Rc × Session → Type 0
ReadyOn size (rc, s) = rc ≡ done → IsReady size s.ctx

-- The buffers are there, and the header buffer too where a filter needs it.
abbrev HasBuffers : ℕ → Bool → TunnelCtx → Type 0
HasBuffers size header ctx =
    (ctx.send_buf ≡ create_temp_buf size)
    × (ctx.recv_buf ≡ create_temp_buf size)
    × (header ≡ true → ctx.header_buf ≡ create_temp_buf header_reserve_bytes)

connect_plain-ReadyOn :
    (size : ℕ) (site : Site) (nginx : SetupNginx) (needed : Bool) (s : Session)
    → IsFresh s.ctx
    → HasBuffers size needed s.ctx
    → ReadyOn size (connect_plain site nginx needed s)
unfolding connect_plain
connect_plain-ReadyOn size site nginx false s fresh (b, b', _) = λ _.
    connect_targeted-P (IsReady size) (λ c x h. h) (λ c r h. h) site nginx s
      (
        (fresh.body, fresh.flush, fresh.alive, b, b'),
        inl (fresh.filters.0, fresh.filters.1, fresh.padding, fresh.capsule, fresh.reserve),
      )
connect_plain-ReadyOn size site nginx true s fresh (b, b', header) =
    if_cases (ReadyOn size) (not nginx.padding_ctx) _ _ (λ _ h. ground arith)
      (λ _ _.
        connect_targeted-P (IsReady size) (λ c x h. h) (λ c r h. h) site nginx
          (record s { ctx = padded s.ctx })
          (
            (fresh.body, fresh.flush, fresh.alive, b, b'),
            inr (inl (refl, refl, refl, fresh.capsule, refl, header refl)),
          ))

capsuled-IsReady :
    (size : ℕ) (ctx : TunnelCtx)
    → IsFresh ctx
    → HasBuffers size true ctx
    → IsReady size (record (filtered ctx) { capsule = some new_capsule })
capsuled-IsReady size ctx fresh (b, b', header) = (
  (fresh.body, fresh.flush, fresh.alive, b, b'),
  inr (inr (refl, refl, fresh.padding, refl, fresh.reserve, header refl)),
)

udp_targeted-ReadyOn :
    (size : ℕ) (site : Site) (nginx : SetupNginx) (rc : Rc) (s : Session)
    → rc ≢ done
    → IsFresh s.ctx
    → HasBuffers size true s.ctx
    → ReadyOn size (udp_targeted site nginx rc s)
unfolding udp_targeted
udp_targeted-ReadyOn size site nginx rc s h fresh buffers =
    let s' : Session = record s { ctx = record (filtered s.ctx) { capsule = some new_capsule } } in
    let r = init_upstream_peer nginx s' in
    if_cases (ReadyOn size) (not (is_ok rc)) _ _ (λ _ e. absurd (h e))
      (λ _.
        if_cases (ReadyOn size) (not nginx.capsule_ctx) _ _ (λ _ e. ground arith)
          (λ _ _.
            udp_created-P (IsReady size) (λ c x i. i) (λ c t i. i) site nginx r.0 r.1
              (init_upstream_peer-P (IsReady size) (λ c x i. i) (λ c t i. i) nginx s'
                (capsuled-IsReady size s.ctx fresh buffers))))

-- The target leaves a fresh context with its buffers.
targeted :
    (size : ℕ) (ctx ctx' : TunnelCtx)
    → OnlyResolves ctx ctx'
    → IsFresh ctx
    → HasBuffers size true ctx
    → IsFresh ctx' × HasBuffers size true ctx'
targeted size ctx ctx' e fresh buffers =
    subst (λ c. IsFresh c × HasBuffers size true c) (sym e)
      (
        record {
          body = fresh.body;
          flush = fresh.flush;
          reserve = fresh.reserve;
          padding = fresh.padding;
          capsule = fresh.capsule;
          filters = fresh.filters;
          alive = fresh.alive;
        },
        buffers,
      )

udp_init_upstream-ReadyOn :
    (size : ℕ) (site : Site) (nginx : SetupNginx) (s : Session)
    → IsFresh s.ctx
    → HasBuffers size true s.ctx
    → ReadyOn size (udp_init_upstream site nginx s)
unfolding udp_init_upstream
udp_init_upstream-ReadyOn size site nginx s fresh buffers =
    let ((h, _), e) = udp_set_target-OnlyResolves site nginx s.ctx in
    let r = udp_set_target site nginx s.ctx in
    let (fresh', buffers') = targeted size s.ctx r.1 e fresh buffers in
    udp_targeted-ReadyOn size site nginx r.0 (record s { ctx = r.1 }) h fresh' buffers'

branch_protocol-ReadyOn :
    (size : ℕ) (site : Site) (nginx : SetupNginx) (p : Protocol) (s : Session)
    → IsFresh s.ctx
    → HasBuffers size true s.ctx
    → ReadyOn size (branch_protocol site nginx p s)
unfolding branch_protocol branch_udp
branch_protocol-ReadyOn size site nginx connect_udp s fresh buffers =
    let R = ReadyOn size in
    if_cases R (not site.udp) _ _ (λ _ e. ground arith)
      (λ _.
        if_cases R (not site.stream_downstream) _ _ (λ _ e. ground arith)
          (λ _.
            if_cases R (not (is_ok (is_header_present nginx.same site.headers_in))) _ _
              (λ _ e. ground arith)
              (λ _.
                udp_init_upstream-ReadyOn size site nginx (record s { keepalive = false }) fresh
                  buffers)))
branch_protocol-ReadyOn size site nginx unknown_protocol s fresh buffers = λ e. ground arith
branch_protocol-ReadyOn size site nginx websocket s fresh buffers = λ e. ground arith
branch_protocol-ReadyOn size site nginx connect_ip s fresh buffers = λ e. ground arith
branch_protocol-ReadyOn size site nginx connect_tcp s fresh buffers = λ e. ground arith

branched-ReadyOn :
    (size : ℕ) (site : Site) (nginx : SetupNginx) (needed : Bool) (s : Session)
    → IsFresh s.ctx
    → HasBuffers size (s.ctx.extended_connect || needed) s.ctx
    → ReadyOn size (branched site nginx needed (extended_connect_branching site nginx s))
branched-ReadyOn size site nginx needed s fresh buffers = elim (Bool-cases s.ctx.extended_connect) [
  | inr e ↦
      subst (ReadyOn size)
        (sym (
          ap (branched site nginx needed) (branching_plain site nginx s e)
          ∙ branched_plain site nginx needed s))
        (connect_plain-ReadyOn size site nginx needed s fresh
          (subst (λ b. HasBuffers size (b || needed) s.ctx) e buffers))
  | inl e ↦
      let same : Same s s = record {
        count = refl;
        ref = refl;
        actions = refl;
        kind = (refl, refl);
      } in
      let r = extended_connect_branching site nginx s in
      let result = extended_connect_branching-Result site nginx s s e same in
      subst (ReadyOn size)
        (sym (
          branched_answered site nginx needed r (answered result)
          ∙ branching_extended site nginx s e))
        (branch_protocol-ReadyOn size site nginx s.ctx.protocol s fresh
          (subst (λ b. HasBuffers size (b || needed) s.ctx) e buffers))
]

headed-ReadyOn :
    (site : Site) (nginx : SetupNginx) (needed header : Bool) (s : Session)
    → IsFresh s.ctx
    → s.ctx.send_buf ≡ create_temp_buf site.buffer_size
    → s.ctx.recv_buf ≡ create_temp_buf site.buffer_size
    → s.ctx.extended_connect || needed ≡ header
    → ReadyOn site.buffer_size (
        branched site nginx needed
          (extended_connect_branching site nginx (if header then with_header_buf s else s)))
headed-ReadyOn site nginx needed false s fresh b b' e =
    branched-ReadyOn site.buffer_size site nginx needed s fresh (b, b', λ h. ground (arith, e, h))
headed-ReadyOn site nginx needed true s fresh b b' e =
    branched-ReadyOn site.buffer_size site nginx needed (with_header_buf s)
      (record {
        body = fresh.body;
        flush = fresh.flush;
        reserve = fresh.reserve;
        padding = fresh.padding;
        capsule = fresh.capsule;
        filters = fresh.filters;
        alive = fresh.alive;
      })
      (b, b', λ _. refl)

content_handler-ReadyOn :
    (site : Site) (nginx : SetupNginx) (has_ctx : Bool) (s : Session)
    → IsFresh s.ctx
    → ReadyOn site.buffer_size (content_handler site nginx has_ctx s)
unfolding content_handler content_buffers content_branching
content_handler-ReadyOn site nginx has_ctx s fresh =
    let R = ReadyOn site.buffer_size in
    let needed = needs_padding site nginx s.ctx in
    let header = s.ctx.extended_connect || needed in
    let s' = with_recv_buf site (with_send_buf site s) in
    let fresh' : IsFresh s'.ctx = record {
      body = fresh.body;
      flush = fresh.flush;
      reserve = fresh.reserve;
      padding = fresh.padding;
      capsule = fresh.capsule;
      filters = fresh.filters;
      alive = fresh.alive;
    } in
    if_cases R (not site.is_connect) _ _ (λ _ e. ground arith)
      (λ _.
        if_cases R (not site.enable) _ _ (λ _ e. ground arith)
          (λ _.
            if_cases R (not site.is_main || not has_ctx) _ _ (λ _ e. ground arith)
              (λ _.
                if_cases R (not nginx.send_buf) _ _ (λ _ e. ground arith)
                  (λ _.
                    if_cases R (not nginx.recv_buf) _ _ (λ _ e. ground arith)
                      (λ _.
                        if_cases R (header && not nginx.header_buf) _ _ (λ _ e. ground arith)
                          (λ _.
                            headed-ReadyOn site nginx needed header s' fresh' refl refl refl))))))

ready_reserve :
    (ctx : TunnelCtx)
    → IsPlain ctx ⊎ (IsPadded ctx ⊎ IsCapsuled ctx)
    → ctx.buffer_tail_reserve ≤ 255
ready_reserve ctx (inl (_, _, _, _, e)) = omega (arith, e)
ready_reserve ctx (inr (inl (_, _, _, _, e, _))) = omega (arith, e)
ready_reserve ctx (inr (inr (_, _, _, _, e, _))) = omega (arith, e)

KeepsReserve-ready :
    (size : ℕ) (ctx : TunnelCtx) → 1024 ≤ size → IsReady size ctx → KeepsReserve ctx
KeepsReserve-ready size ctx h ((_, _, _, _, b), kind) =
    rw b (omega arith, omega (arith, ready_reserve ctx kind))

-- What an NGX_DONE hands to the relay, from a fresh context: an idle context whose two buffers have
-- the configured size and keep the reserve that padding needs, with no filter at all, or with both
-- padding filters and the state and header buffer that they use, or with both capsule filters and
-- theirs. The buffer size is 1024 at least.
pub content_handler-IsReady :
    (site : Site) (nginx : SetupNginx) (has_ctx : Bool) (s s' : Session)
    → IsFresh s.ctx
    → 1024 ≤ site.buffer_size
    → content_handler site nginx has_ctx s ≡ (done, s')
    → IsReady site.buffer_size s'.ctx × KeepsReserve s'.ctx
content_handler-IsReady site nginx has_ctx s s' fresh size answer =
    let ready =
      subst (ReadyOn site.buffer_size) answer (content_handler-ReadyOn site nginx has_ctx s fresh)
        refl in
    (ready, KeepsReserve-ready site.buffer_size s'.ctx size ready)
