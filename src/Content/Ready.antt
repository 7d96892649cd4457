-- ===== src/Content/Ready.antt =====
-- The context that `ngx_http_tunnel_content_handler` (src/core.c) hands to the relay.
use ngx_http_tunnel_module.Common.{
  ℕ, Bool, true, false, not, ◌||◌, none, some, [], if◌then◌else◌, ◌≡◌, sym, ◌⊎◌, if_cases, is_nil,
}
use mathlib.Core.Path.{subst}
use ngx_http_tunnel_module.Rc.{Rc, ok, is_ok}
use ngx_http_tunnel_module.Buffers.{create_temp_buf}
use ngx_http_tunnel_module.Context.{
  TunnelCtx, Resolved, padding_filter, capsule_filter, header_reserve_bytes, max_padding_size,
}
use ngx_http_tunnel_module.Session.{
  Session, Site, SetupNginx, ProcessHeader, connect_process_header, udp_process_header,
}
use ngx_http_tunnel_module.Connect.{
  init_upstream_peer, set_target, send_response, udp_created, new_capsule,
}
use ngx_http_tunnel_module.Connect.Answered.{send_response-Sends}
use ngx_http_tunnel_module.Connect.Result.{finish_setup}
use ngx_http_tunnel_module.Content.{connect_created, connect_targeted, new_padding}

-- A context as the access handler leaves it: zeroed, but for the protocol and the target.
pub record IsFresh (ctx : TunnelCtx) : Type 0 where
  pub body : ctx.downstream_in ≡ []
  pub flush : ctx.flush_size ≡ 0
  pub reserve : ctx.buffer_tail_reserve ≡ 0
  pub padding : ctx.padding ≡ none
  pub capsule : ctx.capsule ≡ none
  pub filters : (ctx.downstream_filter ≡ none) × (ctx.upstream_filter ≡ none)
  pub alive : ctx.finalized ≡ false

-- No filter, the padding filters or the capsule filters, each with the state and the buffers that
-- it needs.
abbrev pub IsPlain : TunnelCtx → Type 0
IsPlain ctx =
    (ctx.downstream_filter ≡ none)
    × (ctx.upstream_filter ≡ none)
    × (ctx.padding ≡ none)
    × (ctx.capsule ≡ none)
    × (ctx.buffer_tail_reserve ≡ 0)

abbrev pub IsPadded : TunnelCtx → Type 0
IsPadded ctx =
    (ctx.downstream_filter ≡ some padding_filter)
    × (ctx.upstream_filter ≡ some padding_filter)
    × (ctx.padding ≡ some new_padding)
    × (ctx.capsule ≡ none)
    × (ctx.buffer_tail_reserve ≡ max_padding_size)
    × (ctx.header_buf ≡ create_temp_buf header_reserve_bytes)

abbrev pub IsCapsuled : TunnelCtx → Type 0
IsCapsuled ctx =
    (ctx.downstream_filter ≡ some capsule_filter)
    × (ctx.upstream_filter ≡ some capsule_filter)
    × (ctx.padding ≡ none)
    × (ctx.capsule ≡ some new_capsule)
    × (ctx.buffer_tail_reserve ≡ 0)
    × (ctx.header_buf ≡ create_temp_buf header_reserve_bytes)

-- What every tunnel starts the relay with.
abbrev pub IsIdle : ℕ → TunnelCtx → Type 0
IsIdle size ctx =
    (ctx.downstream_in ≡ [])
    × (ctx.flush_size ≡ 0)
    × (ctx.finalized ≡ false)
    × (ctx.send_buf ≡ create_temp_buf size)
    × (ctx.recv_buf ≡ create_temp_buf size)

abbrev pub IsReady : ℕ → TunnelCtx → Type 0
IsReady size ctx = IsIdle size ctx × (IsPlain ctx ⊎ (IsPadded ctx ⊎ IsCapsuled ctx))

-- Behind the filters, a context changes in its target and its reference only.
module _ (P : TunnelCtx → Type 0)
    (with_ref : (c : TunnelCtx) (b : Bool) → P c → P (record c { content_handler_ref = b }))
    (with_target : (c : TunnelCtx) (r : Resolved) → P c → P (record c { resolved = r })) where
  finish_setup-P :
      (handler : ProcessHeader) (datagram : Bool) (r : Rc × Session)
      → P r.1.ctx
      → P (finish_setup handler datagram r).1.ctx
  finish_setup-P handler datagram (rc, s) h =
      if_cases (λ (x : Rc × Session). P x.1.ctx) (not (is_ok rc)) _ _ (λ _. h)
        (λ _. with_ref s.ctx true h)

  send_response-P :
      (site : Site) (nginx : SetupNginx) (s : Session)
      → P s.ctx
      → P (send_response site nginx s).1.ctx
  send_response-P site nginx s h = subst P (sym (send_response-Sends site nginx s).ctx) h

  connect_created-P :
      (site : Site) (nginx : SetupNginx) (rc : Rc) (s : Session)
      → P s.ctx
      → P (connect_created site nginx (rc, s)).1.ctx
  unfolding connect_created
  connect_created-P site nginx rc s h =
      let Q : Rc × Session → Type 0 = λ x. P x.1.ctx in
      if_cases Q (not (is_ok rc)) _ _ (λ _. h)
        (λ _.
          finish_setup-P connect_process_header false
            (if site.stream_downstream then send_response site nginx s else (ok, s))
            (if_cases Q site.stream_downstream _ _ (λ _. send_response-P site nginx s h) (λ _. h)))

  pub udp_created-P :
      (site : Site) (nginx : SetupNginx) (rc : Rc) (s : Session)
      → P s.ctx
      → P (udp_created site nginx (rc, s)).1.ctx
  unfolding udp_created
  udp_created-P site nginx rc s h =
      if_cases (λ (x : Rc × Session). P x.1.ctx) (not (is_ok rc)) _ _ (λ _. h)
        (λ _.
          finish_setup-P udp_process_header true (send_response site nginx s)
            (send_response-P site nginx s h))

  pub init_upstream_peer-P :
      (nginx : SetupNginx) (s : Session) → P s.ctx → P (init_upstream_peer nginx s).1.ctx
  unfolding init_upstream_peer
  init_upstream_peer-P nginx s h =
      if_cases (λ (x : Rc × Session). P x.1.ctx) (not nginx.upstream_create) _ _ (λ _. h) (λ _. h)

  set_target-P : (site : Site) (ctx : TunnelCtx) → P ctx → P (set_target site ctx).1
  unfolding set_target
  set_target-P site ctx h =
      if_cases (λ (x : Rc × TunnelCtx). P x.1)
        (not site.host_start || not site.host_end || is_nil site.server) _ _ (λ _. h)
        (λ _. with_target ctx _ h)

  pub connect_targeted-P :
      (site : Site) (nginx : SetupNginx) (s : Session)
      → P s.ctx
      → P (connect_targeted site nginx (set_target site s.ctx) s).1.ctx
  unfolding connect_targeted
  connect_targeted-P site nginx s h =
      let r = set_target site s.ctx in
      let h' = set_target-P site s.ctx h in
      let r' = init_upstream_peer nginx (record s { ctx = r.1 }) in
      if_cases (λ (x : Rc × Session). P x.1.ctx) (not (is_ok r.0)) _ _ (λ _. h')
        (λ _.
          connect_created-P site nginx r'.0 r'.1
            (init_upstream_peer-P nginx (record s { ctx = r.1 }) h'))
