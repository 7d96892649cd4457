-- ===== src/Connect/Result.antt =====
-- Setting up a tunnel (src/connect.c, src/udp.c): an upstream request that is started, or none.
use ngx_http_tunnel_module.Common.{
  ◌+◌, Bool, true, false, not, some, List, [], ◌∷◌, ◌++◌, if◌then◌else◌, ◌≡◌, ◌≢◌, refl, sym, ap,
  ◌∙◌, arith, inl, inr, ◌⊎◌, append-nil, append_assoc,
}
use ngx_http_tunnel_module.Rc.{Rc, ok, done, declined, is_ok, internal_server_error}
use ngx_http_tunnel_module.Context.{TunnelCtx, connect_udp}
use ngx_http_tunnel_module.Session.{
  ProcessHeader, connect_process_header, udp_process_header, Action, header_sent, flush_sent,
  upstream_started, Session,
}
use ngx_http_tunnel_module.Connect.{new_upstream, configure, start_upstream}
use ngx_http_tunnel_module.Connect.Answered.{Partial, Sends}

-- What the reference count and the order of calls depend on is as before.
pub record Same (s s' : Session) : Type 0 where
  pub count : s'.count ≡ s.count
  pub ref : s'.ctx.content_handler_ref ≡ s.ctx.content_handler_ref
  pub actions : s'.actions ≡ s.actions
  pub kind : (s'.ctx.extended_connect ≡ s.ctx.extended_connect) × (s'.ctx.protocol ≡ s.ctx.protocol)

-- No upstream request was started, no reference taken; the response may have begun.
pub record Unstarted (s s' : Session) : Type 0 where
  pub count : s'.count ≡ s.count
  pub ref : s'.ctx.content_handler_ref ≡ s.ctx.content_handler_ref
  pub extra : List Action
  pub actions : s'.actions ≡ s.actions ++ extra
  pub partial : Partial extra

-- The calls of a set-up that has succeeded.
abbrev pub calls : Bool → List Action
calls stream_downstream =
    if stream_downstream
    then header_sent ∷ flush_sent ∷ upstream_started ∷ []
    else upstream_started ∷ []

-- A CONNECT is tunnelled over TCP, and an extended one for UDP over datagrams, each with its own
-- handler.
abbrev pub IsKind : Session → Bool → ProcessHeader → Type 0
IsKind s datagram handler =
    ((s.ctx.extended_connect ≡ false) × (datagram ≡ false) × (handler ≡ connect_process_header))
    ⊎ ((s.ctx.extended_connect ≡ true)
        × (s.ctx.protocol ≡ connect_udp)
        × (datagram ≡ true)
        × (handler ≡ udp_process_header))

-- One reference was taken and noted, the calls were made in their order, and the upstream request is
-- for the target of the context.
pub record Started (stream_downstream : Bool) (s s' : Session) : Type 0 where
  pub count : s'.count ≡ s.count + 1
  pub ref : s'.ctx.content_handler_ref ≡ true
  pub actions : s'.actions ≡ s.actions ++ calls stream_downstream
  pub datagram : Bool
  pub handler : ProcessHeader
  pub kind : IsKind s datagram handler
  pub upstream :
      s'.upstream
      ≡ some (record {
        resolved = s'.ctx.resolved;
        datagram = datagram;
        configured = true;
        process_header = some handler;
      })

-- Neither NGX_DONE nor NGX_DECLINED.
abbrev pub Refuses : Rc → Type 0
Refuses rc = (rc ≢ done) × (rc ≢ declined)

-- NGX_DONE goes with a started upstream request, a refusal with none.
abbrev pub Result : Bool → Session → Rc × Session → Type 0
Result stream_downstream s (rc, s') =
    ((rc ≡ done) × Started stream_downstream s s') ⊎ (Refuses rc × Unstarted s s')

abbrev pub finish_setup : ProcessHeader → Bool → Rc × Session → Rc × Session
finish_setup handler datagram (rc, s) =
    if not (is_ok rc) then (internal_server_error, s) else (done, start_upstream handler datagram s)

pub Same-Unstarted : {s s' : Session} → Same s s' → Unstarted s s'
Same-Unstarted {s} same = record {
  count = same.count;
  ref = same.ref;
  extra = [];
  actions = same.actions ∙ sym (append-nil s.actions);
  partial = inl refl;
}

pub Same-Result :
    {stream_downstream : Bool} {s s' : Session} (rc : Rc)
    → Refuses rc
    → Same s s'
    → Result stream_downstream s (rc, s')
Same-Result rc h same = inr (h, Same-Unstarted same)

-- Behind a response that was sent, or was not to be sent.
pub finish_answered-Result :
    (handler : ProcessHeader) (datagram : Bool) (s s' : Session) (r : Rc × Session)
    → IsKind s datagram handler
    → Same s s'
    → s'.upstream ≡ some (new_upstream s'.ctx.resolved)
    → Sends s' r
    → Result true s (finish_setup handler datagram r)
finish_answered-Result handler datagram s s' (rc, t) kind same up sends = elim sends.complete [
  | inr (e, partial) ↦ rw e (
      inr (
        ground arith,
        record {
          count = sends.count ∙ same.count;
          ref = ap (λ (c : TunnelCtx). c.content_handler_ref) sends.ctx ∙ same.ref;
          extra = sends.extra;
          actions = sends.actions ∙ ap (λ l. l ++ sends.extra) same.actions;
          partial = partial;
        },
      ))
  | inl (e, e') ↦ rw e (
      inl (
        refl,
        record {
          count = ap (λ n. n + 1) (sends.count ∙ same.count);
          ref = refl;
          actions =
              ap (λ l. l ++ upstream_started ∷ [])
                (sends.actions
                  ∙ ap (λ l. l ++ sends.extra) same.actions
                  ∙ ap (λ x. s.actions ++ x) e')
              ∙ append_assoc s.actions (header_sent ∷ flush_sent ∷ []) (upstream_started ∷ []);
          datagram = datagram;
          handler = handler;
          kind = kind;
          upstream = ap (configure handler datagram) (
              sends.upstream
              ∙ up
              ∙ ap (λ (c : TunnelCtx). some (new_upstream c.resolved)) (sym sends.ctx));
        },
      ))
]

pub finish_silent-Result :
    (handler : ProcessHeader) (datagram : Bool) (s s' : Session)
    → IsKind s datagram handler
    → Same s s'
    → s'.upstream ≡ some (new_upstream s'.ctx.resolved)
    → Result false s (finish_setup handler datagram (ok, s'))
finish_silent-Result handler datagram s s' kind same up = inl (
  refl,
  record {
    count = ap (λ n. n + 1) same.count;
    ref = refl;
    actions = ap (λ l. l ++ upstream_started ∷ []) same.actions;
    datagram = datagram;
    handler = handler;
    kind = kind;
    upstream = ap (configure handler datagram) up;
  },
)
