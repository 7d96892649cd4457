-- ===== src/Connect/Answered.antt =====
-- `tunnel_connect_send_response` of src/connect.c: what it does with the request.
use ngx_http_tunnel_module.Common.{
  List, [], ◌∷◌, ◌++◌, ◌≡◌, refl, sym, ap, ◌∙◌, Bool-cases, inl, inr, ◌⊎◌, append-nil, append_assoc,
}
use ngx_http_tunnel_module.Rc.{Rc, ok, error, is_ok}
use ngx_http_tunnel_module.Session.{Action, header_sent, flush_sent, Session, Site, SetupNginx}
use ngx_http_tunnel_module.Connect.{
  is_failure, is_error, respond, send_header, send_response, add_headers,
}

-- The calls of an answer, as far as they got.
abbrev pub Partial : List Action → Type 0
Partial extra = (extra ≡ []) ⊎ (extra ≡ header_sent ∷ []) ⊎ (extra ≡ header_sent ∷ flush_sent ∷ [])

-- The response has gone out in full, or the calls for it went as far as they did; the rest of the
-- session that the reference and the relay depend on is as before.
pub record Sends (s : Session) (r : Rc × Session) : Type 0 where
  pub extra : List Action
  pub actions : r.1.actions ≡ s.actions ++ extra
  pub complete :
      ((r.0 ≡ ok) × (extra ≡ header_sent ∷ flush_sent ∷ [])) ⊎ ((r.0 ≡ error) × Partial extra)
  pub ctx : r.1.ctx ≡ s.ctx
  pub count : r.1.count ≡ s.count
  pub upstream : r.1.upstream ≡ s.upstream

send_header-Sends :
    (nginx : SetupNginx) (s s' : Session)
    → s'.ctx ≡ s.ctx
    → s'.count ≡ s.count
    → s'.upstream ≡ s.upstream
    → s'.actions ≡ s.actions
    → Sends s (send_header nginx s')
unfolding send_header
send_header-Sends nginx s s' ctx count upstream actions =
    let one : s'.actions ++ header_sent ∷ [] ≡ s.actions ++ header_sent ∷ [] =
      ap (λ l. l ++ header_sent ∷ []) actions in
    let two : (s'.actions ++ header_sent ∷ []) ++ flush_sent ∷ []
        ≡ s.actions ++ header_sent ∷ flush_sent ∷ [] =
      ap (λ l. l ++ flush_sent ∷ []) one
      ∙ append_assoc s.actions (header_sent ∷ []) (flush_sent ∷ []) in
    elim (Bool-cases (is_failure nginx.send_header)) [
      | inl e ↦
          rw (e, send_header)
            (record {
              extra = header_sent ∷ [];
              actions = one;
              complete = inr (refl, inr (inl refl));
              ctx = ctx;
              count = count;
              upstream = upstream;
            })
      | inr e ↦ elim (Bool-cases (is_error nginx.send_special)) [
        | inl e' ↦
            rw (e, e', send_header)
              (record {
                extra = header_sent ∷ flush_sent ∷ [];
                actions = two;
                complete = inr (refl, inr (inr refl));
                ctx = ctx;
                count = count;
                upstream = upstream;
              })
        | inr e' ↦
            rw (e, e', send_header)
              (record {
                extra = header_sent ∷ flush_sent ∷ [];
                actions = two;
                complete = inl (refl, refl);
                ctx = ctx;
                count = count;
                upstream = upstream;
              })
      ]
    ]

pub send_response-Sends :
    (site : Site) (nginx : SetupNginx) (s : Session) → Sends s (send_response site nginx s)
unfolding send_response
send_response-Sends site nginx s = elim (Bool-cases (is_ok (add_headers site nginx s).0)) [
  | inr e ↦
      rw (e, send_response)
        (record {
          extra = [];
          actions = sym (append-nil s.actions);
          complete = inr (refl, inl refl);
          ctx = refl;
          count = refl;
          upstream = refl;
        })
  | inl e ↦
      rw (e, send_response)
        (send_header-Sends nginx s
          (respond (record s { headers_out = (add_headers site nginx s).1 })) refl refl refl refl)
]
