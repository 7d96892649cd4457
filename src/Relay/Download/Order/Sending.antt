-- ===== src/Relay/Download/Order/Sending.antt =====
-- The order of the bytes that `send_downstream` (src/relay.c) moves.
use ngx_http_tunnel_module.Common.{
  ℕ, ◌≡◌, refl, sym, ap, ◌∙◌, inl, inr, Bool, true, not, ◌&&◌, none, List, [], ◌++◌, length, is_nil,
  if◌then◌else◌, arith, Bool-cases, append-nil, append_assoc, eq-nil_of_length,
}
use mathlib.Core.Path.{subst}
use ngx_http_tunnel_module.Rc.{Rc, ok, error, again, done, busy, declined, abort, status}
use ngx_http_tunnel_module.Buffers.{Buf}
use ngx_http_tunnel_module.Context.{TunnelCtx}
use ngx_http_tunnel_module.Relay.{
  Net, Nginx, Output, nothing, data_only, Written, downstream_output_idle,
}
use ngx_http_tunnel_module.Relay.Download.{
  next_send_buf, rewind_drained, output_answer, after_output, write_out, filter_download,
  send_buffers, send_downstream,
}
use ngx_http_tunnel_module.Relay.Download.Order.{IsPipe, InOrder, StepInOrder, Handed}

module _ {W : Type 0} (nginx : Nginx W) (given taken : W → List ℕ)
    (pipe : IsPipe nginx given taken) where
  next_send_buf-InOrder :
      (ctx : TunnelCtx) (net : Net W) (activity : Bool)
      → InOrder given taken ctx net
      → InOrder given taken (next_send_buf nginx ctx net activity).0 net
  unfolding next_send_buf
  next_send_buf-InOrder ctx net activity i =
      elim (Bool-cases (is_nil ctx.send_buf.content && downstream_output_idle net)) [
        | inr e ↦ rw e i
        | inl e ↦
            let nil : ctx.send_buf.content ≡ [] = ground (arith, e) in
            elim (Bool-cases (not (is_nil ctx.recv_buf.content))) [
              | inl e' ↦
                  rw (e, e')
                    (record {
                      plain = i.plain;
                      no_header = i.no_header;
                      order =
                          i.order
                          ∙ ap (λ z. taken net.world ++ (z ++ ctx.recv_buf.content)) nil
                          ∙ ap (λ z. taken net.world ++ z) (sym (append-nil ctx.recv_buf.content));
                    })
              | inr e' ↦
                  rw (e, e')
                    (record {
                      plain = i.plain;
                      no_header = i.no_header;
                      order =
                          i.order ∙ ap (λ z. taken net.world ++ (z ++ ctx.recv_buf.content)) nil;
                    })
            ]
      ]

  content-rewind_drained :
      (net : Net W) (b : Buf) → (rewind_drained nginx net b).content ≡ b.content
  unfolding rewind_drained
  content-rewind_drained net b = ground (arith, eq-nil_of_length b.content)

  output_answer-InOrder :
      (rc : Rc) (unsent sent : TunnelCtx) (net : Net W) (moved activity : Bool)
      → InOrder given taken unsent net
      → InOrder given taken sent net
      → StepInOrder given taken (output_answer nginx rc unsent sent net moved activity)
  unfolding output_answer
  output_answer-InOrder ok unsent sent net moved activity i j = j
  output_answer-InOrder error unsent sent net moved activity i j = i
  output_answer-InOrder again unsent sent net moved activity i j = j
  output_answer-InOrder busy unsent sent net moved activity i j = j
  output_answer-InOrder done unsent sent net moved activity i j = j
  output_answer-InOrder declined unsent sent net moved activity i j = j
  output_answer-InOrder abort unsent sent net moved activity i j = j
  output_answer-InOrder (status n) unsent sent net moved activity i j = j

  after_output-InOrder :
      (before : Net W) (pos : ℕ) (ctx : TunnelCtx) (activity : Bool) (w : Written W)
      → ctx.upstream_filter ≡ none
      → w.header_buf.content ≡ []
      → given w.net.world ≡ taken w.net.world ++ (w.send_buf.content ++ ctx.recv_buf.content)
      → StepInOrder given taken (after_output nginx before pos ctx activity w)
  unfolding after_output
  after_output-InOrder before pos ctx activity w plain no_header order =
      output_answer-InOrder w.rc _ _ w.net _ activity
        (record { plain = plain; no_header = no_header; order = order })
        (record {
          plain = plain;
          no_header = no_header;
          order =
              order
              ∙ ap (λ z. taken w.net.world ++ (z ++ ctx.recv_buf.content))
                  (sym (content-rewind_drained w.net w.send_buf));
        })

  -- The output filters keep the order, whichever flags the two buffers carry.
  output_filter-order :
      (chain : Output) (net : Net W) (ctx : TunnelCtx) (h b : Buf)
      → InOrder given taken ctx net
      → Handed chain h b
      → h.content ≡ []
      → b.content ≡ ctx.send_buf.content
      → let w = nginx.output_filter chain net h b in
        (w.header_buf.content ≡ [])
        × (given w.net.world ≡ taken w.net.world ++ (w.send_buf.content ++ ctx.recv_buf.content))
  output_filter-order chain net ctx h b i handed nil same =
      let w = nginx.output_filter chain net h b in
      let nil' : w.header_buf.content ≡ [] =
        eq-nil_of_length _ (omega (arith, pipe.output_header chain net h b, ap length nil)) in
      let moved : taken w.net.world ++ w.send_buf.content
          ≡ taken net.world ++ ctx.send_buf.content =
        ap (λ z. taken w.net.world ++ (z ++ w.send_buf.content)) (sym nil')
        ∙ pipe.output_taken chain net h b handed
        ∙ ap (λ z. taken net.world ++ (z ++ b.content)) nil
        ∙ ap (λ z. taken net.world ++ z) same in
      (
        nil',
        pipe.output_given chain net h b
            ∙ i.order
            ∙ sym (append_assoc (taken net.world) ctx.send_buf.content ctx.recv_buf.content)
            ∙ ap (λ z. z ++ ctx.recv_buf.content) (sym moved)
            ∙ append_assoc (taken w.net.world) w.send_buf.content ctx.recv_buf.content,
      )

  write_out-InOrder :
      (ctx : TunnelCtx) (net : Net W) (pos : ℕ) (activity : Bool)
      → InOrder given taken ctx net
      → StepInOrder given taken (write_out nginx ctx net pos activity data_only)
  unfolding write_out
  write_out-InOrder ctx net pos activity i =
      let (nil, order) =
        output_filter-order data_only net ctx
          (record ctx.header_buf {
            flush = if ctx.upstream_empty_datagram then true else ctx.header_buf.flush;
          })
          (record ctx.send_buf {
            flush = if ctx.upstream_empty_datagram then ctx.send_buf.flush else true;
          })
          i i.no_header i.no_header refl in
      after_output-InOrder net pos _ activity _ i.plain nil order

  send_buffers-InOrder :
      (ctx : TunnelCtx) (net : Net W) (activity : Bool)
      → InOrder given taken ctx net
      → StepInOrder given taken (send_buffers nginx (ctx, activity) net)
  unfolding send_buffers filter_download
  send_buffers-InOrder ctx net activity i =
      elim (Bool-cases (
        is_nil ctx.send_buf.content
        && not ctx.upstream_empty_datagram
        && downstream_output_idle net)) [
          | inl e ↦ rw e i
          | inr e ↦ elim (Bool-cases (not (downstream_output_idle net))) [
            | inl e' ↦
                let (nil, order) =
                  output_filter-order nothing net ctx ctx.header_buf ctx.send_buf i tt i.no_header
                    refl in
                rw (e, e')
                  (after_output-InOrder net ctx.send_buf.pos ctx activity _ i.plain nil order)
            | inr e' ↦
                rw (e, e')
                  (subst (λ f. StepInOrder given taken (filter_download nginx f ctx net activity))
                    (sym i.plain) (write_out-InOrder ctx net ctx.send_buf.pos activity i))
          ]
        ]

  pub send_downstream-InOrder :
      (ctx : TunnelCtx) (net : Net W) (activity : Bool)
      → InOrder given taken ctx net
      → StepInOrder given taken (send_downstream nginx ctx net activity)
  unfolding send_downstream
  send_downstream-InOrder ctx net activity i =
      send_buffers-InOrder _ net _ (next_send_buf-InOrder ctx net activity i)
