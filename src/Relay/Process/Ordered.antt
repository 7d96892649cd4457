-- ===== src/Relay/Process/Ordered.antt =====
-- The order of upstream's bytes over a whole call of `process_relay` (src/relay.c).
use ngx_http_tunnel_module.Common.{
  ℕ, ◌≡◌, sym, ap, ◌∙◌, ◌++◌, List, Bool, true, false, not, ◌&&◌, ◌||◌, is_nil, if◌then◌else◌,
  Bool-cases, inl, inr,
}
use mathlib.Core.Path.{subst}
use ngx_http_tunnel_module.Rc.{ok, is_ok}
use ngx_http_tunnel_module.Context.{TunnelCtx}
use ngx_http_tunnel_module.Relay.{
  Net, Nginx, Step, ShutdownResult, shut, not_connected, refused, downstream_output_idle,
}
use ngx_http_tunnel_module.Relay.Download.{send_downstream}
use ngx_http_tunnel_module.Relay.Download.Order.{IsPipe, InOrder, recv_upstream-InOrder}
use ngx_http_tunnel_module.Relay.Download.Order.Sending.{send_downstream-InOrder}
use ngx_http_tunnel_module.Relay.Process.{
  upload_drained, Ending, write_shut, close_upstream_write, receive, sent_then_receive,
  closed_ending, relay_round, relay_settled, RelayLoop, exits, fails, continues, settles,
  ProcessRelay, no_peer, timed_out, loops,
}

module _ {W : Type 0} (nginx : Nginx W) (given taken : W → List ℕ)
    (pipe : IsPipe nginx given taken) where
  relay_round-InOrder :
      (do_write : Bool) (ctx : TunnelCtx) (net : Net W)
      → InOrder given taken ctx net
      → let s = relay_round nginx true do_write ctx net in InOrder given taken s.ctx s.net
  unfolding relay_round receive sent_then_receive
  relay_round-InOrder false ctx net i = recv_upstream-InOrder nginx given taken pipe ctx net false i
  relay_round-InOrder true ctx net i =
      let s = send_downstream nginx ctx net false in
      let j = send_downstream-InOrder nginx given taken pipe ctx net false i in
      elim (Bool-cases (is_ok s.rc)) [
        | inl e ↦ rw e (recv_upstream-InOrder nginx given taken pipe s.ctx s.net s.activity j)
        | inr e ↦ rw e j
      ]

  abbrev KeepsOrder : TunnelCtx × Net W × Ending → Type 0
  KeepsOrder (ctx, net, ending) = InOrder given taken ctx net

  same_world-order :
      (ctx : TunnelCtx) (net : Net W) (w : W)
      → InOrder given taken ctx net
      → given w ≡ given net.world
      → taken w ≡ taken net.world
      → given w ≡ taken w ++ (ctx.send_buf.content ++ ctx.recv_buf.content)
  same_world-order ctx net w i g t =
      g ∙ i.order ∙ ap (λ z. z ++ (ctx.send_buf.content ++ ctx.recv_buf.content)) (sym t)

  write_shut-InOrder :
      (ctx : TunnelCtx) (net : Net W)
      → InOrder given taken ctx net
      → (r : ShutdownResult × W) → given r.1 ≡ given net.world
      → taken r.1 ≡ taken net.world
      → let s = write_shut nginx ctx net r in InOrder given taken s.ctx s.net
  unfolding write_shut
  write_shut-InOrder ctx net i (shut, w) g t = record {
    plain = i.plain;
    no_header = i.no_header;
    order = same_world-order ctx net w i g t;
  }
  write_shut-InOrder ctx net i (not_connected, w) g t = record {
    plain = i.plain;
    no_header = i.no_header;
    order = same_world-order ctx net w i g t;
  }
  write_shut-InOrder ctx net i (refused, w) g t = record {
    plain = i.plain;
    no_header = i.no_header;
    order = same_world-order ctx net w i g t;
  }

  close_upstream_write-InOrder :
      (ctx : TunnelCtx) (net : Net W)
      → InOrder given taken ctx net
      → let s = close_upstream_write nginx ctx net in InOrder given taken s.ctx s.net
  unfolding close_upstream_write
  close_upstream_write-InOrder ctx net i =
      elim (Bool-cases
        (not ctx.downstream_eof || not (upload_drained ctx) || ctx.upstream_write_closed)) [
          | inl e ↦ rw e i
          | inr e ↦ elim (Bool-cases (not net.pc || net.pc_write.error)) [
            | inl e' ↦ rw (e, e') i
            | inr e' ↦
                rw (e, e')
                  (write_shut-InOrder ctx net i (nginx.shutdown net.world)
                    (pipe.shutdown_given net.world) (pipe.shutdown_taken net.world))
          ]
        ]

  closed_ending-KeepsOrder :
      (activity : Bool) (s : Step W)
      → InOrder given taken s.ctx s.net
      → KeepsOrder (closed_ending nginx activity s)
  unfolding closed_ending
  closed_ending-KeepsOrder activity s i = elim (Bool-cases (is_ok s.rc)) [
    | inr failed ↦ rw failed i
    | inl fine ↦ elim (Bool-cases (nginx.handle_events s.net)) [
      | inl set ↦ rw (fine, set) i
      | inr unset ↦ rw (fine, unset) i
    ]
  ]

  settled_after-KeepsOrder :
      (datagram : Bool) (activity : Bool) (ctx : TunnelCtx) (net : Net W)
      → InOrder given taken ctx net
      → KeepsOrder (
          closed_ending nginx activity (
            if datagram
            then record { rc = ok; ctx = ctx; net = net; activity = false }
            else close_upstream_write nginx ctx net))
  settled_after-KeepsOrder true activity ctx net i = closed_ending-KeepsOrder activity _ i
  settled_after-KeepsOrder false activity ctx net i =
      closed_ending-KeepsOrder activity _ (close_upstream_write-InOrder ctx net i)

  relay_settled-KeepsOrder :
      (activity : Bool) (ctx : TunnelCtx) (net : Net W)
      → InOrder given taken ctx net
      → KeepsOrder (relay_settled nginx activity ctx net)
  unfolding relay_settled
  relay_settled-KeepsOrder activity ctx net i =
      elim (Bool-cases (
        net.datagram
        && (net.c_read.eof || net.c_write.error || net.pc_read.error || net.pc_write.error))) [
          | inl e ↦ rw e i
          | inr e ↦
              elim (Bool-cases (
                not net.datagram
                && net.pc_read.eof
                && upload_drained ctx
                && is_nil ctx.send_buf.content
                && is_nil ctx.recv_buf.content
                && downstream_output_idle net)) [
                  | inl e' ↦ rw (e, e') i
                  | inr e' ↦ rw (e, e') (settled_after-KeepsOrder net.datagram activity ctx net i)
                ]
        ]

  RelayLoop-KeepsOrder :
      (do_write activity : Bool) (ctx : TunnelCtx) (net : Net W) (r : TunnelCtx × Net W × Ending)
      → RelayLoop nginx true do_write activity ctx net r
      → InOrder given taken ctx net
      → KeepsOrder r
  RelayLoop-KeepsOrder do_write activity ctx net r (exits e) i = i
  RelayLoop-KeepsOrder do_write activity ctx net r (fails e q f) i =
      subst (λ (s : Step W). InOrder given taken s.ctx s.net) q
        (relay_round-InOrder do_write ctx net i)
  RelayLoop-KeepsOrder do_write activity ctx net r (continues e q f a more) i =
      RelayLoop-KeepsOrder true true _ _ r more (
        subst (λ (s : Step W). InOrder given taken s.ctx s.net) q
          (relay_round-InOrder do_write ctx net i))
  RelayLoop-KeepsOrder do_write activity ctx net r (settles e q f a) i =
      relay_settled-KeepsOrder activity _ _ (
        subst (λ (s : Step W). InOrder given taken s.ctx s.net) q
          (relay_round-InOrder do_write ctx net i))

  -- A whole call of the relay's loop for this direction, with any number of rounds and however
  -- upstream and the client stall, loses, doubles and reorders no byte: with no filter installed,
  -- what upstream has sent is in the end again what nginx has taken for the client, then the send
  -- buffer, then the receive buffer.
  pub process_relay-InOrder :
      (do_write : Bool) (ctx : TunnelCtx) (net : Net W) (r : TunnelCtx × Net W × Ending)
      → ProcessRelay nginx true do_write ctx net r
      → InOrder given taken ctx net
      → InOrder given taken r.0 r.1
  process_relay-InOrder do_write ctx net r (no_peer p) i = i
  process_relay-InOrder do_write ctx net r (timed_out p t) i = i
  process_relay-InOrder do_write ctx net r (loops p t l) i =
      RelayLoop-KeepsOrder do_write false ctx net r l i
