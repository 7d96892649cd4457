-- ===== src/Relay/Process/Kept.antt =====
-- A call of `process_relay` (src/relay.c) leaves it to `tunnel_relay_finalize` to finalize the
-- tunnel.
use ngx_http_tunnel_module.Common.{
  Bool, true, false, not, ◌&&◌, ◌||◌, Option, is_nil, ◌≡◌, refl, ap, ◌∙◌, if_cases,
}
use mathlib.Core.Path.{subst}
use ngx_http_tunnel_module.Rc.{is_ok}
use ngx_http_tunnel_module.Buffers.{Buf}
use ngx_http_tunnel_module.Context.{TunnelCtx, Filter}
use ngx_http_tunnel_module.Context.Kept.{ending_flags, download_side}
use ngx_http_tunnel_module.Relay.{
  Net, Nginx, Step, ShutdownResult, shut, not_connected, refused, downstream_output_idle,
}
use ngx_http_tunnel_module.Relay.Upload.{send_upstream, recv_downstream}
use ngx_http_tunnel_module.Relay.Upload.Kept.{send_upstream-StepKeeps, recv_downstream-StepKeeps}
use ngx_http_tunnel_module.Relay.Download.{send_downstream}
use ngx_http_tunnel_module.Relay.Download.Kept.{send_downstream-StepKeeps, recv_upstream-StepKeeps}
use ngx_http_tunnel_module.Relay.Process.{
  upload_drained, Ending, write_shut, close_upstream_write, receive, sent_then_receive,
  closed_ending, relay_round, relay_settled, RelayLoop, exits, fails, continues, settles,
  ProcessRelay, no_peer, timed_out, loops,
}

module _ {W : Type 0} (nginx : Nginx W) (flags : Bool × Bool) where
  abbrev pub StepKeeps : Step W → Type 0
  StepKeeps s = ending_flags s.ctx ≡ flags

  abbrev pub KeepsFlags : TunnelCtx × Net W × Ending → Type 0
  KeepsFlags (ctx, net, ending) = ending_flags ctx ≡ flags

  flags_of_side :
      (ctx ctx' : TunnelCtx)
      → download_side ctx' ≡ download_side ctx
      → ending_flags ctx ≡ flags
      → ending_flags ctx' ≡ flags
  flags_of_side ctx ctx' same h =
      let second : Option Filter × Buf × Buf × Buf × Bool × Bool → Bool × Bool = λ s. (s.4, s.5) in
      ap second same ∙ h

  receive-StepKeeps :
      (from_upstream : Bool) (ctx : TunnelCtx) (net : Net W) (activity : Bool)
      → ending_flags ctx ≡ flags
      → StepKeeps (receive nginx from_upstream ctx net activity)
  unfolding receive
  receive-StepKeeps true ctx net activity h = recv_upstream-StepKeeps nginx flags ctx net activity h
  receive-StepKeeps false ctx net activity h =
      flags_of_side ctx (recv_downstream nginx ctx net activity).ctx
        (recv_downstream-StepKeeps nginx (download_side ctx) ctx net activity refl) h

  sent_then_receive-StepKeeps :
      (from_upstream : Bool) (s : Step W)
      → StepKeeps s
      → StepKeeps (sent_then_receive nginx from_upstream s)
  unfolding sent_then_receive
  sent_then_receive-StepKeeps from_upstream s h =
      if_cases StepKeeps (is_ok s.rc) _ _
        (λ _. receive-StepKeeps from_upstream s.ctx s.net s.activity h) (λ _. h)

  relay_round-StepKeeps :
      (from_upstream do_write : Bool) (ctx : TunnelCtx) (net : Net W)
      → ending_flags ctx ≡ flags
      → StepKeeps (relay_round nginx from_upstream do_write ctx net)
  unfolding relay_round
  relay_round-StepKeeps from_upstream false ctx net h =
      receive-StepKeeps from_upstream ctx net false h
  relay_round-StepKeeps true true ctx net h =
      sent_then_receive-StepKeeps true (send_downstream nginx ctx net false)
        (send_downstream-StepKeeps nginx flags ctx net false h)
  relay_round-StepKeeps false true ctx net h =
      sent_then_receive-StepKeeps false (send_upstream nginx ctx net false) (
        flags_of_side ctx (send_upstream nginx ctx net false).ctx
          (send_upstream-StepKeeps nginx (download_side ctx) ctx net false refl) h)

  write_shut-StepKeeps :
      (ctx : TunnelCtx) (net : Net W) (r : ShutdownResult × W)
      → ending_flags ctx ≡ flags
      → StepKeeps (write_shut nginx ctx net r)
  unfolding write_shut
  write_shut-StepKeeps ctx net (shut, w) h = h
  write_shut-StepKeeps ctx net (not_connected, w) h = h
  write_shut-StepKeeps ctx net (refused, w) h = h

  close_upstream_write-StepKeeps :
      (ctx : TunnelCtx) (net : Net W)
      → ending_flags ctx ≡ flags
      → StepKeeps (close_upstream_write nginx ctx net)
  unfolding close_upstream_write
  close_upstream_write-StepKeeps ctx net h =
      if_cases StepKeeps
        (not ctx.downstream_eof || not (upload_drained ctx) || ctx.upstream_write_closed) _ _
        (λ _. h)
        (λ _.
          if_cases StepKeeps (not net.pc || net.pc_write.error) _ _ (λ _. h)
            (λ _. write_shut-StepKeeps ctx net (nginx.shutdown net.world) h))

  closed_ending-KeepsFlags :
      (activity : Bool) (s : Step W) → StepKeeps s → KeepsFlags (closed_ending nginx activity s)
  unfolding closed_ending
  closed_ending-KeepsFlags activity s h =
      if_cases KeepsFlags (not (is_ok s.rc)) _ _ (λ _. h)
        (λ _. if_cases KeepsFlags (not (nginx.handle_events s.net)) _ _ (λ _. h) (λ _. h))

  relay_settled-KeepsFlags :
      (activity : Bool) (ctx : TunnelCtx) (net : Net W)
      → ending_flags ctx ≡ flags
      → KeepsFlags (relay_settled nginx activity ctx net)
  unfolding relay_settled
  relay_settled-KeepsFlags activity ctx net h =
      if_cases KeepsFlags
        (net.datagram
          && (net.c_read.eof || net.c_write.error || net.pc_read.error || net.pc_write.error))
        _ _ (λ _. h)
        (λ _.
          if_cases KeepsFlags
            (not net.datagram
              && net.pc_read.eof
              && upload_drained ctx
              && is_nil ctx.send_buf.content
              && is_nil ctx.recv_buf.content
              && downstream_output_idle net)
            _ _ (λ _. h)
            (λ _. closed_ending-KeepsFlags activity _ (
              if_cases StepKeeps net.datagram _ _ (λ _. h)
                (λ _. close_upstream_write-StepKeeps ctx net h))))

  RelayLoop-KeepsFlags :
      (from_upstream do_write activity : Bool) (ctx : TunnelCtx) (net : Net W)
      (r : TunnelCtx × Net W × Ending)
      → RelayLoop nginx from_upstream do_write activity ctx net r
      → ending_flags ctx ≡ flags
      → KeepsFlags r
  RelayLoop-KeepsFlags from_upstream do_write activity ctx net r (exits e) h = h
  RelayLoop-KeepsFlags from_upstream do_write activity ctx net r (fails e q f) h =
      subst StepKeeps q (relay_round-StepKeeps from_upstream do_write ctx net h)
  RelayLoop-KeepsFlags from_upstream do_write activity ctx net r (continues e q f a more) h =
      RelayLoop-KeepsFlags from_upstream true true _ _ r more
        (subst StepKeeps q (relay_round-StepKeeps from_upstream do_write ctx net h))
  RelayLoop-KeepsFlags from_upstream do_write activity ctx net r (settles e q f a) h =
      relay_settled-KeepsFlags activity _ _
        (subst StepKeeps q (relay_round-StepKeeps from_upstream do_write ctx net h))

  pub process_relay-KeepsFlags :
      (from_upstream do_write : Bool) (ctx : TunnelCtx) (net : Net W)
      (r : TunnelCtx × Net W × Ending)
      → ProcessRelay nginx from_upstream do_write ctx net r
      → ending_flags ctx ≡ flags
      → KeepsFlags r
  process_relay-KeepsFlags from_upstream do_write ctx net r (no_peer p) h = h
  process_relay-KeepsFlags from_upstream do_write ctx net r (timed_out p t) h = h
  process_relay-KeepsFlags from_upstream do_write ctx net r (loops p t l) h =
      RelayLoop-KeepsFlags from_upstream do_write false ctx net r l h
