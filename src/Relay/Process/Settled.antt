-- ===== src/Relay/Process/Settled.antt =====
-- What holds when `process_relay` (src/relay.c) waits for the next event.
use ngx_http_tunnel_module.Common.{
  ◌≡◌, sym, inl, inr, Bool, true, false, not, ◌&&◌, ◌||◌, is_nil, if◌then◌else◌, arith, Bool-cases,
}
use mathlib.Core.Path.{subst}
use ngx_http_tunnel_module.Rc.{Rc, ok, error, again, busy, done, declined, abort, status, is_ok}
use ngx_http_tunnel_module.Context.{TunnelCtx}
use ngx_http_tunnel_module.Relay.{
  Net, Nginx, Step, ShutdownResult, shut, not_connected, refused, downstream_output_idle,
}
use ngx_http_tunnel_module.Relay.Process.{
  upload_drained, Ending, finalized, waiting, failed_ending, write_shut, close_upstream_write,
  closed_ending, relay_settled, RelayLoop, exits, fails, continues, settles, ProcessRelay, no_peer,
  timed_out, loops,
}

-- The client has finished, and everything it sent has gone upstream.
abbrev pub upload_finished : TunnelCtx → Bool
upload_finished ctx = ctx.downstream_eof && upload_drained ctx

-- Upstream has finished, and nothing is left in either direction.
abbrev pub all_done : {W : Type 0} → TunnelCtx → Net W → Bool
all_done ctx net =
    net.pc_read.eof
    && upload_drained ctx
    && is_nil ctx.send_buf.content
    && is_nil ctx.recv_buf.content
    && downstream_output_idle net

-- On a stream: the tunnel is not done, and where the upload is finished, the write side of
-- a connection without an error is shut.
abbrev pub StreamWaits : {W : Type 0} → TunnelCtx → Net W → Type 0
StreamWaits ctx net =
    (all_done ctx net ≡ false)
    × ((not (upload_finished ctx) || ctx.upstream_write_closed || not net.pc || net.pc_write.error)
        ≡ true)

-- On datagrams: neither connection has failed, and the client's side is open.
abbrev pub DatagramWaits : {W : Type 0} → Net W → Type 0
DatagramWaits net =
    (net.c_read.eof || net.c_write.error || net.pc_read.error || net.pc_write.error) ≡ false

abbrev pub Settled : {W : Type 0} → TunnelCtx × Net W × Ending → Type 0
Settled (ctx, net, finalized rc) = Unit {0}
Settled (ctx, net, waiting timers) = if net.datagram then DatagramWaits net else StreamWaits ctx net

module _ {W : Type 0} (nginx : Nginx W) where
  failed_ending-Settled :
      (ctx : TunnelCtx) (net : Net W) (rc : Rc) → Settled (ctx, net, failed_ending rc)
  failed_ending-Settled ctx net ok = tt
  failed_ending-Settled ctx net error = tt
  failed_ending-Settled ctx net again = tt
  failed_ending-Settled ctx net busy = tt
  failed_ending-Settled ctx net done = tt
  failed_ending-Settled ctx net declined = tt
  failed_ending-Settled ctx net abort = tt
  failed_ending-Settled ctx net (status n) = tt

  closed_ending-Settled :
      (activity : Bool) (s : Step W)
      → (is_ok s.rc ≡ true → Settled (s.ctx, s.net, waiting activity))
      → Settled (closed_ending nginx activity s)
  unfolding closed_ending
  closed_ending-Settled activity s h = elim (Bool-cases (is_ok s.rc)) [
    | inr failed ↦ rw failed (failed_ending-Settled s.ctx s.net s.rc)
    | inl fine ↦ elim (Bool-cases (nginx.handle_events s.net)) [
      | inl set ↦ rw (fine, set) (h fine)
      | inr unset ↦ rw (fine, unset) tt
    ]
  ]

  write_shut-Settled :
      (ctx : TunnelCtx) (net : Net W) (activity : Bool)
      → net.datagram ≡ false
      → all_done ctx net ≡ false
      → (r : ShutdownResult × W) → is_ok (write_shut nginx ctx net r).rc ≡ true
      → let s = write_shut nginx ctx net r in Settled (s.ctx, s.net, waiting activity)
  unfolding write_shut
  write_shut-Settled ctx net activity d more (shut, w) h = rw d (more, ground arith)
  write_shut-Settled ctx net activity d more (not_connected, w) h = rw d (more, ground arith)
  write_shut-Settled ctx net activity d more (refused, w) h = cc

  close_upstream_write-Settled :
      (ctx : TunnelCtx) (net : Net W) (activity : Bool)
      → net.datagram ≡ false
      → all_done ctx net ≡ false
      → is_ok (close_upstream_write nginx ctx net).rc ≡ true
      → let s = close_upstream_write nginx ctx net in Settled (s.ctx, s.net, waiting activity)
  unfolding close_upstream_write
  close_upstream_write-Settled ctx net activity d more =
      elim (Bool-cases
        (not ctx.downstream_eof || not (upload_drained ctx) || ctx.upstream_write_closed)) [
          | inl e ↦ rw (e, d) (λ h. (more, ground (arith, e)))
          | inr e ↦ elim (Bool-cases (not net.pc || net.pc_write.error)) [
            | inl e' ↦ rw (e, e', d) (λ h. (more, ground (arith, e')))
            | inr e' ↦
                rw (e, e') (write_shut-Settled ctx net activity d more (nginx.shutdown net.world))
          ]
        ]

  relay_settled-Settled :
      (activity : Bool) (ctx : TunnelCtx) (net : Net W)
      → Settled (relay_settled nginx activity ctx net)
  unfolding relay_settled
  relay_settled-Settled activity ctx net = elim (Bool-cases net.datagram) [
    | inl d ↦
        elim (Bool-cases
          (net.c_read.eof || net.c_write.error || net.pc_read.error || net.pc_write.error)) [
            | inl e ↦ simp (d, e) tt
            | inr e ↦
                simp (d, e)
                  (closed_ending-Settled activity
                    (record { rc = ok; ctx = ctx; net = net; activity = false }) (λ h. simp d e))
          ]
    | inr d ↦ elim (Bool-cases (all_done ctx net)) [
      | inl e ↦
          let eq : relay_settled nginx activity ctx net ≡ (ctx, net, finalized ok) =
            simp (d, e, relay_settled) in
          subst Settled (sym eq) tt
      | inr e ↦
          let eq : relay_settled nginx activity ctx net
              ≡ closed_ending nginx activity (close_upstream_write nginx ctx net) =
            simp (d, e, relay_settled) in
          subst Settled (sym eq) (
            closed_ending-Settled activity (close_upstream_write nginx ctx net)
              (close_upstream_write-Settled ctx net activity d e))
    ]
  ]

  RelayLoop-Settled :
      (from_upstream do_write activity : Bool) (ctx : TunnelCtx) (net : Net W)
      (r : TunnelCtx × Net W × Ending)
      → RelayLoop nginx from_upstream do_write activity ctx net r
      → Settled r
  RelayLoop-Settled from_upstream do_write activity ctx net r (exits e) = tt
  RelayLoop-Settled from_upstream do_write activity ctx net r (fails {s = s} e q f) =
      failed_ending-Settled s.ctx s.net s.rc
  RelayLoop-Settled from_upstream do_write activity ctx net r (continues e q f a more) =
      RelayLoop-Settled from_upstream true true _ _ r more
  RelayLoop-Settled from_upstream do_write activity ctx net r (settles {s = s} e q f a) =
      relay_settled-Settled activity s.ctx s.net

  -- However a call of the relay's loop ends, it either finalizes the tunnel or waits in a state in
  -- which nothing is overdue. On datagrams both connections are sound. On a stream the tunnel is
  -- not done, and if the client has finished and all it sent has gone upstream, then the write side
  -- of the upstream connection is shut, unless that connection is gone or has failed.
  pub process_relay-Settled :
      (from_upstream do_write : Bool) (ctx : TunnelCtx) (net : Net W)
      (r : TunnelCtx × Net W × Ending)
      → ProcessRelay nginx from_upstream do_write ctx net r
      → Settled r
  process_relay-Settled from_upstream do_write ctx net r (no_peer p) = tt
  process_relay-Settled from_upstream do_write ctx net r (timed_out p t) = tt
  process_relay-Settled from_upstream do_write ctx net r (loops p t l) =
      RelayLoop-Settled from_upstream do_write false ctx net r l
