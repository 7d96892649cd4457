-- ===== src/Relay/Process.antt =====
-- `close_upstream_write` and `process_relay` of src/relay.c: the loop over one direction, and what is
-- decided when it has nothing left to do.
pub mod Kept
pub mod Settled
pub mod Ordered
use ngx_http_tunnel_module.Common.{
  ℕ, ◌≡◌, Bool, true, false, not, ◌&&◌, ◌||◌, is_nil, ◌==◌, if◌then◌else◌,
}
use ngx_http_tunnel_module.Rc.{Rc, ok, done, is_ok, internal_server_error}
use ngx_http_tunnel_module.Context.{TunnelCtx}
use ngx_http_tunnel_module.Relay.{
  Event, Net, Nginx, Step, ShutdownResult, shut, not_connected, refused, downstream_output_idle,
}
use ngx_http_tunnel_module.Relay.Upload.{send_upstream, recv_downstream}
use ngx_http_tunnel_module.Relay.Download.{send_downstream, recv_upstream}

-- The macro `tunnel_upload_drained(ctx)`
abbrev pub upload_drained : TunnelCtx → Bool
upload_drained ctx =
    is_nil ctx.downstream_in && ctx.flush_size == 0 && not ctx.downstream_empty_datagram

-- How a call of `process_relay` ends: `tunnel_relay_finalize` is called with a return code, or the
-- relay waits for the next event, after the four idle timers were set anew or not.
pub data Ending : Type 0 where
  finalized : Rc → Ending
  waiting : Bool → Ending

-- `failed:`
abbrev pub failed_ending : Rc → Ending
failed_ending done = finalized ok
failed_ending rc = finalized rc

module _ {W : Type 0} (nginx : Nginx W) where
  write_shut : TunnelCtx → Net W → ShutdownResult × W → Step W
  write_shut ctx net (refused, w) = record {
    rc = internal_server_error;
    ctx = ctx;
    net = record net { world = w };
    activity = false;
  }
  write_shut ctx net (_, w) = record {
    rc = ok;
    ctx = record ctx { upstream_write_closed = true };
    net = record net { world = w; pc_write = record net.pc_write { ready = false } };
    activity = false;
  }

  unfoldable pub close_upstream_write : TunnelCtx → Net W → Step W
  unfolding write_shut
  close_upstream_write ctx net =
      if not ctx.downstream_eof || not (upload_drained ctx) || ctx.upstream_write_closed
      then record { rc = ok; ctx = ctx; net = net; activity = false }
      else if not net.pc || net.pc_write.error
      then record { rc = ok; ctx = ctx; net = net; activity = false }
      else write_shut ctx net (nginx.shutdown net.world)

  -- One round of `for (;;)` behind the check of `ngx_exiting`: its return code is that of the call
  -- that failed, and its activity is `loop_activity`.
  unfoldable pub receive : Bool → TunnelCtx → Net W → Bool → Step W
  receive from_upstream ctx net activity =
      if from_upstream
      then recv_upstream nginx ctx net activity
      else recv_downstream nginx ctx net activity

  unfoldable pub sent_then_receive : Bool → Step W → Step W
  sent_then_receive from_upstream s =
      if is_ok s.rc then receive from_upstream s.ctx s.net s.activity else s

  unfoldable pub relay_round : Bool → Bool → TunnelCtx → Net W → Step W
  relay_round from_upstream do_write ctx net =
      if do_write
      then sent_then_receive from_upstream (
          if from_upstream
          then send_downstream nginx ctx net false
          else send_upstream nginx ctx net false)
      else receive from_upstream ctx net false

  -- Behind the loop, with the half close done.
  unfoldable pub closed_ending : Bool → Step W → TunnelCtx × Net W × Ending
  closed_ending activity s =
      if not (is_ok s.rc)
      then (s.ctx, s.net, failed_ending s.rc)
      else if not (nginx.handle_events s.net)
      then (s.ctx, s.net, finalized internal_server_error)
      else (s.ctx, s.net, waiting activity)

  -- Behind the loop.
  unfoldable pub relay_settled : Bool → TunnelCtx → Net W → TunnelCtx × Net W × Ending
  relay_settled activity ctx net =
      if net.datagram
        && (net.c_read.eof || net.c_write.error || net.pc_read.error || net.pc_write.error)
      then (ctx, net, finalized ok)
      else if not net.datagram
          && net.pc_read.eof
          && upload_drained ctx
          && is_nil ctx.send_buf.content
          && is_nil ctx.recv_buf.content
          && downstream_output_idle net
      then (ctx, net, finalized ok)
      else closed_ending activity (
          if net.datagram
          then record { rc = ok; ctx = ctx; net = net; activity = false }
          else close_upstream_write ctx net)

  -- The loop as a relation, since it goes on for as long as bytes come: from `do_write`, the
  -- `activity` so far and a state, to what the call leaves.
  pub data RelayLoop (from_upstream : Bool)
      : Bool → Bool → TunnelCtx → Net W → TunnelCtx × Net W × Ending → Type 0 where
    exits :
        {do_write activity : Bool} {ctx : TunnelCtx} {net : Net W}
        → nginx.exiting net.world ≡ true
        → RelayLoop from_upstream do_write activity ctx net (ctx, net, finalized ok)
    fails :
        {do_write activity : Bool} {ctx : TunnelCtx} {net : Net W} {s : Step W}
        → nginx.exiting net.world ≡ false
        → relay_round from_upstream do_write ctx net ≡ s
        → is_ok s.rc ≡ false
        → RelayLoop from_upstream do_write activity ctx net (s.ctx, s.net, failed_ending s.rc)
    continues :
        {do_write activity : Bool} {ctx : TunnelCtx} {net : Net W} {s : Step W}
        {r : TunnelCtx × Net W × Ending}
        → nginx.exiting net.world ≡ false
        → relay_round from_upstream do_write ctx net ≡ s
        → is_ok s.rc ≡ true
        → s.activity ≡ true
        → RelayLoop from_upstream true true s.ctx s.net r
        → RelayLoop from_upstream do_write activity ctx net r
    settles :
        {do_write activity : Bool} {ctx : TunnelCtx} {net : Net W} {s : Step W}
        → nginx.exiting net.world ≡ false
        → relay_round from_upstream do_write ctx net ≡ s
        → is_ok s.rc ≡ true
        → s.activity ≡ false
        → RelayLoop from_upstream do_write activity ctx net (relay_settled activity s.ctx s.net)

  -- `process_relay`, for a context that is there and not finalized.
  pub data ProcessRelay (from_upstream do_write : Bool) (ctx : TunnelCtx) (net : Net W)
      : TunnelCtx × Net W × Ending → Type 0 where
    no_peer : net.pc ≡ false → ProcessRelay from_upstream do_write ctx net (ctx, net, finalized ok)
    timed_out :
        net.pc ≡ true
        → net.c_read.timedout || net.c_write.timedout || net.pc_read.timedout
            || net.pc_write.timedout
          ≡ true
        → ProcessRelay from_upstream do_write ctx net (ctx, net, finalized ok)
    loops :
        {r : TunnelCtx × Net W × Ending}
        → net.pc ≡ true
        → net.c_read.timedout || net.c_write.timedout || net.pc_read.timedout
            || net.pc_write.timedout
          ≡ false
        → RelayLoop from_upstream do_write false ctx net r
        → ProcessRelay from_upstream do_write ctx net r
