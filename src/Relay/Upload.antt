-- ===== src/Relay/Upload.antt =====
-- `recv_downstream` and `send_upstream` of src/relay.c: the client's body on its way upstream.
pub mod Kept
pub mod Flow
pub mod Datagram
mod Tests
use ngx_http_tunnel_module.Common.{
  ℕ, ◌+◌, ◌-◌, ◌%◌, ◌^◌, Bool, true, false, not, ◌&&◌, ◌||◌, Option, none, some, List, [], ◌∷◌,
  ◌++◌, length, is_nil, ◌==◌, if◌then◌else◌,
}
use ngx_http_tunnel_module.Rc.{Rc, ok, again, done, is_ok, is_special_response, bad_request}
use ngx_http_tunnel_module.Buffers.{ChainBuf, Chain, Pool, free_consumed_chain}
use ngx_http_tunnel_module.Context.{TunnelCtx, Filter, padding_filter, capsule_filter, Outcome}
use ngx_http_tunnel_module.Capsule.Downstream.{capsule_downstream_filter}
use ngx_http_tunnel_module.Padding.Downstream.{padding_downstream_filter}
use ngx_http_tunnel_module.Relay.{Event, Net, Nginx, Step}

abbrev pub is_null : {A : Type 0} → Option A → Bool
is_null none = true
is_null (some x) = false

-- `ctx->downstream_filter(ctx, activity)`
call_downstream_filter : Filter → Pool → TunnelCtx → Bool → Outcome
call_downstream_filter padding_filter pool = padding_downstream_filter
call_downstream_filter capsule_filter pool = capsule_downstream_filter pool

-- `(size_t)` subtraction
abbrev pub size_sub : ℕ → ℕ → ℕ
size_sub a b = (a + 2 ^ 64 - b) % 2 ^ 64

-- The zero-length buffer that `pc->send_chain` sends as an empty datagram.
abbrev pub empty_buf : ChainBuf
empty_buf = record { bytes = []; flush = true; last_buf = false; last_in_chain = false }

module _ {W : Type 0} (nginx : Nginx W) where
  abbrev write_failed : TunnelCtx → Net W → Bool → Step W
  write_failed ctx net activity = record {
    rc = done;
    ctx = ctx;
    net = record net { pc_write = record net.pc_write { error = true } };
    activity = activity;
  }

  empty_datagram_sent : TunnelCtx → Bool → Net W × Option Chain → Step W
  empty_datagram_sent ctx activity (net, none) = write_failed ctx net activity
  empty_datagram_sent ctx activity (net, some []) = record {
    rc = ok;
    ctx = record ctx { downstream_empty_datagram = false };
    net = net;
    activity = true;
  }
  empty_datagram_sent ctx activity (net, some (b ∷ out)) = record {
    rc = ok;
    ctx = ctx;
    net = net;
    activity = activity;
  }

  -- `if (ctx->downstream_empty_datagram)`
  send_empty_datagram : TunnelCtx → Net W → Bool → Step W
  send_empty_datagram ctx net activity =
      if not net.pc_write.ready
      then record { rc = ok; ctx = ctx; net = net; activity = activity }
      else empty_datagram_sent ctx activity (nginx.send_chain net (empty_buf ∷ []) 0)

  -- Behind `pc->send_chain`. `pc->sent` only grows, and `out` points into the chain that was sent.
  sent_upstream : TunnelCtx → ℕ → Bool → Net W × Option Chain → Step W
  sent_upstream ctx before_sent activity (net, none) = write_failed ctx net activity
  sent_upstream ctx before_sent activity (net, some out) =
      let sent = net.pc_sent - before_sent in
      let due = not (ctx.flush_size == 0) && not (sent == 0) in
      let moved = not (sent == 0) || not (length out == length ctx.downstream_in) in
      record {
        rc = ok;
        ctx = record ctx {
          flush_size = if due then size_sub ctx.flush_size sent else ctx.flush_size;
          downstream_in = out;
        };
        net = net;
        activity = if moved then true else activity;
      }

  send_body : TunnelCtx → Net W → Bool → Step W
  send_body ctx net activity =
      if is_nil ctx.downstream_in && not (ctx.flush_size == 0) && ctx.downstream_eof
      then record { rc = bad_request; ctx = ctx; net = net; activity = activity }
      else if is_nil ctx.downstream_in || not net.pc_write.ready
      then record { rc = ok; ctx = ctx; net = net; activity = activity }
      else sent_upstream ctx net.pc_sent activity
          (nginx.send_chain net ctx.downstream_in ctx.flush_size)

  -- Behind the filter.
  send_filtered : TunnelCtx → Net W → Bool → Step W
  send_filtered ctx net activity =
      if ctx.downstream_empty_datagram
      then send_empty_datagram ctx net activity
      else send_body ctx net activity

  -- What the filter's return code means to the caller.
  downstream_filtered : Net W → Rc → TunnelCtx → Bool → Step W
  downstream_filtered net again ctx activity = record {
    rc = ok;
    ctx = ctx;
    net = net;
    activity = activity;
  }
  downstream_filtered net ok ctx activity =
      if not (is_null ctx.downstream_filter)
        && ctx.flush_size == 0
        && not ctx.downstream_empty_datagram
      then record { rc = ok; ctx = ctx; net = net; activity = activity }
      else send_filtered ctx net activity
  downstream_filtered net rc ctx activity = record {
    rc = rc;
    ctx = ctx;
    net = net;
    activity = activity;
  }

  -- The filter is called unless what it published before is still to be sent.
  filter_upload : Option Filter → TunnelCtx → Net W → Bool → Step W
  filter_upload none ctx net activity = send_filtered ctx net activity
  filter_upload (some f) ctx net activity =
      let o = call_downstream_filter f (nginx.pool net.world) ctx activity in
      if not ctx.downstream_empty_datagram && ctx.flush_size == 0
      then downstream_filtered net o.rc o.ctx o.activity
      else send_filtered ctx net activity

  pub send_upstream : TunnelCtx → Net W → Bool → Step W
  send_upstream ctx net activity =
      let trimmed = record ctx { downstream_in = free_consumed_chain ctx.downstream_in 0 } in
      filter_upload ctx.downstream_filter
        (if not (ctx.flush_size == 0) && is_null ctx.downstream_filter
          then record trimmed { flush_size = 0 }
          else trimmed)
        net activity

  -- The body's buffers move behind `downstream_in`; without any, `at_end` tells that there will be
  -- no more.
  take_bufs : Bool → TunnelCtx → Net W → Bool → Step W
  take_bufs at_end ctx net activity =
      if not (is_nil net.bufs)
      then record {
        rc = ok;
        ctx = record ctx { downstream_in = ctx.downstream_in ++ net.bufs };
        net = record net { bufs = [] };
        activity = true;
      }
      else if at_end
      then record {
        rc = ok;
        ctx = record ctx { downstream_eof = true };
        net = net;
        activity = activity;
      }
      else record { rc = ok; ctx = ctx; net = net; activity = activity }

  read_body : TunnelCtx → Bool → Rc × Net W → Step W
  read_body ctx activity (rc, net) =
      if is_special_response rc
      then record { rc = rc; ctx = ctx; net = net; activity = activity }
      else take_bufs (is_ok rc && not net.reading_body) ctx net activity

  unfoldable pub recv_downstream : TunnelCtx → Net W → Bool → Step W
  unfolding take_bufs read_body
  recv_downstream ctx net activity =
      if ctx.downstream_eof || (not (is_nil ctx.downstream_in) && is_null ctx.downstream_filter)
      then record { rc = ok; ctx = ctx; net = net; activity = activity }
      else if not net.reading_body
      then take_bufs true ctx net activity
      else read_body ctx activity (nginx.read_request_body net)
