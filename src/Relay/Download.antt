-- ===== src/Relay/Download.antt =====
-- `recv_upstream` and `send_downstream` of src/relay.c: what upstream sends on its way to the client.
pub mod Kept
pub mod Reserve
pub mod Order
pub mod Oversize
mod Tests
use ngx_http_tunnel_module.Common.{
  ℕ, ◌+◌, ◌-◌, Bool, true, false, not, ◌&&◌, ◌||◌, Option, none, some, List, [], ◌∷◌, ◌++◌, length,
  is_nil, min, leb, ltb, ◌==◌, if◌then◌else◌,
}
use ngx_http_tunnel_module.Rc.{Rc, ok, again, error, done, declined}
use ngx_http_tunnel_module.Buffers.{Buf, room}
use ngx_http_tunnel_module.Context.{
  TunnelCtx, Filter, padding_filter, capsule_filter, Outcome, max_padding_payload,
}
use ngx_http_tunnel_module.Capsule.Upstream.{capsule_upstream_filter}
use ngx_http_tunnel_module.Padding.Upstream.{padding_upstream_filter}
use ngx_http_tunnel_module.Relay.{
  Event, Net, Nginx, Step, Received, would_block, failed, received, Output, nothing, data_only,
  header_only, header_and_data, Written, downstream_output_idle,
}

-- `ctx->upstream_filter(ctx, activity)`
pub call_upstream_filter : Filter → ℕ → TunnelCtx → Bool → Outcome
call_upstream_filter padding_filter random = padding_upstream_filter random
call_upstream_filter capsule_filter random = capsule_upstream_filter

-- The size to receive, as far as the reserve for padding allows; 0 for none.
unfoldable pub recv_size : TunnelCtx → ℕ
recv_size ctx =
    let size = room ctx.recv_buf in
    if ctx.buffer_tail_reserve == 0
    then size
    else if leb size ctx.buffer_tail_reserve
    then 0
    else min (size - ctx.buffer_tail_reserve) max_padding_payload

module _ {W : Type 0} (nginx : Nginx W) where
  -- Behind `pc->recv`.
  unfoldable pub upstream_received : TunnelCtx → Bool → Net W × Received → Step W
  upstream_received ctx activity (net, would_block) = record {
    rc = ok;
    ctx = ctx;
    net = net;
    activity = activity;
  }
  upstream_received ctx activity (net, failed) = record {
    rc = done;
    ctx = ctx;
    net = record net { pc_read = record net.pc_read { eof = true; error = true; ready = false } };
    activity = activity;
  }
  upstream_received ctx activity (net, received []) =
      if net.datagram
      then record {
        rc = ok;
        ctx = record ctx { upstream_empty_datagram = true };
        net = net;
        activity = true;
      }
      else record {
        rc = ok;
        ctx = ctx;
        net = record net { pc_read = record net.pc_read { eof = true; ready = false } };
        activity = activity;
      }
  upstream_received ctx activity (net, received (x ∷ xs)) =
      let b = ctx.recv_buf in
      record {
        rc = ok;
        ctx = record ctx { recv_buf = record b { content = b.content ++ (x ∷ xs) } };
        net = net;
        activity = true;
      }

  unfoldable pub recv_upstream : TunnelCtx → Net W → Bool → Step W
  recv_upstream ctx net activity =
      let b = ctx.recv_buf in
      if not net.pc || not net.pc_read.ready || ctx.upstream_empty_datagram || room b == 0
      then record { rc = ok; ctx = ctx; net = net; activity = activity }
      else if net.datagram && not (is_nil b.content)
      then record { rc = ok; ctx = ctx; net = net; activity = activity }
      else if recv_size ctx == 0
      then record { rc = ok; ctx = ctx; net = net; activity = activity }
      else upstream_received ctx activity (nginx.recv net (recv_size ctx))

  -- `b->pos = b->start, b->last = b->start`
  abbrev rewind : Buf → Buf
  rewind b = record b { pos = 0; content = [] }

  -- An empty send buffer is rewound, and changes places with a receive buffer that holds bytes.
  unfoldable pub next_send_buf : TunnelCtx → Net W → Bool → TunnelCtx × Bool
  next_send_buf ctx net activity =
      if is_nil ctx.send_buf.content && downstream_output_idle net
      then if not (is_nil ctx.recv_buf.content)
        then (record ctx { send_buf = ctx.recv_buf; recv_buf = rewind ctx.send_buf }, true)
        else (record ctx { send_buf = rewind ctx.send_buf }, activity)
      else (ctx, activity)

  -- `if (b->pos == b->last && downstream_output_idle(r))`
  unfoldable pub rewind_drained : Net W → Buf → Buf
  rewind_drained net b = if is_nil b.content && downstream_output_idle net then rewind b else b

  -- The return code of `ngx_http_output_filter`. NGX_ERROR returns before the send buffer is looked
  -- at again, with the context `unsent`.
  unfoldable pub output_answer : Rc → TunnelCtx → TunnelCtx → Net W → Bool → Bool → Step W
  output_answer error unsent sent net moved activity = record {
    rc = done;
    ctx = unsent;
    net = net;
    activity = activity;
  }
  output_answer ok unsent sent net moved activity = record {
    rc = ok;
    ctx = sent;
    net = net;
    activity = if moved then true else activity;
  }
  output_answer again unsent sent net moved activity = record {
    rc = ok;
    ctx = sent;
    net = net;
    activity = if moved then true else activity;
  }
  output_answer rc unsent sent net moved activity = record {
    rc = done;
    ctx = sent;
    net = net;
    activity = activity;
  }

  -- Behind `ngx_http_output_filter`: `before` and `before_pos` are from in front of it.
  unfoldable pub after_output : Net W → ℕ → TunnelCtx → Bool → Written W → Step W
  after_output before before_pos ctx activity w =
      let b = rewind_drained w.net w.send_buf in
      let moved =
        not (w.net.c_sent == before.c_sent)
        || not (b.pos == before_pos)
        || not (w.net.out == before.out)
        || (before.r_buffered && not w.net.r_buffered)
        || (before.c_buffered && not w.net.c_buffered) in
      output_answer w.rc (record ctx { header_buf = w.header_buf; send_buf = w.send_buf })
        (record ctx { header_buf = w.header_buf; send_buf = b }) w.net moved activity

  -- `chain == &ctx->downstream_out`
  abbrev has_header : Output → Bool
  has_header header_only = true
  has_header header_and_data = true
  has_header _ = false

  -- Hand the buffers over, with the flush flag on the one that ends a datagram, and take it away.
  unfoldable pub write_out : TunnelCtx → Net W → ℕ → Bool → Output → Step W
  write_out ctx net before_pos activity chain =
      let h = ctx.header_buf in
      let b = ctx.send_buf in
      let empty = ctx.upstream_empty_datagram in
      let w =
        nginx.output_filter chain net (record h { flush = if empty then true else h.flush })
          (record b { flush = if empty then b.flush else true }) in
      after_output net before_pos (record ctx { upstream_empty_datagram = false }) activity
        (record w {
          header_buf = record w.header_buf {
            flush = if has_header chain then false else w.header_buf.flush;
          };
          send_buf = record w.send_buf { flush = false };
        })

  -- What the filter's return code means to the caller.
  pub upstream_filtered : Net W → ℕ → Rc → TunnelCtx → Bool → Step W
  upstream_filtered net before_pos again ctx activity = record {
    rc = ok;
    ctx = ctx;
    net = net;
    activity = activity;
  }
  upstream_filtered net before_pos done ctx activity = record {
    rc = ok;
    ctx = ctx;
    net = net;
    activity = activity;
  }
  upstream_filtered net before_pos ok ctx activity =
      write_out ctx net before_pos activity
        (if ctx.upstream_empty_datagram then header_only else header_and_data)
  upstream_filtered net before_pos declined ctx activity =
      write_out ctx net before_pos activity data_only
  upstream_filtered net before_pos rc ctx activity = record {
    rc = rc;
    ctx = ctx;
    net = net;
    activity = activity;
  }

  unfoldable pub filter_download : Option Filter → TunnelCtx → Net W → Bool → Step W
  filter_download none ctx net activity = write_out ctx net ctx.send_buf.pos activity data_only
  filter_download (some f) ctx net activity =
      let o = call_upstream_filter f (nginx.random net.world) ctx activity in
      upstream_filtered net ctx.send_buf.pos o.rc o.ctx o.activity

  unfoldable pub send_buffers : TunnelCtx × Bool → Net W → Step W
  send_buffers (ctx, activity) net =
      if is_nil ctx.send_buf.content
        && not ctx.upstream_empty_datagram
        && downstream_output_idle net
      then record { rc = ok; ctx = ctx; net = net; activity = activity }
      else if not (downstream_output_idle net)
      then after_output net ctx.send_buf.pos ctx activity
          (nginx.output_filter nothing net ctx.header_buf ctx.send_buf)
      else filter_download ctx.upstream_filter ctx net activity

  unfoldable pub send_downstream : TunnelCtx → Net W → Bool → Step W
  send_downstream ctx net activity = send_buffers (next_send_buf ctx net activity) net
