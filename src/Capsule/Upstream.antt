-- ===== src/Capsule/Upstream.antt =====
-- `tunnel_capsule_upstream_filter` of src/capsule.c: the capsule header in front of a datagram from
-- upstream.
pub mod Wire
pub mod Kept
use ngx_http_tunnel_module.Common.{
  ℕ, ◌+◌, Bool, not, ◌&&◌, ◌||◌, Option, none, some, List, ◌++◌, length, ltb, ◌==◌, if◌then◌else◌,
  ◌-◌, ◌>>=◌,
}
use ngx_http_tunnel_module.Rc.{Rc, ok, again, internal_server_error}
use ngx_http_tunnel_module.Buffers.{Buf, room, prepare_addition_header}
use ngx_http_tunnel_module.Context.{TunnelCtx, Outcome, header_reserve_bytes}
use ngx_http_tunnel_module.Capsule.Varint.{varint_size, encode_varint}
use ngx_http_tunnel_module.Capsule.Downstream.{capsule_datagram, datagram_context_id}

-- The three calls of `capsule_encode_varint`, by the room behind `hb->last`.
encode_header : ℕ → ℕ → Option (List ℕ)
encode_header free capsule_len = do
  kind ← encode_varint free capsule_datagram
  size ← encode_varint (free - length kind) capsule_len
  context ← encode_varint (free - length kind - length size) datagram_context_id
  some (kind ++ size ++ context)

-- `hb->last = p`, if all three succeed.
write_header : TunnelCtx → Bool → Rc → Buf → ℕ → Outcome
unfolding encode_header
write_header ctx activity again hb capsule_len = record {
  rc = again;
  ctx = ctx;
  activity = activity;
}
write_header ctx activity ok hb capsule_len = elim (encode_header (room hb) capsule_len) [
  | none ↦ record {
    rc = internal_server_error;
    ctx = record ctx { header_buf = hb };
    activity = activity;
  }
  | some bytes ↦ record {
    rc = ok;
    ctx = record ctx { header_buf = record hb { content = hb.content ++ bytes } };
    activity = activity;
  }
]
write_header ctx activity rc hb capsule_len = record {
  rc = internal_server_error;
  ctx = record ctx { header_buf = hb };
  activity = activity;
}

pub capsule_upstream_filter : TunnelCtx → Bool → Outcome
unfolding prepare_addition_header
capsule_upstream_filter ctx activity =
    let payload_len = length ctx.send_buf.content in
    let context_len = varint_size datagram_context_id in
    let capsule_len = context_len + payload_len in
    let header_len = varint_size capsule_datagram + varint_size capsule_len + context_len in
    let (rc, hb) = prepare_addition_header ctx.header_buf header_len in
    if payload_len == 0 && not ctx.upstream_empty_datagram
    then record { rc = again; ctx = ctx; activity = activity }
    else if context_len == 0 || varint_size capsule_len == 0 || ltb header_reserve_bytes header_len
    then record { rc = internal_server_error; ctx = ctx; activity = activity }
    else write_header ctx activity rc hb capsule_len
