-- ===== src/Padding/Upstream.antt =====
-- `tunnel_padding_upstream_filter` of src/padding.c: frame what upstream sent.
pub mod Wire
pub mod Kept
use ngx_http_tunnel_module.Common.{
  ℕ, ◌+◌, ◌/◌, ◌%◌, ◌^◌, Bool, true, false, not, ◌&&◌, ◌||◌, Option, none, some, List, [], ◌∷◌,
  ◌++◌, length, replicate, leb, ltb, ◌==◌, if◌then◌else◌,
}
use ngx_http_tunnel_module.Rc.{Rc, ok, again, error, declined, internal_server_error}
use ngx_http_tunnel_module.Buffers.{Buf, room, prepare_addition_header}
use ngx_http_tunnel_module.Context.{
  PaddingCtx, TunnelCtx, Outcome, first_paddings, padding_header_size, max_padding_payload,
  max_padding_size,
}

-- Uninstall the filter, at the two places that do it.
abbrev uninstall : TunnelCtx → TunnelCtx
uninstall ctx = record ctx { upstream_filter = none; buffer_tail_reserve = 0 }

abbrev stop : Rc → TunnelCtx → Bool → Outcome
stop rc ctx activity = record { rc = rc; ctx = ctx; activity = activity }

abbrev pub frame_header : ℕ → ℕ → List ℕ
frame_header payload_size padding_size =
    payload_size / 2 ^ 8 % 256 ∷ payload_size % 256 ∷ padding_size % 256 ∷ []

-- With the header buffer `hb` prepared: the header, the zeros behind the payload, the count.
write_frame : TunnelCtx → PaddingCtx → Bool → Rc → Buf → ℕ → Outcome
write_frame ctx p activity again hb padding_size = stop again ctx activity
write_frame ctx p activity ok hb padding_size =
    let b = ctx.send_buf in
    let header = frame_header (length b.content) padding_size in
    let ctx' = record ctx {
      header_buf = record hb { content = hb.content ++ header };
      send_buf = record b { content = b.content ++ replicate padding_size 0 };
      padding = some (record p { upstream_count = p.upstream_count + 1 });
    } in
    if leb first_paddings (p.upstream_count + 1)
    then stop ok (uninstall ctx') activity
    else stop ok ctx' activity
write_frame ctx p activity rc hb padding_size =
    stop internal_server_error (record ctx { header_buf = hb }) activity

-- `random` is the value of `ngx_random()`.
pub padding_upstream_filter : ℕ → TunnelCtx → Bool → Outcome
padding_upstream_filter random ctx activity = elim ctx.padding [
  | none ↦ stop error ctx activity
  | some p ↦
      let payload_size = length ctx.send_buf.content in
      let padding_size = random % (max_padding_size + 1) in
      let (rc, hb) = prepare_addition_header ctx.header_buf padding_header_size in
      if leb first_paddings p.upstream_count
      then stop declined (uninstall ctx) activity
      else if payload_size == 0
      then stop again ctx activity
      else if ltb max_padding_payload payload_size || ltb (room ctx.send_buf) max_padding_size
      then stop internal_server_error ctx activity
      else write_frame ctx p activity rc hb padding_size
]
