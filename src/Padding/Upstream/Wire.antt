-- ===== src/Padding/Upstream/Wire.antt =====
-- A frame that `tunnel_padding_upstream_filter` (src/padding.c) writes.
use ngx_http_tunnel_module.Common.{
  ℕ, ◌+◌, ◌*◌, ◌/◌, ◌^◌, refl, ◌%◌, ◌≤◌, ◌<◌, ◌≡◌, Bool, none, some, List, [], ◌∷◌, ◌++◌, length,
  length-append, length-replicate, replicate, ◌==◌, if◌then◌else◌, arith,
}
use ngx_http_tunnel_module.Rc.{internal_server_error, ok}
use ngx_http_tunnel_module.Buffers.{InBounds, room, Buf, prepare_addition_header}
use ngx_http_tunnel_module.Context.{
  PaddingCtx, TunnelCtx, Outcome, first_paddings, max_padding_payload, max_padding_size,
}
use ngx_http_tunnel_module.Padding.Upstream.{frame_header, write_frame, padding_upstream_filter}

-- A frame can be written: there is a payload that its two size bytes can tell, the padding fits
-- behind it, the header buffer is free, and fewer than eight frames have gone out.
pub record CanFrame (ctx : TunnelCtx) (p : PaddingCtx) : Type 0 where
  pub installed : ctx.padding ≡ some p
  pub few : p.upstream_count < first_paddings
  pub some_payload : 0 < length ctx.send_buf.content
  pub fits : length ctx.send_buf.content ≤ max_padding_payload
  pub reserved : max_padding_size ≤ room ctx.send_buf
  pub free : ctx.header_buf.content ≡ []
  pub header_room : 3 ≤ ctx.header_buf.end

-- Three bytes: the size of the payload in network order, and the size of the padding.
abbrev pub IsHeader : ℕ → ℕ → List ℕ → Type 0
IsHeader payload_size padding_size bytes =
    (high : ℕ) × (low : ℕ) × (bytes ≡ high ∷ low ∷ padding_size ∷ [])
    × (high * 256 + low ≡ payload_size)
    × (high < 256)
    × (low < 256)
    × (padding_size < 256)

abbrev pub Framed : ℕ → TunnelCtx → PaddingCtx → Outcome → Type 0
Framed pad ctx p o =
    (o.rc ≡ ok)
    × IsHeader (length ctx.send_buf.content) pad o.ctx.header_buf.content
    × (o.ctx.send_buf.content ≡ ctx.send_buf.content ++ replicate pad 0)
    × InBounds o.ctx.header_buf
    × InBounds o.ctx.send_buf
    × (o.ctx.padding ≡ some (record p { upstream_count = p.upstream_count + 1 }))
    × (o.ctx.upstream_filter
        ≡ (if p.upstream_count + 1 == first_paddings then none else ctx.upstream_filter))
    × (o.ctx.buffer_tail_reserve
        ≡ (if p.upstream_count + 1 == first_paddings then 0 else ctx.buffer_tail_reserve))

-- The header buffer once it is prepared.
abbrev fresh : TunnelCtx → Buf
fresh ctx = record ctx.header_buf { pos = 0; content = [] }

prepare_addition_header-ok :
    (b : Buf)
    → b.content ≡ []
    → 3 ≤ b.end
    → prepare_addition_header b 3 ≡ (ok, record b { pos = 0; content = [] })
unfolding prepare_addition_header
prepare_addition_header-ok b free enough = ground arith

padding_upstream_filter-writes :
    (random : ℕ) (ctx : TunnelCtx) (p : PaddingCtx) (activity : Bool)
    → CanFrame ctx p
    → padding_upstream_filter random ctx activity
      ≡ write_frame ctx p activity ok (fresh ctx) (random % 256)
unfolding padding_upstream_filter
padding_upstream_filter-writes random ctx p activity c =
    rw
      (
        c.installed,
        prepare_addition_header-ok ctx.header_buf c.free c.header_room,
        padding_upstream_filter,
      )
      (ground (arith, c.few, c.some_payload, c.fits, c.reserved))

frame_header-IsHeader :
    (n pad : ℕ)
    → n ≤ max_padding_payload
    → pad ≤ max_padding_size
    → IsHeader n pad (frame_header n pad)
frame_header-IsHeader n pad fits small =
    let e : pad % 256 ≡ pad = omega arith in
    (n / 2 ^ 8 % 256, n % 256, rw e refl, omega arith, omega arith, omega arith, omega arith)

write_frame-Framed :
    (pad : ℕ) (ctx : TunnelCtx) (p : PaddingCtx) (activity : Bool)
    → CanFrame ctx p
    → pad ≤ max_padding_size
    → Framed pad ctx p (write_frame ctx p activity ok (fresh ctx) pad)
unfolding write_frame
write_frame-Framed pad ctx p activity c small = ground (
  arith,
  frame_header-IsHeader (length ctx.send_buf.content) pad c.fits small,
  c.few,
  c.reserved,
  c.header_room,
  c.some_payload,
  length-append ctx.send_buf.content (replicate pad 0),
  length-replicate {A = ℕ} pad 0,
)

pub padding_upstream_filter-header :
    (random : ℕ) (ctx : TunnelCtx) (p : PaddingCtx) (activity : Bool)
    → CanFrame ctx p
    → (padding_upstream_filter random ctx activity).ctx.header_buf.content
      ≡ frame_header (length ctx.send_buf.content) (random % 256)
unfolding write_frame
padding_upstream_filter-header random ctx p activity c =
    rw (padding_upstream_filter-writes random ctx p activity c) (ground (arith, c.few))

-- Where a frame can be written (`CanFrame`), the filter succeeds: the header is three bytes, the
-- size of the payload with its high byte first and the size of the padding, as many zeros follow
-- the payload, both buffers keep within their bounds, and the eighth frame, no earlier one, takes
-- the filter and the reserve away.
pub padding_upstream_filter-Framed :
    (random : ℕ) (ctx : TunnelCtx) (p : PaddingCtx) (activity : Bool)
    → CanFrame ctx p
    → Framed (random % 256) ctx p (padding_upstream_filter random ctx activity)
padding_upstream_filter-Framed random ctx p activity c =
    rw (padding_upstream_filter-writes random ctx p activity c)
      (write_frame-Framed (random % 256) ctx p activity c (omega arith))

-- More payload than the two size bytes can tell ends the tunnel.
pub padding_upstream_filter-oversize :
    (random : ℕ) (ctx : TunnelCtx) (p : PaddingCtx) (activity : Bool)
    → ctx.padding ≡ some p
    → p.upstream_count < first_paddings
    → max_padding_payload < length ctx.send_buf.content
    → padding_upstream_filter random ctx activity
      ≡ record { rc = internal_server_error; ctx = ctx; activity = activity }
unfolding padding_upstream_filter
padding_upstream_filter-oversize random ctx p activity installed few large =
    rw (installed, padding_upstream_filter) (ground (arith, few, large))
