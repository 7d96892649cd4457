-- ===== src/Padding/Downstream/Reading.antt =====
-- `tunnel_padding_downstream_filter` at the beginning of a frame, with the header in the body.
use ngx_http_tunnel_module.Common.{
  ℕ, suc, ◌+◌, ◌-◌, ◌*◌, ◌<◌, ◌≡◌, ap, ◌∙◌, Bool, true, false, some, List, ◌∷◌, is_nil, leb, arith,
}
use ngx_http_tunnel_module.Rc.{ok, error}
use ngx_http_tunnel_module.Buffers.{Chain, chain_bytes}
use ngx_http_tunnel_module.Context.{header_b0, payload, PaddingCtx, TunnelCtx, first_paddings}
use ngx_http_tunnel_module.Padding.Downstream.{
  Loop, leave, header_read, payload_case, b0_case, state_case, frames, padding_downstream_filter,
}
use ngx_http_tunnel_module.Padding.Downstream.Header.{has_bytes-is_nil, b0_case-header}

header_read-payload :
    (loop : Loop) (ctx : TunnelCtx) (p : PaddingCtx)
    → 0 < p.payload_size
    → is_nil (chain_bytes ctx.downstream_in) ≡ false
    → header_read loop ctx p
      ≡ leave ok
          (record ctx { flush_size = p.payload_size })
          (record p { payload_size = 0; read_state = payload })
          true
unfolding header_read payload_case
header_read-payload loop ctx p some_payload some_bytes =
    ground (arith, has_bytes-is_nil ctx.downstream_in)

padding_downstream_filter-b0_case :
    (ctx : TunnelCtx) (p : PaddingCtx) (activity : Bool)
    → ctx.padding ≡ some p
    → p.read_state ≡ header_b0
    → p.downstream_count < first_paddings
    → (loop : Loop) × (padding_downstream_filter ctx activity ≡ b0_case loop ctx p activity)
unfolding padding_downstream_filter state_case frames
padding_downstream_filter-b0_case ctx p activity e at_start few =
    let n : first_paddings - p.downstream_count ≡ suc (7 - p.downstream_count) = omega arith in
    let more : leb first_paddings p.downstream_count ≡ false = ground arith in
    let loop : Loop = frames (leave error) (7 - p.downstream_count) in
    (loop, simp (e, more, n, at_start, padding_downstream_filter))

-- What the filter leaves when the header bytes `h`, `l` and `m` stand in front of `rest`.
pub padding_downstream_filter-header :
    (ctx : TunnelCtx) (p : PaddingCtx) (activity : Bool) (h l m : ℕ) (rest : List ℕ)
    → ctx.padding ≡ some p
    → p.read_state ≡ header_b0
    → p.downstream_count < first_paddings
    → chain_bytes ctx.downstream_in ≡ h ∷ l ∷ m ∷ rest
    → l < 256
    → 0 < h * 256 + l
    → is_nil rest ≡ false
    → (cl : Chain) × (chain_bytes cl ≡ rest)
      × (padding_downstream_filter ctx activity
          ≡ leave ok
              (record ctx { downstream_in = cl; flush_size = h * 256 + l })
              (record p { payload_size = 0; padding_size = m; read_state = payload })
              true)
padding_downstream_filter-header ctx p activity h l m rest e at_start few front low some_payload
      more =
    let (loop, start) = padding_downstream_filter-b0_case ctx p activity e at_start few in
    let (cl, left, read) = b0_case-header loop ctx p activity h l m rest front low in
    (
      cl,
      left,
      start
          ∙ read
          ∙ header_read-payload loop (record ctx { downstream_in = cl }) _ some_payload
              (ap is_nil left ∙ more),
    )
