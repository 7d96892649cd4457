-- ===== src/Padding/RoundTrip.antt =====
-- The two padding filters against each other: a frame that one end writes, read at the other end.
use ngx_http_tunnel_module.Common.{
  ℕ, ◌+◌, ◌*◌, ◌/◌, ◌%◌, ◌^◌, ◌<◌, ◌≡◌, refl, ap, ◌∙◌, Bool, some, List, ◌∷◌, ◌++◌, length,
  append_assoc, replicate, is_nil-append, arith,
}
use ngx_http_tunnel_module.Rc.{ok}
use ngx_http_tunnel_module.Buffers.{chain_bytes}
use ngx_http_tunnel_module.Context.{
  header_b0, payload, PaddingCtx, TunnelCtx, Outcome, first_paddings,
}
use ngx_http_tunnel_module.Padding.Downstream.{padding_downstream_filter}
use ngx_http_tunnel_module.Padding.Downstream.Reading.{padding_downstream_filter-header}
use ngx_http_tunnel_module.Padding.Upstream.{padding_upstream_filter}
use ngx_http_tunnel_module.Padding.Upstream.Wire.{
  CanFrame, padding_upstream_filter-Framed, padding_upstream_filter-header,
}

-- What a step of the upstream filter adds to the wire.
abbrev pub sent : TunnelCtx → List ℕ
sent ctx = ctx.header_buf.content ++ ctx.send_buf.content

-- A frame that the upstream filter of one end writes (where `CanFrame` holds), in front of
-- anything and cut into buffers in any way, is read by the downstream filter of the other end,
-- which is at the beginning of a frame and has read fewer than eight: all of the payload is due,
-- and what is left behind it is the zeros that the reader knows it has to drop.
pub padding_downstream_filter-padding_upstream_filter :
    (random : ℕ) (ctx : TunnelCtx) (p : PaddingCtx) (activity : Bool)
    → CanFrame ctx p
    → (reader : TunnelCtx) (q : PaddingCtx) (active : Bool) (rest : List ℕ)
    → reader.padding ≡ some q
    → q.read_state ≡ header_b0
    → q.downstream_count < first_paddings
    → chain_bytes reader.downstream_in
      ≡ sent (padding_upstream_filter random ctx activity).ctx ++ rest
    → let o : Outcome = padding_downstream_filter reader active in
      (o.rc ≡ ok)
      × (o.ctx.flush_size ≡ length ctx.send_buf.content)
      × (chain_bytes o.ctx.downstream_in
          ≡ ctx.send_buf.content ++ (replicate (random % 256) 0 ++ rest))
      × (o.ctx.padding
          ≡ some (record q { payload_size = 0; padding_size = random % 256; read_state = payload }))
padding_downstream_filter-padding_upstream_filter random ctx p activity c reader q active rest e
      at_start few front =
    let content : List ℕ = ctx.send_buf.content in
    let zeros : List ℕ = replicate (random % 256) 0 in
    let n : ℕ = length content in
    let (_, _, tail, _, _, _, _, _) = padding_upstream_filter-Framed random ctx p activity c in
    let head = padding_upstream_filter-header random ctx p activity c in
    let size : n / 2 ^ 8 % 256 * 256 + n % 256 ≡ n = omega (arith, c.fits) in
    let pad : random % 256 % 256 ≡ random % 256 = omega arith in
    let wire : sent (padding_upstream_filter random ctx activity).ctx
        ≡ n / 2 ^ 8 % 256 ∷ n % 256 ∷ random % 256 ∷ (content ++ zeros) =
      rw (head, tail, pad) refl in
    let (cl, left, read) =
      padding_downstream_filter-header reader q active (n / 2 ^ 8 % 256) (n % 256) (random % 256)
        (content ++ (zeros ++ rest)) e at_start few
        (front
          ∙ ap (λ t. t ++ rest) wire
          ∙ ap (λ t. n / 2 ^ 8 % 256 ∷ n % 256 ∷ random % 256 ∷ t)
              (append_assoc content zeros rest))
        (omega arith) (omega (arith, size, c.some_payload))
        (is_nil-append content (zeros ++ rest) c.some_payload) in
    rw (read) (refl, size, left, refl)
