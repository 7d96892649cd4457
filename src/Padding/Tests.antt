-- ===== src/Padding/Tests.antt =====
-- The padding filters at concrete inputs.
use ngx_http_tunnel_module.Headers.Script.{strncasecmp, strncasecmp-IsStrncasecmp}
use ngx_http_tunnel_module.Headers.{Header}
use ngx_http_tunnel_module.Padding.Negotiation.{padding_needed}
use ngx_http_tunnel_module.Padding.Negotiation.Value.{HasPadding, padding_needed-HasPadding}
use ngx_http_tunnel_module.Common.{
  ◌+◌, ◌*◌, replicate, true, none, List, ◌↔◌, ℕ, ◌-◌, ◌≤◌, ◌<◌, ◌≡◌, refl, false, some, [], ◌∷◌,
  ◌++◌, arith,
}
use ngx_http_tunnel_module.Rc.{ok}
use ngx_http_tunnel_module.Buffers.{Chain, chain_bytes}
use ngx_http_tunnel_module.Context.{
  TunnelCtx, PaddingCtx, Outcome, padding_filter, header_b0, payload,
}
use ngx_http_tunnel_module.Context.Fixtures.{empty_ctx, body_buf}
use ngx_http_tunnel_module.Padding.Downstream.{discard_bytes, dropped, padding_downstream_filter}
use ngx_http_tunnel_module.Padding.Downstream.Header.{discard_bytes-zeros}
use ngx_http_tunnel_module.Padding.Downstream.Shape.{IsGood}
use ngx_http_tunnel_module.Padding.Downstream.Rounds.{padding_downstream_filter-IsGood}
use ngx_http_tunnel_module.Padding.Upstream.{padding_upstream_filter}
use ngx_http_tunnel_module.Padding.Upstream.Wire.{
  CanFrame, Framed, padding_upstream_filter-Framed, padding_upstream_filter-header,
}
use ngx_http_tunnel_module.Padding.RoundTrip.{padding_downstream_filter-padding_upstream_filter}

abbrev start : PaddingCtx
start = record {
  payload_size = 0;
  padding_size = 0;
  downstream_count = 0;
  upstream_count = 0;
  read_state = header_b0;
}

-- Upstream sent 7 8; the eighth frame is due.
abbrev eighth : PaddingCtx
eighth = record start { upstream_count = 7 }

abbrev writing : TunnelCtx
writing = record empty_ctx {
  send_buf = record { pos = 0; content = 7 ∷ 8 ∷ []; end = 512; flush = false };
  padding = some eighth;
  upstream_filter = some padding_filter;
  buffer_tail_reserve = 255;
}

can_frame : CanFrame writing eighth
can_frame = record {
  installed = refl;
  few = omega arith;
  some_payload = omega arith;
  fits = omega arith;
  reserved = omega arith;
  free = refl;
  header_room = omega arith;
}

padding_upstream_filter-Framed_example :
    Framed 2 writing eighth (padding_upstream_filter 258 writing false)
padding_upstream_filter-Framed_example =
    padding_upstream_filter-Framed 258 writing eighth false can_frame

-- The frame with two bytes of padding, in two buffers, and the beginning of the next one.
abbrev body : Chain
body = body_buf (0 ∷ 2 ∷ []) ∷ body_buf (2 ∷ 7 ∷ 8 ∷ 0 ∷ 0 ∷ 1 ∷ []) ∷ []

abbrev reading : TunnelCtx
reading = record empty_ctx { downstream_in = body; padding = some start }

padding_downstream_filter-IsGood_example : IsGood (padding_downstream_filter reading false)
padding_downstream_filter-IsGood_example =
    padding_downstream_filter-IsGood reading start false refl ((refl, refl), omega arith)
      (ground arith) (omega arith)

-- What is in the reader's chain is what the writer leaves, with one more byte.
wire :
    chain_bytes body
    ≡ ((padding_upstream_filter 258 writing false).ctx.header_buf.content
        ++ (padding_upstream_filter 258 writing false).ctx.send_buf.content)
      ++ (1 ∷ [])
wire =
    let (_, _, tail, _, _, _, _, _) =
      padding_upstream_filter-Framed 258 writing eighth false can_frame in
    let head = padding_upstream_filter-header 258 writing eighth false can_frame in
    rw (head, tail) refl

padding_downstream_filter-padding_upstream_filter_example :
    let o : Outcome = padding_downstream_filter reading false in
    (o.rc ≡ ok)
    × (o.ctx.flush_size ≡ 2)
    × (chain_bytes o.ctx.downstream_in ≡ 7 ∷ 8 ∷ 0 ∷ 0 ∷ 1 ∷ [])
    × (o.ctx.padding ≡ some (record start { padding_size = 2; read_state = payload }))
padding_downstream_filter-padding_upstream_filter_example =
    padding_downstream_filter-padding_upstream_filter 258 writing eighth false can_frame reading
      start false (1 ∷ []) refl refl (omega arith) wire

discard_bytes-zeros_example :
    (k : ℕ) × (cl : Chain) × (discard_bytes (body_buf (0 ∷ []) ∷ body_buf (0 ∷ 9 ∷ []) ∷ []) 2
      ≡ dropped k cl)
    × (0 < k)
    × (k ≤ 2)
    × (chain_bytes cl ≡ replicate (2 - k) 0 ++ (9 ∷ []))
discard_bytes-zeros_example =
    discard_bytes-zeros (body_buf (0 ∷ []) ∷ body_buf (0 ∷ 9 ∷ []) ∷ []) 2 (9 ∷ []) (omega arith)
      refl

drops :
    discard_bytes (body_buf (0 ∷ []) ∷ body_buf (0 ∷ 9 ∷ []) ∷ []) 2
    ≡ dropped 1 (body_buf [] ∷ body_buf (0 ∷ 9 ∷ []) ∷ [])
unfolding discard_bytes
drops = refl

abbrev counting : ℕ → ℕ
counting n = n * 1000 + 7

abbrev asks : List Header
asks =
    record { key = 80 ∷ 97 ∷ 100 ∷ 100 ∷ 105 ∷ 110 ∷ 103 ∷ []; lowcase_key = none; value = [] } ∷ []

padding_needed-HasPadding_example :
    (padding_needed strncasecmp true true asks ≡ ok)
    ↔ ((true ≡ true) × (true ≡ true) × HasPadding asks)
padding_needed-HasPadding_example =
    padding_needed-HasPadding strncasecmp true true asks strncasecmp-IsStrncasecmp (tt, tt)
