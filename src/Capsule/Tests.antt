-- ===== src/Capsule/Tests.antt =====
-- The capsule filters at concrete inputs.
use mathlib.Core.Path.{subst}
use ngx_http_tunnel_module.Headers.Script.{strncasecmp, strncasecmp-IsStrncasecmp}
use ngx_http_tunnel_module.Headers.{Header}
use ngx_http_tunnel_module.Capsule.Header.{capsule_protocol, is_header_present}
use ngx_http_tunnel_module.Capsule.Header.Single.{IsSingle, is_header_present-IsSingle}
use ngx_http_tunnel_module.Common.{
  sym, List, ◌↔◌, ◌≡◌, refl, inl, true, false, none, some, [], ◌∷◌, ◌++◌, take, arith,
}
use ngx_http_tunnel_module.Rc.{ok}
use ngx_http_tunnel_module.Buffers.{free_consumed_chain, ChainBuf, Chain, chain_bytes, InBounds}
use ngx_http_tunnel_module.Context.Fixtures.{empty_ctx, body_buf}
use ngx_http_tunnel_module.Capsule.Varint.{encode_varint, read_varint, varint_size}
use ngx_http_tunnel_module.Capsule.Varint.Bytes.{decode, flat_result, read_varint-decode}
use ngx_http_tunnel_module.Capsule.Varint.RoundTrip.{
  Written, encode_varint-Written, read_varint-encode_varint,
}
use ngx_http_tunnel_module.Capsule.Datagram.{prepare_datagram}
use ngx_http_tunnel_module.Capsule.Datagram.Boundary.{
  both, first_datagram, prepare_datagram-marks, chain_bytes-prepare_datagram,
  prepare_datagram-early_flush,
}
use ngx_http_tunnel_module.Capsule.Downstream.{reset, capsule_downstream_filter}
use ngx_http_tunnel_module.Capsule.Downstream.Refine.{Implements, capsule_downstream_filter-parse}
use ngx_http_tunnel_module.Capsule.Downstream.Calls.{after_first, capsule_downstream_filter-resumes}
use ngx_http_tunnel_module.Capsule.Varint.Cases.{IsReady}
use ngx_http_tunnel_module.Capsule.Downstream.Parser.{parse, waiting}
use ngx_http_tunnel_module.Context.{TunnelCtx, read_context, CapsuleCtx}
use ngx_http_tunnel_module.Capsule.Upstream.{capsule_upstream_filter}
use ngx_http_tunnel_module.Capsule.Upstream.Wire.{sent, capsule_upstream_filter-parse}

-- A DATAGRAM capsule of length 3: the context 0 and the payload 7 8, cut inside the payload.
abbrev body : Chain
body = body_buf (0 ∷ 3 ∷ []) ∷ body_buf (0 ∷ 7 ∷ []) ∷ body_buf (8 ∷ 9 ∷ []) ∷ []

abbrev reading : TunnelCtx
reading = record empty_ctx { downstream_in = body; capsule = some reset }

capsule_downstream_filter-parse_example :
    Implements reading
      (capsule_downstream_filter both reading false)
      (parse reset (chain_bytes body))
capsule_downstream_filter-parse_example =
    capsule_downstream_filter-parse reading reset false refl
      (record { bytes = ground arith; no_flush = (refl, (refl, (refl, tt))); trimmed = refl }) tt

-- The same capsule: its type and length first.
abbrev begun : TunnelCtx
begun = record reading { downstream_in = body_buf (0 ∷ 3 ∷ []) ∷ [] }

abbrev rest : Chain
rest = body_buf (0 ∷ 7 ∷ []) ∷ body_buf (8 ∷ 9 ∷ []) ∷ []

abbrev in_context : CapsuleCtx
in_context = record { capsule_len = 3; payload_size = 0; read_state = read_context }

waits : parse reset (0 ∷ 3 ∷ []) ≡ waiting in_context []
unfolding parse
waits = refl

left_then : (after_first begun false rest).downstream_in ≡ rest
unfolding capsule_downstream_filter read_varint free_consumed_chain
left_then = refl

after_first-IsReady : IsReady (after_first begun false rest).downstream_in
after_first-IsReady =
    subst IsReady (sym left_then)
      (record { bytes = ground arith; no_flush = (refl, (refl, tt)); trimmed = refl })

capsule_downstream_filter-resumes_example :
    Implements
      (after_first begun false rest)
      (capsule_downstream_filter both (after_first begun false rest) false)
      (parse reset (0 ∷ 3 ∷ 0 ∷ 7 ∷ 8 ∷ 9 ∷ []))
capsule_downstream_filter-resumes_example =
    capsule_downstream_filter-resumes begun reset in_context false [] rest refl
      (record { bytes = ground arith; no_flush = (refl, tt); trimmed = refl }) tt waits
      after_first-IsReady

abbrev writing : TunnelCtx
writing = record empty_ctx {
  send_buf = record { pos = 0; content = 7 ∷ 8 ∷ []; end = 64; flush = false };
}

capsule_upstream_filter-parse_example :
    let o = capsule_upstream_filter writing false in
    (o.rc ≡ ok)
    × (parse reset (o.ctx.header_buf.content ++ (o.ctx.send_buf.content ++ (5 ∷ [])))
        ≡ sent (7 ∷ 8 ∷ []) (5 ∷ []))
    × InBounds o.ctx.header_buf
capsule_upstream_filter-parse_example =
    capsule_upstream_filter-parse writing false (5 ∷ []) (inl (omega arith)) refl (omega arith)
      (omega arith)

marks_body : (prepare_datagram both body 3).0 ≡ ok
unfolding prepare_datagram
marks_body = refl

prepare_datagram-marks_example :
    ((prepare_datagram both body 3).0 ≡ ok)
    × (chain_bytes (prepare_datagram both body 3).1 ≡ chain_bytes body)
    × (first_datagram (prepare_datagram both body 3).1 ≡ take 3 (chain_bytes body))
prepare_datagram-marks_example =
    prepare_datagram-marks body 3 (refl, (refl, (refl, tt))) (omega arith) (omega arith)

chain_bytes-prepare_datagram_example :
    chain_bytes (prepare_datagram both body 3).1 ≡ 0 ∷ 3 ∷ 0 ∷ 7 ∷ 8 ∷ 9 ∷ []
chain_bytes-prepare_datagram_example = chain_bytes-prepare_datagram both body 3

abbrev flushed : ChainBuf
flushed = record (body_buf (4 ∷ 5 ∷ [])) { flush = true }

prepare_datagram-early_flush_example :
    first_datagram (prepare_datagram both (flushed ∷ body) 3).1 ≡ 4 ∷ 5 ∷ []
prepare_datagram-early_flush_example =
    prepare_datagram-early_flush both flushed body 3 refl (omega arith) (omega arith)

read_varint-decode_example : flat_result (read_varint body) ≡ decode (chain_bytes body)
read_varint-decode_example = read_varint-decode body (ground arith)

encode_varint-Written_example : Written 3 16384 (encode_varint 3 16384)
encode_varint-Written_example = encode_varint-Written 3 16384

read_varint-encode_varint_example :
    flat_result (read_varint (body_buf (64 ∷ []) ∷ body_buf (100 ∷ 9 ∷ []) ∷ []))
    ≡ some (100, varint_size 100, 9 ∷ [])
unfolding encode_varint
read_varint-encode_varint_example =
    read_varint-encode_varint 8 100 (9 ∷ []) (body_buf (64 ∷ []) ∷ body_buf (100 ∷ 9 ∷ []) ∷ [])
      {bs = 64 ∷ 100 ∷ []} refl (ground arith) refl

-- Two Capsule-Protocol headers, both with the value `?1`.
abbrev twice : List Header
twice =
    record { key = capsule_protocol; lowcase_key = none; value = 63 ∷ 49 ∷ [] }
    ∷ record { key = capsule_protocol; lowcase_key = some capsule_protocol; value = 63 ∷ 49 ∷ [] }
    ∷ []

is_header_present-IsSingle_example : (is_header_present strncasecmp twice ≡ ok) ↔ IsSingle twice
is_header_present-IsSingle_example =
    is_header_present-IsSingle strncasecmp strncasecmp-IsStrncasecmp twice (tt, (refl, tt))
