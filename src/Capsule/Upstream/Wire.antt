-- ===== src/Capsule/Upstream/Wire.antt =====
-- The capsule that `tunnel_capsule_upstream_filter` (src/capsule.c) puts on the wire, for the reader.
use ngx_http_tunnel_module.Common.{
  ℕ, ◌+◌, ◌-◌, ◌^◌, ◌≤◌, ◌<◌, ◌≡◌, refl, ap, ◌∙◌, Bool, true, false, some, List, [], ◌∷◌, ◌++◌,
  length, length-append, append_assoc, ltb, arith, le→ltb_false, ◌⊎◌,
}
use ngx_http_tunnel_module.Rc.{ok}
use ngx_http_tunnel_module.Buffers.{Buf, InBounds, room}
use ngx_http_tunnel_module.Capsule.Varint.{encode_varint}
use ngx_http_tunnel_module.Capsule.Varint.RoundTrip.{
  Encodes, encode_varint-fits, encode_varint-zero, varint_size-le, varint_size-pos,
  varint_size-zero,
}
use ngx_http_tunnel_module.Capsule.Downstream.{reset}
use ngx_http_tunnel_module.Context.{
  TunnelCtx, CapsuleCtx, read_context, header_reserve_bytes, max_datagram_capsule,
}
use ngx_http_tunnel_module.Capsule.Downstream.Parser.{
  Parsed, empty_datagram, datagram, parse, parse_length, context_parsed,
}
use ngx_http_tunnel_module.Capsule.Upstream.{encode_header, write_header, capsule_upstream_filter}

-- What the reader should find: the payload, and the bytes behind it.
abbrev pub sent : List ℕ → List ℕ → Parsed
sent [] rest = empty_datagram rest
sent (x ∷ xs) rest = datagram (length (x ∷ xs)) ((x ∷ xs) ++ rest)

context-capsule :
    (n : ℕ) (c : CapsuleCtx) (payload rest : List ℕ)
    → c.capsule_len ≡ 1 + length payload
    → n ≡ 1
    → context_parsed c 0 n (payload ++ rest) ≡ sent payload rest
context-capsule n c [] rest e p = rw (e, p) refl
context-capsule n c (x ∷ xs) rest e p = ground (arith, length-append (x ∷ xs) rest)

parse-capsule :
    (size payload rest : List ℕ)
    → Encodes (1 + length payload) size
    → 1 + length payload ≤ 65508
    → parse reset (0 ∷ (size ++ (0 ∷ (payload ++ rest)))) ≡ sent payload rest
unfolding parse
parse-capsule size payload rest e h =
    let small : ltb max_datagram_capsule (1 + length payload) ≡ false = le→ltb_false _ _ h in
    rw (e.2 (0 ∷ (payload ++ rest)), parse_length, small)
      (context-capsule 1
        (record { capsule_len = 1 + length payload; payload_size = 0; read_state = read_context })
        payload rest refl refl)

-- There is room for the header, and it is the one of a capsule with this payload.
encode_header-some :
    (free n : ℕ)
    → n < 2 ^ 62
    → header_reserve_bytes ≤ free
    → (size : List ℕ) × (encode_header free n ≡ some (0 ∷ (size ++ (0 ∷ []))))
      × Encodes n size
      × (length size ≤ 8)
unfolding encode_header
encode_header-some free n h k =
    let zero_byte : (f : ℕ) → 1 ≤ f → encode_varint f 0 ≡ some (0 ∷ []) = encode_varint-zero in
    let (size, e, enc, short) =
      encode_varint-fits (free - 1) n h (omega (arith, varint_size-le n)) in
    (
      size,
      rw (zero_byte free (omega arith), e, zero_byte (free - 1 - length size) (omega arith)) refl,
      enc,
      short,
    )

-- There is something to send: bytes, or an empty datagram that was announced.
abbrev pub HasDatagram : TunnelCtx → Type 0
HasDatagram ctx = (0 < length ctx.send_buf.content) ⊎ (ctx.upstream_empty_datagram ≡ true)

header-append : (size xs : List ℕ) → (0 ∷ (size ++ (0 ∷ []))) ++ xs ≡ 0 ∷ (size ++ (0 ∷ xs))
header-append size xs = ap (λ t. 0 ∷ t) (append_assoc size (0 ∷ []) xs)

abbrev fresh : TunnelCtx → Buf
fresh ctx = record ctx.header_buf { pos = 0; content = [] }

capsule_upstream_filter-writes :
    (ctx : TunnelCtx) (activity : Bool)
    → HasDatagram ctx
    → ctx.header_buf.content ≡ []
    → header_reserve_bytes ≤ ctx.header_buf.end
    → 1 + length ctx.send_buf.content < 2 ^ 62
    → capsule_upstream_filter ctx activity
      ≡ write_header ctx activity ok (fresh ctx) (1 + length ctx.send_buf.content)
unfolding capsule_upstream_filter
capsule_upstream_filter-writes ctx activity d empty free small = rw varint_size-zero (
    ground (
      arith,
      varint_size-pos (1 + length ctx.send_buf.content),
      varint_size-le (1 + length ctx.send_buf.content),
    ))

-- With the header buffer free, the filter succeeds on every datagram that UDP can carry. What is
-- sent, the header and the untouched payload, is read back as that datagram, and the header stays
-- inside its buffer.
pub capsule_upstream_filter-parse :
    (ctx : TunnelCtx) (activity : Bool) (rest : List ℕ)
    → HasDatagram ctx
    → ctx.header_buf.content ≡ []
    → header_reserve_bytes ≤ ctx.header_buf.end
    → 1 + length ctx.send_buf.content ≤ 65508
    → let o = capsule_upstream_filter ctx activity in
      (o.rc ≡ ok)
      × (parse reset (o.ctx.header_buf.content ++ (o.ctx.send_buf.content ++ rest))
          ≡ sent ctx.send_buf.content rest)
      × InBounds o.ctx.header_buf
unfolding write_header
capsule_upstream_filter-parse ctx activity rest d empty free small =
    let n : ℕ = 1 + length ctx.send_buf.content in
    let (size, e, enc, short) =
      encode_header-some (room (fresh ctx)) n (omega arith) (omega arith) in
    let writes : capsule_upstream_filter ctx activity ≡ write_header ctx activity ok (fresh ctx) n =
      capsule_upstream_filter-writes ctx activity d empty free (omega arith) in
    rw (writes, e, write_header)
      (
        refl,
        ap (parse reset) (header-append size (ctx.send_buf.content ++ rest))
            ∙ parse-capsule size ctx.send_buf.content rest enc small,
        omega (arith, length-append size (0 ∷ [])),
      )
