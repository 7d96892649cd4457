-- ===== src/Capsule/Downstream/Refine.antt =====
-- `tunnel_capsule_downstream_filter` (src/capsule.c) against the flat parser.
use ngx_http_tunnel_module.Common.{
  ℕ, ◌-◌, ◌<◌, ◌≡◌, refl, Bool, true, not, ◌&&◌, ◌||◌, some, length, take, is_nil, inl, inr, arith,
  Bool-cases, ltb, ltb→lt, ◌==◌, if◌then◌else◌,
}
use ngx_http_tunnel_module.Rc.{ok, again, bad_request}
use ngx_http_tunnel_module.Buffers.{Chain, chain_bytes}
use ngx_http_tunnel_module.Context.{
  CapsuleState, read_type, read_length, read_context, read_payload, CapsuleCtx, TunnelCtx, Outcome,
  max_datagram_capsule,
}
use ngx_http_tunnel_module.Capsule.Datagram.Boundary.{
  both, first_datagram, prepare_datagram-marks, prepare_datagram-short,
}
use ngx_http_tunnel_module.Capsule.Varint.Cases.{IsReady, read_varint-cases}
use ngx_http_tunnel_module.Capsule.Downstream.{
  reset, is_read_type, incomplete, payload_case, context_read, context_case, length_read,
  length_case, type_read, type_case, state_case, datagram_context_id, capsule_datagram,
  capsule_downstream_filter,
}
use ngx_http_tunnel_module.Capsule.Downstream.Parser.{
  Parsed, waiting, malformed, empty_datagram, datagram, parse_payload, parse_context, parse_length,
  parse_type, parse_state, context_parsed, length_parsed, type_parsed, parse,
}

-- The filter was called at this `flush_size`, `downstream_empty_datagram` and `downstream_eof`, and
-- left `o`; the parser's answer says what `o` is.
abbrev pub Answers : ℕ → Bool → Bool → Outcome → Parsed → Type 0
Answers flush empty eof o (waiting c xs) =
    (o.rc ≡ (
      if eof && (not (is_read_type c.read_state) || not (is_nil xs)) then bad_request else again))
    × (o.ctx.capsule ≡ some c)
    × (chain_bytes o.ctx.downstream_in ≡ xs)
    × (o.ctx.flush_size ≡ flush)
    × (o.ctx.downstream_empty_datagram ≡ empty)
Answers flush empty eof o malformed = o.rc ≡ bad_request
Answers flush empty eof o (empty_datagram xs) =
    (o.rc ≡ ok)
    × (o.ctx.capsule ≡ some reset)
    × (chain_bytes o.ctx.downstream_in ≡ xs)
    × (o.ctx.flush_size ≡ flush)
    × (o.ctx.downstream_empty_datagram ≡ true)
Answers flush empty eof o (datagram n xs) =
    (o.rc ≡ ok)
    × (o.ctx.capsule ≡ some reset)
    × (chain_bytes o.ctx.downstream_in ≡ xs)
    × (o.ctx.flush_size ≡ n)
    × (o.ctx.downstream_empty_datagram ≡ empty)
    × (first_datagram o.ctx.downstream_in ≡ take n xs)

abbrev pub Implements : TunnelCtx → Outcome → Parsed → Type 0
Implements ctx = Answers ctx.flush_size ctx.downstream_empty_datagram ctx.downstream_eof

incomplete-Implements :
    (ctx : TunnelCtx) (c : CapsuleCtx) (activity : Bool)
    → IsReady ctx.downstream_in
    → Implements ctx (incomplete ctx c activity) (waiting c (chain_bytes ctx.downstream_in))
unfolding incomplete
incomplete-Implements ctx c activity r = rw r.trimmed (ground arith)

payload_case-Implements :
    (ctx : TunnelCtx) (c : CapsuleCtx) (activity : Bool)
    → IsReady ctx.downstream_in
    → 0 < c.payload_size
    → Implements ctx
        (payload_case both ctx c activity)
        (parse_payload c (chain_bytes ctx.downstream_in))
unfolding payload_case
payload_case-Implements ctx c activity r pos =
    elim (Bool-cases (ltb (length (chain_bytes ctx.downstream_in)) c.payload_size)) [
      | inl short ↦
          rw
            (short, prepare_datagram-short both ctx.downstream_in c.payload_size (ltb→lt _ _ short))
            (ground (arith, incomplete-Implements ctx c activity r))
      | inr enough ↦ rw enough (
          ground (
            arith,
            prepare_datagram-marks ctx.downstream_in c.payload_size r.no_flush pos,
            r.trimmed,
          ))
    ]

context_value :
    (ctx : TunnelCtx) (c : CapsuleCtx) (activity : Bool) (v n : ℕ) (cl : Chain)
    → IsReady cl
    → Implements ctx
        (context_read both ctx c activity v n cl)
        (context_parsed c v n (chain_bytes cl))
unfolding context_read
context_value ctx c activity v n cl r =
    elim (Bool-cases (not (v == datagram_context_id) || ltb c.capsule_len n)) [
      | inl bad ↦ rw bad refl
      | inr good ↦ rw good (elim (Bool-cases (c.capsule_len - n == 0)) [
        | inl none_left ↦ rw none_left (refl, refl, refl, refl, refl)
        | inr some_left ↦ rw some_left (
            payload_case-Implements (record ctx { downstream_in = cl })
              (record c { payload_size = c.capsule_len - n; read_state = read_payload }) true r
              (ground arith))
      ])
    ]

context_case-Implements :
    (ctx : TunnelCtx) (c : CapsuleCtx) (activity : Bool)
    → IsReady ctx.downstream_in
    → Implements ctx
        (context_case both ctx c activity)
        (parse_context c (chain_bytes ctx.downstream_in))
unfolding context_case
context_case-Implements ctx c activity r = elim (read_varint-cases ctx.downstream_in r) [
  | inl (e, d) ↦ rw (e, d, context_case, parse_context) (incomplete-Implements ctx c activity r)
  | inr (v, n, cl, e, d, r') ↦
      rw (e, d, context_case, parse_context) (context_value ctx c activity v n cl r')
]

length_value :
    (ctx : TunnelCtx) (c : CapsuleCtx) (activity : Bool) (v : ℕ) (cl : Chain)
    → IsReady cl
    → Implements ctx (length_read both ctx c activity v cl) (length_parsed c v (chain_bytes cl))
unfolding length_read
length_value ctx c activity v cl r = elim (Bool-cases (ltb max_datagram_capsule v)) [
  | inl bad ↦ rw bad refl
  | inr good ↦ rw good (
      context_case-Implements (record ctx { downstream_in = cl })
        (record c { capsule_len = v; read_state = read_context }) true r)
]

length_case-Implements :
    (ctx : TunnelCtx) (c : CapsuleCtx) (activity : Bool)
    → IsReady ctx.downstream_in
    → Implements ctx
        (length_case both ctx c activity)
        (parse_length c (chain_bytes ctx.downstream_in))
unfolding length_case
length_case-Implements ctx c activity r = elim (read_varint-cases ctx.downstream_in r) [
  | inl (e, d) ↦ rw (e, d, length_case, parse_length) (incomplete-Implements ctx c activity r)
  | inr (v, n, cl, e, d, r') ↦
      rw (e, d, length_case, parse_length) (length_value ctx c activity v cl r')
]

type_value :
    (ctx : TunnelCtx) (c : CapsuleCtx) (activity : Bool) (v : ℕ) (cl : Chain)
    → IsReady cl
    → Implements ctx (type_read both ctx c activity v cl) (type_parsed c v (chain_bytes cl))
unfolding type_read
type_value ctx c activity v cl r = elim (Bool-cases (not (v == capsule_datagram))) [
  | inl bad ↦ rw bad refl
  | inr good ↦ rw good (
      length_case-Implements (record ctx { downstream_in = cl })
        (record c { read_state = read_length }) true r)
]

type_case-Implements :
    (ctx : TunnelCtx) (c : CapsuleCtx) (activity : Bool)
    → IsReady ctx.downstream_in
    → Implements ctx (type_case both ctx c activity) (parse_type c (chain_bytes ctx.downstream_in))
unfolding type_case
type_case-Implements ctx c activity r = elim (read_varint-cases ctx.downstream_in r) [
  | inl (e, d) ↦ rw (e, d, type_case, parse_type) (incomplete-Implements ctx c activity r)
  | inr (v, n, cl, e, d, r') ↦ rw (e, d, type_case, parse_type) (type_value ctx c activity v cl r')
]

-- In the payload state a payload is pending.
abbrev pub IsPending : CapsuleState → ℕ → Type 0
IsPending read_payload n = 0 < n
IsPending _ n = Unit {0}

state_case-Implements :
    (s : CapsuleState) (ctx : TunnelCtx) (c : CapsuleCtx) (activity : Bool)
    → IsReady ctx.downstream_in
    → IsPending s c.payload_size
    → Implements ctx
        (state_case s both ctx c activity)
        (parse_state s c (chain_bytes ctx.downstream_in))
unfolding state_case
state_case-Implements read_type ctx c activity r p = type_case-Implements ctx c activity r
state_case-Implements read_length ctx c activity r p = length_case-Implements ctx c activity r
state_case-Implements read_context ctx c activity r p = context_case-Implements ctx c activity r
state_case-Implements read_payload ctx c activity r p = payload_case-Implements ctx c activity r p
state_case-Implements CapsuleState.unused ctx c activity r p = refl

-- On a chain of bytes with no datagram marked, and with memory, the filter answers as the flat
-- parser does on the chain's bytes from the capsule state reached so far: it waits, or fails with
-- 400 when the body has ended inside a capsule; it rejects a malformed capsule with 400; it
-- publishes an empty datagram by its flag; and it publishes a datagram by `flush_size` and by a
-- boundary in the chain, which cuts off exactly the payload.
pub capsule_downstream_filter-parse :
    (ctx : TunnelCtx) (c : CapsuleCtx) (activity : Bool)
    → ctx.capsule ≡ some c
    → IsReady ctx.downstream_in
    → IsPending c.read_state c.payload_size
    → Implements ctx
        (capsule_downstream_filter both ctx activity)
        (parse c (chain_bytes ctx.downstream_in))
unfolding capsule_downstream_filter parse
capsule_downstream_filter-parse ctx c activity e r p =
    rw (e, capsule_downstream_filter) (state_case-Implements c.read_state ctx c activity r p)
