-- ===== src/Capsule/Downstream/Parser.antt =====
-- The capsule format as a parser of a flat list of bytes (RFC 9297 and RFC 9298, restricted to
-- DATAGRAM capsules of context 0): what src/capsule.c reads, with no buffers in sight.
use ngx_http_tunnel_module.Common.{
  ℕ, ◌-◌, not, ◌||◌, none, some, List, length, ltb, ◌==◌, if◌then◌else◌,
}
use ngx_http_tunnel_module.Context.{
  CapsuleState, read_type, read_length, read_context, read_payload, CapsuleCtx,
  max_datagram_capsule,
}
use ngx_http_tunnel_module.Capsule.Varint.Bytes.{decode}
use ngx_http_tunnel_module.Capsule.Downstream.{capsule_datagram, datagram_context_id}

-- What is read from the front of the body. The lists are the bytes that are left: for `datagram`
-- they begin with the payload, whose size is the number.
pub data Parsed : Type 0 where
  waiting : CapsuleCtx → List ℕ → Parsed
  malformed : Parsed
  empty_datagram : List ℕ → Parsed
  datagram : ℕ → List ℕ → Parsed

abbrev pub parse_payload : CapsuleCtx → List ℕ → Parsed
parse_payload c xs =
    if ltb (length xs) c.payload_size then waiting c xs else datagram c.payload_size xs

abbrev pub context_parsed : CapsuleCtx → ℕ → ℕ → List ℕ → Parsed
context_parsed c value encoded rest =
    let size = c.capsule_len - encoded in
    if not (value == datagram_context_id) || ltb c.capsule_len encoded
    then malformed
    else if size == 0
    then empty_datagram rest
    else parse_payload (record c { payload_size = size; read_state = read_payload }) rest

abbrev pub parse_context : CapsuleCtx → List ℕ → Parsed
parse_context c xs = elim (decode xs) [
  | none ↦ waiting c xs
  | some (value, encoded, rest) ↦ context_parsed c value encoded rest
]

abbrev pub length_parsed : CapsuleCtx → ℕ → List ℕ → Parsed
length_parsed c value rest =
    if ltb max_datagram_capsule value
    then malformed
    else parse_context (record c { capsule_len = value; read_state = read_context }) rest

abbrev pub parse_length : CapsuleCtx → List ℕ → Parsed
parse_length c xs = elim (decode xs) [
  | none ↦ waiting c xs
  | some (value, encoded, rest) ↦ length_parsed c value rest
]

abbrev pub type_parsed : CapsuleCtx → ℕ → List ℕ → Parsed
type_parsed c value rest =
    if not (value == capsule_datagram)
    then malformed
    else parse_length (record c { read_state = read_length }) rest

abbrev pub parse_type : CapsuleCtx → List ℕ → Parsed
parse_type c xs = elim (decode xs) [
  | none ↦ waiting c xs
  | some (value, encoded, rest) ↦ type_parsed c value rest
]

abbrev pub parse_state : CapsuleState → CapsuleCtx → List ℕ → Parsed
parse_state read_type = parse_type
parse_state read_length = parse_length
parse_state read_context = parse_context
parse_state read_payload = parse_payload
parse_state CapsuleState.unused = λ c xs. malformed

unfoldable pub parse : CapsuleCtx → List ℕ → Parsed
parse c = parse_state c.read_state c
