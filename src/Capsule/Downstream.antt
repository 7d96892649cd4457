-- ===== src/Capsule/Downstream.antt =====
-- `tunnel_capsule_downstream_filter` of src/capsule.c: the client's capsules, read one datagram at
-- a time from the body chain.
pub mod Kept
pub mod Parser
pub mod Refine
pub mod Resume
pub mod Sizes
pub mod Calls
use ngx_http_tunnel_module.Common.{
  ℕ, ◌-◌, Bool, true, false, not, ◌&&◌, ◌||◌, Option, none, some, ltb, ◌==◌, is_nil, if◌then◌else◌,
}
use ngx_http_tunnel_module.Rc.{Rc, ok, again, bad_request, internal_server_error}
use ngx_http_tunnel_module.Buffers.{Chain, Pool}
use ngx_http_tunnel_module.Context.{
  CapsuleState, read_type, read_length, read_context, read_payload, CapsuleCtx, TunnelCtx, Outcome,
  max_datagram_capsule,
}
use ngx_http_tunnel_module.Capsule.Varint.{read_varint}
use ngx_http_tunnel_module.Capsule.Datagram.{prepare_datagram}

-- CAPSULE_DATAGRAM and CAPSULE_DATAGRAM_CONTEXT_ID
abbrev pub capsule_datagram : ℕ
capsule_datagram = 0

abbrev pub datagram_context_id : ℕ
datagram_context_id = 0

-- The macro `capsule_reset`.
abbrev pub reset : CapsuleCtx
reset = record { capsule_len = 0; payload_size = 0; read_state = read_type }

abbrev pub is_read_type : CapsuleState → Bool
is_read_type read_type = true
is_read_type _ = false

-- The capsule state is a local value `c` here, and is written back where the filter returns.
abbrev leave : Rc → TunnelCtx → CapsuleCtx → Bool → Outcome
leave rc ctx c activity = record {
  rc = rc;
  ctx = record ctx { capsule = some c };
  activity = activity;
}

-- The label `incomplete`.
incomplete : TunnelCtx → CapsuleCtx → Bool → Outcome
incomplete ctx c activity =
    if ctx.downstream_eof && (not (is_read_type c.read_state) || not (is_nil ctx.downstream_in))
    then leave bad_request ctx c activity
    else leave again ctx c activity

-- The cases of the `switch`, last one first. A `continue` has just set `read_state` to the next
-- case, so the loop around the `switch` goes on there.
prepared : Rc → TunnelCtx → CapsuleCtx → Bool → Outcome
unfolding incomplete
prepared again ctx c activity = incomplete ctx c activity
prepared ok ctx c activity = leave ok (record ctx { flush_size = c.payload_size }) reset true
prepared rc ctx c activity = leave rc ctx c activity

payload_case : Pool → TunnelCtx → CapsuleCtx → Bool → Outcome
unfolding incomplete prepared
payload_case pool ctx c activity =
    let (rc, cl) = prepare_datagram pool ctx.downstream_in c.payload_size in
    if is_nil ctx.downstream_in
    then incomplete ctx c activity
    else prepared rc (record ctx { downstream_in = cl }) c activity

context_read : Pool → TunnelCtx → CapsuleCtx → Bool → ℕ → ℕ → Chain → Outcome
unfolding payload_case
context_read pool ctx c activity value encoded cl =
    let ctx' = record ctx { downstream_in = cl } in
    let size = c.capsule_len - encoded in
    if not (value == datagram_context_id) || ltb c.capsule_len encoded
    then leave bad_request ctx' c activity
    else if size == 0
    then leave ok (record ctx' { downstream_empty_datagram = true }) reset true
    else payload_case pool ctx' (record c { payload_size = size; read_state = read_payload }) true

context_case : Pool → TunnelCtx → CapsuleCtx → Bool → Outcome
unfolding incomplete context_read
context_case pool ctx c activity = elim (read_varint ctx.downstream_in) [
  | none ↦ incomplete ctx c activity
  | some (value, encoded, cl) ↦ context_read pool ctx c activity value encoded cl
]

length_read : Pool → TunnelCtx → CapsuleCtx → Bool → ℕ → Chain → Outcome
unfolding context_case
length_read pool ctx c activity value cl =
    let ctx' = record ctx { downstream_in = cl } in
    let c' = record c { capsule_len = value } in
    if ltb max_datagram_capsule value
    then leave bad_request ctx' c' activity
    else context_case pool ctx' (record c' { read_state = read_context }) true

length_case : Pool → TunnelCtx → CapsuleCtx → Bool → Outcome
unfolding incomplete length_read
length_case pool ctx c activity = elim (read_varint ctx.downstream_in) [
  | none ↦ incomplete ctx c activity
  | some (value, encoded, cl) ↦ length_read pool ctx c activity value cl
]

type_read : Pool → TunnelCtx → CapsuleCtx → Bool → ℕ → Chain → Outcome
unfolding length_case
type_read pool ctx c activity value cl =
    let ctx' = record ctx { downstream_in = cl } in
    if not (value == capsule_datagram)
    then leave bad_request ctx' c activity
    else length_case pool ctx' (record c { read_state = read_length }) true

type_case : Pool → TunnelCtx → CapsuleCtx → Bool → Outcome
unfolding incomplete type_read
type_case pool ctx c activity = elim (read_varint ctx.downstream_in) [
  | none ↦ incomplete ctx c activity
  | some (value, encoded, cl) ↦ type_read pool ctx c activity value cl
]

state_case : CapsuleState → Pool → TunnelCtx → CapsuleCtx → Bool → Outcome
unfolding type_case length_case context_case payload_case
state_case read_type = type_case
state_case read_length = length_case
state_case read_context = context_case
state_case read_payload = payload_case
state_case CapsuleState.unused = λ pool ctx c activity. leave bad_request ctx c activity

unfoldable pub capsule_downstream_filter : Pool → TunnelCtx → Bool → Outcome
unfolding state_case
capsule_downstream_filter pool ctx activity = elim ctx.capsule [
  | none ↦ record { rc = internal_server_error; ctx = ctx; activity = activity }
  | some c ↦ state_case c.read_state pool ctx c activity
]
