-- ===== src/Padding/Downstream.antt =====
-- `tunnel_padding_downstream_filter` of src/padding.c: take the client's frames apart.
pub mod Kept
pub mod Header
pub mod Shape
pub mod Rounds
pub mod Reading
use ngx_http_tunnel_module.Common.{
  ℕ, zero, suc, ◌+◌, ◌-◌, ◌*◌, ◌^◌, min, bit_or, Bool, true, false, not, ◌&&◌, ◌||◌, Option, none,
  some, List, [], ◌∷◌, length, take, drop, leb, ltb, ◌==◌, if◌then◌else◌,
}
use ngx_http_tunnel_module.Rc.{Rc, ok, again, error, bad_request}
use ngx_http_tunnel_module.Buffers.{ChainBuf, Chain, buf_size, free_consumed_chain}
use ngx_http_tunnel_module.Context.{
  PaddingState, header_b0, header_b1, header_b2, payload, discard, PaddingCtx, TunnelCtx, Outcome,
  first_paddings,
}

-- The padding state is a local value `p` here, and is written back where the filter returns.
abbrev pub leave : Rc → TunnelCtx → PaddingCtx → Bool → Outcome
leave rc ctx p activity = record {
  rc = rc;
  ctx = record ctx { padding = some p };
  activity = activity;
}

abbrev behind : ChainBuf → Option (ℕ × Chain) → Option (ℕ × Chain)
behind b none = none
behind b (some (x, cl)) = some (x, b ∷ cl)

-- `padding_next_chain` and `*cl->buf->pos++`: the byte, and the chain from the same first link on.
pub take_byte : Chain → Option (ℕ × Chain)
take_byte [] = none
take_byte (b ∷ cl) = elim b.bytes [
  | [] ↦ behind b (take_byte cl)
  | x ∷ xs ↦ some (x, record b { bytes = xs } ∷ cl)
]

-- `padding_next_chain` alone: is there a buffer with bytes left?
pub has_bytes : Chain → Bool
has_bytes [] = false
has_bytes (b ∷ cl) = not (buf_size b == 0) || has_bytes cl

-- The case PADDING_READ_DISCARD looks at the first buffer that has bytes left: there may be none,
-- or a byte of the padding in it may not be zero, or all that it holds of the padding goes.
pub data Discarded : Type 0 where
  no_buffer non_zero : Discarded
  dropped : ℕ → Chain → Discarded

abbrev behind_dropped : ChainBuf → Discarded → Discarded
behind_dropped b (dropped n cl) = dropped n (b ∷ cl)
behind_dropped b d = d

-- `while (p < last) if (*p++ != 0)`
unfoldable pub all_zero : List ℕ → Bool
all_zero [] = true
all_zero (x ∷ xs) = x == 0 && all_zero xs

unfoldable pub discard_bytes : Chain → ℕ → Discarded
unfolding all_zero
discard_bytes [] padding_size = no_buffer
discard_bytes (b ∷ cl) padding_size =
    let later = behind_dropped b (discard_bytes cl padding_size) in
    let n = min (buf_size b) padding_size in
    if buf_size b == 0
    then later
    else if not (all_zero (take n b.bytes))
    then non_zero
    else dropped n (record b { bytes = drop n b.bytes } ∷ cl)

abbrev is_header_b0 : PaddingState → Bool
is_header_b0 header_b0 = true
is_header_b0 _ = false

-- The label `incomplete`.
pub incomplete : TunnelCtx → PaddingCtx → Bool → Outcome
incomplete ctx p activity =
    if ctx.downstream_eof
      && (not (is_header_b0 p.read_state) || not (p.payload_size == 0) || not (p.padding_size == 0))
    then leave bad_request ctx p activity
    else leave again ctx p activity

-- Another round of `for (;;)`, from the state that is passed.
abbrev pub Loop : Type 0
Loop = TunnelCtx → PaddingCtx → Bool → Outcome

-- The label `finish`, and the loop around it.
pub finish : Loop → TunnelCtx → PaddingCtx → Outcome
finish loop ctx p =
    let ctx' = record ctx { downstream_in = free_consumed_chain ctx.downstream_in 0 } in
    let p' = record p {
      read_state = header_b0;
      payload_size = 0;
      padding_size = 0;
      downstream_count = p.downstream_count + 1;
    } in
    if leb first_paddings (p.downstream_count + 1)
    then leave ok (record ctx' { downstream_filter = none }) p' true
    else loop ctx' p' true

-- The cases of the `switch`, last one first. A `continue` has just set `read_state` to a case that
-- stands further down, and the loop goes on there; only `finish` goes back.
pub discard_case : Loop → TunnelCtx → PaddingCtx → Bool → Outcome
discard_case loop ctx p activity = elim (discard_bytes ctx.downstream_in p.padding_size) [
  | no_buffer ↦ incomplete ctx p activity
  | non_zero ↦ leave bad_request ctx p activity
  | dropped n cl ↦
      let ctx' = record ctx { downstream_in = cl } in
      let p' = record p { padding_size = p.padding_size - n } in
      if not (p.padding_size - n == 0) then leave ok ctx' p' true else finish loop ctx' p'
]

pub payload_case : Loop → TunnelCtx → PaddingCtx → Bool → Outcome
payload_case loop ctx p activity =
    if p.payload_size == 0
    then if not (p.padding_size == 0)
      then discard_case loop ctx (record p { read_state = discard }) activity
      else finish loop ctx p
    else if has_bytes ctx.downstream_in
    then leave ok (record ctx { flush_size = p.payload_size }) (record p { payload_size = 0 })
        activity
    else incomplete ctx p activity

-- Behind the third header byte.
pub header_read : Loop → TunnelCtx → PaddingCtx → Outcome
header_read loop ctx p =
    if not (p.payload_size == 0)
    then payload_case loop ctx (record p { read_state = payload }) true
    else if not (p.padding_size == 0)
    then discard_case loop ctx (record p { read_state = discard }) true
    else finish loop ctx p

b2_case : Loop → TunnelCtx → PaddingCtx → Bool → Outcome
b2_case loop ctx p activity = elim (take_byte ctx.downstream_in) [
  | none ↦ incomplete ctx p activity
  | some (x, cl) ↦
      header_read loop (record ctx { downstream_in = cl }) (record p { padding_size = x })
]

b1_case : Loop → TunnelCtx → PaddingCtx → Bool → Outcome
b1_case loop ctx p activity = elim (take_byte ctx.downstream_in) [
  | none ↦ incomplete ctx p activity
  | some (x, cl) ↦
      b2_case loop (record ctx { downstream_in = cl })
        (record p { payload_size = bit_or p.payload_size x; read_state = header_b2 }) true
]

pub b0_case : Loop → TunnelCtx → PaddingCtx → Bool → Outcome
b0_case loop ctx p activity = elim (take_byte ctx.downstream_in) [
  | none ↦ incomplete ctx p activity
  | some (x, cl) ↦
      b1_case loop (record ctx { downstream_in = cl })
        (record p { payload_size = x * 2 ^ 8; read_state = header_b1 }) true
]

state_case : PaddingState → Loop → TunnelCtx → PaddingCtx → Bool → Outcome
state_case header_b0 = b0_case
state_case header_b1 = b1_case
state_case header_b2 = b2_case
state_case payload = payload_case
state_case discard = discard_case
state_case PaddingState.unused = λ loop ctx p activity. leave bad_request ctx p activity

-- The loop, by the frames that it may finish. `out` stands for what happens when they run out.
frames : Loop → ℕ → Loop
frames out zero = out
frames out (suc k) = λ ctx p activity. state_case p.read_state (frames out k) ctx p activity

-- A call finishes at most `first_paddings - downstream_count` frames. The filter is installed
-- together with a padding context; a null pointer there is the case `none`.
pub padding_downstream_filter : TunnelCtx → Bool → Outcome
unfolding take_byte has_bytes discard_bytes incomplete finish discard_case payload_case header_read
    b2_case b1_case b0_case state_case frames
padding_downstream_filter ctx activity = elim ctx.padding [
  | none ↦ record { rc = error; ctx = ctx; activity = activity }
  | some p ↦
      if leb first_paddings p.downstream_count
      then leave again (record ctx { downstream_filter = none }) p activity
      else frames (leave error) (first_paddings - p.downstream_count) ctx p activity
]
