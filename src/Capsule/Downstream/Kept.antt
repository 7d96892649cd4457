-- ===== src/Capsule/Downstream/Kept.antt =====
-- What `tunnel_capsule_downstream_filter` (src/capsule.c) leaves alone.
use ngx_http_tunnel_module.Common.{
  ℕ, Bool, not, ◌&&◌, ◌||◌, Option, is_nil, ltb, ◌==◌, ◌-◌, ◌≡◌, if_cases, option_cases,
}
use ngx_http_tunnel_module.Rc.{Rc, ok, error, again, busy, done, declined, abort, status}
use ngx_http_tunnel_module.Buffers.{Buf, Chain, Pool}
use ngx_http_tunnel_module.Context.{
  TunnelCtx, CapsuleCtx, CapsuleState, read_type, read_length, read_context, read_payload, Filter,
  max_datagram_capsule,
}
use ngx_http_tunnel_module.Context.Kept.{download_side, KeepsDownload}
use ngx_http_tunnel_module.Capsule.Varint.{read_varint}
use ngx_http_tunnel_module.Capsule.Datagram.{prepare_datagram}
use ngx_http_tunnel_module.Capsule.Downstream.{
  capsule_datagram, datagram_context_id, is_read_type, incomplete, prepared, payload_case,
  context_read, context_case, length_read, length_case, type_read, type_case, state_case,
  capsule_downstream_filter,
}

module _ (side : Option Filter × Buf × Buf × Buf × Bool × Bool) where
  incomplete-KeepsDownload :
      (ctx : TunnelCtx) (c : CapsuleCtx) (activity : Bool)
      → download_side ctx ≡ side
      → KeepsDownload side (incomplete ctx c activity)
  unfolding incomplete
  incomplete-KeepsDownload ctx c activity h =
      if_cases (KeepsDownload side)
        (ctx.downstream_eof && (not (is_read_type c.read_state) || not (is_nil ctx.downstream_in)))
        _ _ (λ _. h) (λ _. h)

  prepared-KeepsDownload :
      (rc : Rc) (ctx : TunnelCtx) (c : CapsuleCtx) (activity : Bool)
      → download_side ctx ≡ side
      → KeepsDownload side (prepared rc ctx c activity)
  unfolding prepared
  prepared-KeepsDownload again ctx c activity h = incomplete-KeepsDownload ctx c activity h
  prepared-KeepsDownload ok ctx c activity h = h
  prepared-KeepsDownload error ctx c activity h = h
  prepared-KeepsDownload busy ctx c activity h = h
  prepared-KeepsDownload done ctx c activity h = h
  prepared-KeepsDownload declined ctx c activity h = h
  prepared-KeepsDownload abort ctx c activity h = h
  prepared-KeepsDownload (status n) ctx c activity h = h

  payload_case-KeepsDownload :
      (pool : Pool) (ctx : TunnelCtx) (c : CapsuleCtx) (activity : Bool)
      → download_side ctx ≡ side
      → KeepsDownload side (payload_case pool ctx c activity)
  unfolding payload_case
  payload_case-KeepsDownload pool ctx c activity h =
      let (rc, cl) = prepare_datagram pool ctx.downstream_in c.payload_size in
      if_cases (KeepsDownload side) (is_nil ctx.downstream_in) _ _
        (λ _. incomplete-KeepsDownload ctx c activity h)
        (λ _. prepared-KeepsDownload rc (record ctx { downstream_in = cl }) c activity h)

  context_read-KeepsDownload :
      (pool : Pool) (ctx : TunnelCtx) (c : CapsuleCtx) (activity : Bool) (value encoded : ℕ)
      (cl : Chain)
      → download_side ctx ≡ side
      → KeepsDownload side (context_read pool ctx c activity value encoded cl)
  unfolding context_read
  context_read-KeepsDownload pool ctx c activity value encoded cl h =
      let size = c.capsule_len - encoded in
      if_cases (KeepsDownload side)
        (not (value == datagram_context_id) || ltb c.capsule_len encoded) _ _ (λ _. h)
        (λ _.
          if_cases (KeepsDownload side) (size == 0) _ _ (λ _. h)
            (λ _.
              payload_case-KeepsDownload pool (record ctx { downstream_in = cl })
                (record c { payload_size = size; read_state = read_payload }) _ h))

  context_case-KeepsDownload :
      (pool : Pool) (ctx : TunnelCtx) (c : CapsuleCtx) (activity : Bool)
      → download_side ctx ≡ side
      → KeepsDownload side (context_case pool ctx c activity)
  unfolding context_case
  context_case-KeepsDownload pool ctx c activity h =
      option_cases (KeepsDownload side) (read_varint ctx.downstream_in) _ _
        (λ _. incomplete-KeepsDownload ctx c activity h)
        (λ (value, encoded, cl) _.
          context_read-KeepsDownload pool ctx c activity value encoded cl h)

  length_case-KeepsDownload :
      (pool : Pool) (ctx : TunnelCtx) (c : CapsuleCtx) (activity : Bool)
      → download_side ctx ≡ side
      → KeepsDownload side (length_case pool ctx c activity)
  unfolding length_case length_read
  length_case-KeepsDownload pool ctx c activity h =
      option_cases (KeepsDownload side) (read_varint ctx.downstream_in) _ _
        (λ _. incomplete-KeepsDownload ctx c activity h)
        (λ (value, encoded, cl) _.
          if_cases (KeepsDownload side) (ltb max_datagram_capsule value) _ _ (λ _. h)
            (λ _.
              context_case-KeepsDownload pool (record ctx { downstream_in = cl })
                (record c { capsule_len = value; read_state = read_context }) _ h))

  type_case-KeepsDownload :
      (pool : Pool) (ctx : TunnelCtx) (c : CapsuleCtx) (activity : Bool)
      → download_side ctx ≡ side
      → KeepsDownload side (type_case pool ctx c activity)
  unfolding type_case type_read
  type_case-KeepsDownload pool ctx c activity h =
      option_cases (KeepsDownload side) (read_varint ctx.downstream_in) _ _
        (λ _. incomplete-KeepsDownload ctx c activity h)
        (λ (value, encoded, cl) _.
          if_cases (KeepsDownload side) (not (value == capsule_datagram)) _ _ (λ _. h)
            (λ _.
              length_case-KeepsDownload pool (record ctx { downstream_in = cl })
                (record c { read_state = read_length }) _ h))

  state_case-KeepsDownload :
      (state : CapsuleState) (pool : Pool) (ctx : TunnelCtx) (c : CapsuleCtx) (activity : Bool)
      → download_side ctx ≡ side
      → KeepsDownload side (state_case state pool ctx c activity)
  unfolding state_case
  state_case-KeepsDownload read_type pool ctx c activity h =
      type_case-KeepsDownload pool ctx c activity h
  state_case-KeepsDownload read_length pool ctx c activity h =
      length_case-KeepsDownload pool ctx c activity h
  state_case-KeepsDownload read_context pool ctx c activity h =
      context_case-KeepsDownload pool ctx c activity h
  state_case-KeepsDownload read_payload pool ctx c activity h =
      payload_case-KeepsDownload pool ctx c activity h
  state_case-KeepsDownload CapsuleState.unused pool ctx c activity h = h

  pub capsule_downstream_filter-KeepsDownload :
      (pool : Pool) (ctx : TunnelCtx) (activity : Bool)
      → download_side ctx ≡ side
      → KeepsDownload side (capsule_downstream_filter pool ctx activity)
  unfolding capsule_downstream_filter
  capsule_downstream_filter-KeepsDownload pool ctx activity h =
      option_cases (KeepsDownload side) ctx.capsule _ _ (λ _. h)
        (λ c _. state_case-KeepsDownload c.read_state pool ctx c activity h)
