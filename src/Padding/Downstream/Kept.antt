-- ===== src/Padding/Downstream/Kept.antt =====
-- What `tunnel_padding_downstream_filter` (src/padding.c) leaves alone.
use ngx_http_tunnel_module.Common.{
  ℕ, zero, suc, ◌+◌, ◌-◌, ◌*◌, ◌^◌, Bool, not, ◌&&◌, ◌||◌, Option, leb, ◌==◌, bit_or, ◌≡◌, if_cases,
  option_cases,
}
use ngx_http_tunnel_module.Rc.{error}
use ngx_http_tunnel_module.Buffers.{Buf, Chain}
use ngx_http_tunnel_module.Context.{
  TunnelCtx, PaddingCtx, PaddingState, header_b0, header_b1, header_b2, payload, discard, Filter,
  Outcome, first_paddings,
}
use ngx_http_tunnel_module.Context.Kept.{download_side, KeepsDownload}
use ngx_http_tunnel_module.Padding.Downstream.{
  Loop, leave, take_byte, has_bytes, Discarded, no_buffer, non_zero, dropped, discard_bytes,
  is_header_b0, incomplete, finish, discard_case, payload_case, header_read, b2_case, b1_case,
  b0_case, state_case, frames, padding_downstream_filter,
}

discarded_cases :
    (P : Outcome → Type 0) (d : Discarded) (x y : Outcome) (f : ℕ → Chain → Outcome)
    → P x
    → P y
    → ((n : ℕ) (cl : Chain) → P (f n cl))
    → P (elim d [ no_buffer ↦ x | non_zero ↦ y | dropped n cl ↦ f n cl ])
discarded_cases P no_buffer x y f h h' h'' = h
discarded_cases P non_zero x y f h h' h'' = h'
discarded_cases P (dropped n cl) x y f h h' h'' = h'' n cl

module _ (side : Option Filter × Buf × Buf × Buf × Bool × Bool) where
  abbrev LoopKeeps : Loop → Type 0
  LoopKeeps loop =
      (ctx : TunnelCtx) (p : PaddingCtx) (activity : Bool)
      → download_side ctx ≡ side
      → KeepsDownload side (loop ctx p activity)

  incomplete-LoopKeeps : LoopKeeps incomplete
  unfolding incomplete
  incomplete-LoopKeeps ctx p activity h =
      if_cases (KeepsDownload side)
        (ctx.downstream_eof
          && (not (is_header_b0 p.read_state)
              || not (p.payload_size == 0)
              || not (p.padding_size == 0)))
        _ _ (λ _. h) (λ _. h)

  module _ (loop : Loop) (keeps : LoopKeeps loop) where
    finish-KeepsDownload :
        (ctx : TunnelCtx) (p : PaddingCtx)
        → download_side ctx ≡ side
        → KeepsDownload side (finish loop ctx p)
    unfolding finish
    finish-KeepsDownload ctx p h =
        if_cases (KeepsDownload side) (leb first_paddings (p.downstream_count + 1)) _ _ (λ _. h)
          (λ _. keeps _ _ _ h)

    discard_case-LoopKeeps : LoopKeeps (discard_case loop)
    unfolding discard_case
    discard_case-LoopKeeps ctx p activity h =
        discarded_cases (KeepsDownload side) (discard_bytes ctx.downstream_in p.padding_size) _ _ _
          (incomplete-LoopKeeps ctx p activity h) h
          (λ n cl.
            if_cases (KeepsDownload side) (not (p.padding_size - n == 0)) _ _ (λ _. h)
              (λ _.
                finish-KeepsDownload (record ctx { downstream_in = cl })
                  (record p { padding_size = p.padding_size - n }) h))

    payload_case-LoopKeeps : LoopKeeps (payload_case loop)
    unfolding payload_case
    payload_case-LoopKeeps ctx p activity h =
        if_cases (KeepsDownload side) (p.payload_size == 0) _ _
          (λ _.
            if_cases (KeepsDownload side) (not (p.padding_size == 0)) _ _
              (λ _. discard_case-LoopKeeps ctx (record p { read_state = discard }) activity h)
              (λ _. finish-KeepsDownload ctx p h))
          (λ _.
            if_cases (KeepsDownload side) (has_bytes ctx.downstream_in) _ _ (λ _. h)
              (λ _. incomplete-LoopKeeps ctx p activity h))

    header_read-KeepsDownload :
        (ctx : TunnelCtx) (p : PaddingCtx)
        → download_side ctx ≡ side
        → KeepsDownload side (header_read loop ctx p)
    unfolding header_read
    header_read-KeepsDownload ctx p h =
        if_cases (KeepsDownload side) (not (p.payload_size == 0)) _ _
          (λ _. payload_case-LoopKeeps ctx (record p { read_state = payload }) _ h)
          (λ _.
            if_cases (KeepsDownload side) (not (p.padding_size == 0)) _ _
              (λ _. discard_case-LoopKeeps ctx (record p { read_state = discard }) _ h)
              (λ _. finish-KeepsDownload ctx p h))

    b2_case-LoopKeeps : LoopKeeps (b2_case loop)
    unfolding b2_case
    b2_case-LoopKeeps ctx p activity h =
        option_cases (KeepsDownload side) (take_byte ctx.downstream_in) _ _
          (λ _. incomplete-LoopKeeps ctx p activity h)
          (λ (x, cl) _.
            header_read-KeepsDownload (record ctx { downstream_in = cl })
              (record p { padding_size = x }) h)

    b1_case-LoopKeeps : LoopKeeps (b1_case loop)
    unfolding b1_case
    b1_case-LoopKeeps ctx p activity h =
        option_cases (KeepsDownload side) (take_byte ctx.downstream_in) _ _
          (λ _. incomplete-LoopKeeps ctx p activity h)
          (λ (x, cl) _.
            b2_case-LoopKeeps (record ctx { downstream_in = cl })
              (record p { payload_size = bit_or p.payload_size x; read_state = header_b2 }) _ h)

    b0_case-LoopKeeps : LoopKeeps (b0_case loop)
    unfolding b0_case
    b0_case-LoopKeeps ctx p activity h =
        option_cases (KeepsDownload side) (take_byte ctx.downstream_in) _ _
          (λ _. incomplete-LoopKeeps ctx p activity h)
          (λ (x, cl) _.
            b1_case-LoopKeeps (record ctx { downstream_in = cl })
              (record p { payload_size = x * 2 ^ 8; read_state = header_b1 }) _ h)

    state_case-LoopKeeps : (state : PaddingState) → LoopKeeps (state_case state loop)
    unfolding state_case
    state_case-LoopKeeps header_b0 = b0_case-LoopKeeps
    state_case-LoopKeeps header_b1 = b1_case-LoopKeeps
    state_case-LoopKeeps header_b2 = b2_case-LoopKeeps
    state_case-LoopKeeps payload = payload_case-LoopKeeps
    state_case-LoopKeeps discard = discard_case-LoopKeeps
    state_case-LoopKeeps PaddingState.unused = λ ctx p activity h. h

  frames-LoopKeeps : (out : Loop) → LoopKeeps out → (k : ℕ) → LoopKeeps (frames out k)
  unfolding frames
  frames-LoopKeeps out keeps zero = keeps
  frames-LoopKeeps out keeps (suc k) = λ ctx p activity h.
      state_case-LoopKeeps (frames out k) (frames-LoopKeeps out keeps k) p.read_state ctx p activity
        h

  pub padding_downstream_filter-KeepsDownload :
      (ctx : TunnelCtx) (activity : Bool)
      → download_side ctx ≡ side
      → KeepsDownload side (padding_downstream_filter ctx activity)
  unfolding padding_downstream_filter
  padding_downstream_filter-KeepsDownload ctx activity h =
      option_cases (KeepsDownload side) ctx.padding _ _ (λ _. h)
        (λ p _.
          if_cases (KeepsDownload side) (leb first_paddings p.downstream_count) _ _ (λ _. h)
            (λ _.
              frames-LoopKeeps (leave error) (λ ctx' p' activity' h'. h')
                (first_paddings - p.downstream_count) ctx p activity h))
