-- ===== src/Padding/Downstream/Rounds.antt =====
-- The rounds of the loop in `tunnel_padding_downstream_filter` (src/padding.c).
use ngx_http_tunnel_module.Common.{
  ℕ, zero, suc, ◌%◌, replicate, All-append_right, sym, ◌+◌, ◌-◌, ◌*◌, ◌^◌, ◌≤◌, ◌≡◌, refl, inl, inr,
  some, ◌∷◌, All, arith, Bool, true, bit_or, Bool-cases, leb, ==_iff, ◌==◌,
}
use mathlib.Core.Path.{subst}
use ngx_http_tunnel_module.Rc.{error}
use ngx_http_tunnel_module.Buffers.{chain_bytes}
use ngx_http_tunnel_module.Buffers.ChainLaws.{chain_bytes-free_consumed_chain}
use ngx_http_tunnel_module.Context.{
  PaddingState, header_b0, header_b1, header_b2, payload, discard, PaddingCtx, TunnelCtx,
  first_paddings,
}
use ngx_http_tunnel_module.Capsule.Varint.Bytes.{IsByte}
use ngx_http_tunnel_module.Padding.Downstream.{
  Loop, leave, finish, discard_case, payload_case, header_read, b0_case, b1_case, b2_case,
  state_case, frames, padding_downstream_filter, has_bytes, discard_bytes, Discarded, no_buffer,
  non_zero, dropped,
}
use ngx_http_tunnel_module.Padding.Downstream.Header.{take_byte-cases, discard_bytes-dropped}
use ngx_http_tunnel_module.Padding.Downstream.Shape.{
  Shape, IsShaped, IsGood, Ready, LoopIsGood, leave-IsGood, bit_or_low, incomplete-IsGood,
  with_chain,
}

module _ (loop : Loop) (k : ℕ) (good : LoopIsGood loop k) where
  finish-IsGood :
      (ctx : TunnelCtx) (p : PaddingCtx) → Ready (suc k) ctx p → IsGood (finish loop ctx p)
  unfolding finish
  finish-IsGood ctx p r = elim (Bool-cases (leb first_paddings (p.downstream_count + 1))) [
    | inl over ↦
        rw over
          (record { answer = tt; shaped = ((refl, refl), omega (arith, r.count)); flush = r.flush })
    | inr more ↦ rw more (
        good _ _ _
          (record {
            bytes = rw chain_bytes-free_consumed_chain r.bytes;
            flush = r.flush;
            count = ground arith;
            left = omega (arith, r.left);
          })
          (refl, refl))
  ]

  discard_case-IsGood :
      (ctx : TunnelCtx) (p : PaddingCtx) (activity : Bool)
      → Ready (suc k) ctx p
      → p.read_state ≡ discard
      → Shape p.read_state p.payload_size p.padding_size
      → IsGood (discard_case loop ctx p activity)
  unfolding discard_case
  discard_case-IsGood ctx p activity r e s =
      go (discard_bytes ctx.downstream_in p.padding_size) refl
    where
      go :
          (d : Discarded)
          → discard_bytes ctx.downstream_in p.padding_size ≡ d
          → IsGood (discard_case loop ctx p activity)
      go no_buffer q = rw (q, discard_case) (incomplete-IsGood (suc k) ctx p activity r s)
      go non_zero q =
          rw (q, discard_case)
            (leave-IsGood _ ctx p activity refl s (omega (arith, r.count)) r.flush)
      go (dropped n cl) q =
          let (le, gone) = discard_bytes-dropped ctx.downstream_in p.padding_size q in
          let bytes : All IsByte (chain_bytes cl) =
            All-append_right IsByte (replicate n 0) (chain_bytes cl) (rw gone at r.bytes) in
          let shape : (p.payload_size ≡ 0) × (p.padding_size ≤ 255) = rw e at s in
          elim (Bool-cases (p.padding_size - n == 0)) [
            | inl all ↦
                rw (q, discard_case)
                  (rw all (
                    finish-IsGood (record ctx { downstream_in = cl })
                      (record p { padding_size = p.padding_size - n })
                      (with_chain (suc k) ctx p (record p { padding_size = p.padding_size - n }) cl
                        r bytes refl)))
            | inr part ↦
                rw (q, discard_case)
                  (rw part (record {
                    answer = tt;
                    shaped = (
                      subst (λ t. Shape t p.payload_size (p.padding_size - n)) (sym e)
                          (shape.0, omega (arith, shape.1)),
                      omega (arith, r.count),
                    );
                    flush = r.flush;
                  }))
          ]

  payload_case-IsGood :
      (ctx : TunnelCtx) (p : PaddingCtx) (activity : Bool)
      → Ready (suc k) ctx p
      → p.read_state ≡ payload
      → Shape p.read_state p.payload_size p.padding_size
      → IsGood (payload_case loop ctx p activity)
  unfolding payload_case
  payload_case-IsGood ctx p activity r e s =
      let shape : (p.payload_size ≤ 65535) × (p.padding_size ≤ 255) = rw e at s in
      elim (Bool-cases (p.payload_size == 0)) [
        | inl sent ↦ rw sent (elim (Bool-cases (p.padding_size == 0)) [
          | inl bare ↦ rw bare (finish-IsGood ctx p r)
          | inr padded ↦ rw padded (
              discard_case-IsGood ctx (record p { read_state = discard }) activity
                (with_chain (suc k) ctx p _ ctx.downstream_in r r.bytes refl) refl
                ((==_iff _ _).0 sent, shape.1))
        ])
        | inr pending ↦ rw pending (elim (Bool-cases (has_bytes ctx.downstream_in)) [
          | inl here ↦ rw here (record {
            answer = tt;
            shaped = (
              subst (λ t. Shape t 0 p.padding_size) (sym e) (omega arith, shape.1),
              omega (arith, r.count),
            );
            flush = shape.0;
          })
          | inr later ↦ rw later (incomplete-IsGood (suc k) ctx p activity r s)
        ])
      ]

  header_read-IsGood :
      (ctx : TunnelCtx) (p : PaddingCtx)
      → Ready (suc k) ctx p
      → p.payload_size ≤ 65535
      → p.padding_size ≤ 255
      → IsGood (header_read loop ctx p)
  unfolding header_read
  header_read-IsGood ctx p r n m = elim (Bool-cases (p.payload_size == 0)) [
    | inl none_to_send ↦ rw none_to_send (elim (Bool-cases (p.padding_size == 0)) [
      | inl bare ↦ rw bare (finish-IsGood ctx p r)
      | inr padded ↦ rw padded (
          discard_case-IsGood ctx (record p { read_state = discard }) true
            (with_chain (suc k) ctx p _ ctx.downstream_in r r.bytes refl) refl
            ((==_iff _ _).0 none_to_send, m))
    ])
    | inr some_to_send ↦ rw some_to_send (
        payload_case-IsGood ctx (record p { read_state = payload }) true
          (with_chain (suc k) ctx p _ ctx.downstream_in r r.bytes refl) refl (n, m))
  ]

  b2_case-IsGood :
      (ctx : TunnelCtx) (p : PaddingCtx) (activity : Bool)
      → Ready (suc k) ctx p
      → p.read_state ≡ header_b2
      → Shape p.read_state p.payload_size p.padding_size
      → IsGood (b2_case loop ctx p activity)
  unfolding b2_case
  b2_case-IsGood ctx p activity r e s =
      let shape : (p.payload_size ≤ 65535) × (p.padding_size ≡ 0) = rw e at s in
      elim (take_byte-cases ctx.downstream_in) [
        | inl (t, q) ↦ rw (t, b2_case) (incomplete-IsGood (suc k) ctx p activity r s)
        | inr (x, cl, t, q) ↦
            let bytes : All IsByte (x ∷ chain_bytes cl) = rw q at r.bytes in
            rw (t, b2_case)
              (header_read-IsGood (record ctx { downstream_in = cl })
                (record p { padding_size = x })
                (with_chain (suc k) ctx p (record p { padding_size = x }) cl r bytes.1 refl) shape.0
                (omega (arith, bytes.0)))
      ]

  b1_case-IsGood :
      (ctx : TunnelCtx) (p : PaddingCtx) (activity : Bool)
      → Ready (suc k) ctx p
      → p.read_state ≡ header_b1
      → Shape p.read_state p.payload_size p.padding_size
      → IsGood (b1_case loop ctx p activity)
  unfolding b1_case
  b1_case-IsGood ctx p activity r e s =
      let shape : (p.payload_size % 256 ≡ 0) × (p.payload_size ≤ 65535) × (p.padding_size ≡ 0) =
        rw e at s in
      elim (take_byte-cases ctx.downstream_in) [
        | inl (t, q) ↦ rw (t, b1_case) (incomplete-IsGood (suc k) ctx p activity r s)
        | inr (x, cl, t, q) ↦
            let bytes : All IsByte (x ∷ chain_bytes cl) = rw q at r.bytes in
            let p' : PaddingCtx = record p {
              payload_size = bit_or p.payload_size x;
              read_state = header_b2;
            } in
            let sum : bit_or p.payload_size x ≡ p.payload_size + x =
              bit_or_low p.payload_size x shape.0 bytes.0 in
            rw (t, b1_case)
              (b2_case-IsGood (record ctx { downstream_in = cl }) p' true
                (with_chain (suc k) ctx p p' cl r bytes.1 refl) refl
                (omega (arith, sum, bytes.0, shape.0, shape.1), shape.2))
      ]

  b0_case-IsGood :
      (ctx : TunnelCtx) (p : PaddingCtx) (activity : Bool)
      → Ready (suc k) ctx p
      → p.read_state ≡ header_b0
      → Shape p.read_state p.payload_size p.padding_size
      → IsGood (b0_case loop ctx p activity)
  unfolding b0_case
  b0_case-IsGood ctx p activity r e s =
      let shape : (p.payload_size ≡ 0) × (p.padding_size ≡ 0) = rw e at s in
      elim (take_byte-cases ctx.downstream_in) [
        | inl (t, q) ↦ rw (t, b0_case) (incomplete-IsGood (suc k) ctx p activity r s)
        | inr (x, cl, t, q) ↦
            let bytes : All IsByte (x ∷ chain_bytes cl) = rw q at r.bytes in
            let p' : PaddingCtx = record p { payload_size = x * 2 ^ 8; read_state = header_b1 } in
            rw (t, b0_case)
              (b1_case-IsGood (record ctx { downstream_in = cl }) p' true
                (with_chain (suc k) ctx p p' cl r bytes.1 refl) refl
                (omega arith, omega (arith, bytes.0), shape.1))
      ]

  state_case-IsGood :
      (s : PaddingState) (ctx : TunnelCtx) (p : PaddingCtx) (activity : Bool)
      → Ready (suc k) ctx p
      → p.read_state ≡ s
      → Shape p.read_state p.payload_size p.padding_size
      → IsGood (state_case s loop ctx p activity)
  unfolding state_case
  state_case-IsGood header_b0 ctx p activity r e h = b0_case-IsGood ctx p activity r e h
  state_case-IsGood header_b1 ctx p activity r e h = b1_case-IsGood ctx p activity r e h
  state_case-IsGood header_b2 ctx p activity r e h = b2_case-IsGood ctx p activity r e h
  state_case-IsGood payload ctx p activity r e h = payload_case-IsGood ctx p activity r e h
  state_case-IsGood discard ctx p activity r e h = discard_case-IsGood ctx p activity r e h
  state_case-IsGood PaddingState.unused ctx p activity r e h =
      let impossible : ⊥ = subst (λ t. Shape t p.payload_size p.padding_size) e h in
      absurd impossible

frames-IsGood : (out : Loop) (k : ℕ) → LoopIsGood (frames out k) k
unfolding frames
frames-IsGood out zero ctx p activity r s = absurd (omega (arith, r.count, r.left))
frames-IsGood out (suc k) ctx p activity r s =
    state_case-IsGood (frames out k) k (frames-IsGood out k) p.read_state ctx p activity r refl s

-- On any input of bytes, cut anywhere, the filter ends with NGX_OK, NGX_AGAIN or 400. The sizes it
-- keeps are those that the frame format allows at the place where it stopped, at most eight frames
-- are counted, and a payload that it publishes in `flush_size` has at most 65535 bytes.
pub padding_downstream_filter-IsGood :
    (ctx : TunnelCtx) (p : PaddingCtx) (activity : Bool)
    → ctx.padding ≡ some p
    → IsShaped (some p)
    → All IsByte (chain_bytes ctx.downstream_in)
    → ctx.flush_size ≤ 65535
    → IsGood (padding_downstream_filter ctx activity)
unfolding padding_downstream_filter
padding_downstream_filter-IsGood ctx p activity e shaped bytes flush =
    elim (Bool-cases (leb first_paddings p.downstream_count)) [
      | inl over ↦
          rw (e, padding_downstream_filter)
            (rw over (record { answer = tt; shaped = shaped; flush = flush }))
      | inr more ↦
          rw (e, padding_downstream_filter)
            (rw more (
              frames-IsGood (leave error) (first_paddings - p.downstream_count) ctx p activity
                (record { bytes = bytes; flush = flush; count = ground arith; left = omega arith })
                shaped.0))
    ]
