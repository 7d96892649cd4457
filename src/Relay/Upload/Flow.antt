-- ===== src/Relay/Upload/Flow.antt =====
-- What one call of `send_upstream` (src/relay.c) passes on of the client's body.
use ngx_http_tunnel_module.Common.{
  ℕ, ◌+◌, ◌^◌, ◌≤◌, ◌<◌, ◌≡◌, refl, sym, ap, ◌∙◌, ◌⊎◌, inl, inr, Bool, false, not, ◌&&◌, ◌||◌,
  Option, none, some, length, drop, is_nil, ◌==◌, arith, Bool-cases,
}
use mathlib.Core.Path.{subst}
use ngx_http_tunnel_module.Rc.{ok}
use ngx_http_tunnel_module.Buffers.{Chain, chain_bytes, free_consumed_chain}
use ngx_http_tunnel_module.Buffers.ChainLaws.{chain_bytes-free_consumed_chain}
use ngx_http_tunnel_module.Context.{TunnelCtx, Filter}
use ngx_http_tunnel_module.Relay.{Net, Nginx, Step}
use ngx_http_tunnel_module.Relay.Upload.{
  sent_upstream, send_body, send_filtered, filter_upload, send_upstream,
}

-- `k` bytes have gone: they came from the front of the body, `pc->sent` counts them, and where a
-- payload was published they count against it.
abbrev pub Sent : {W : Type 0} → TunnelCtx → Net W → ℕ → ℕ → Step W → Type 0
Sent ctx net due k s =
    (chain_bytes s.ctx.downstream_in ≡ drop k (chain_bytes ctx.downstream_in))
    × (s.net.pc_sent ≡ net.pc_sent + k)
    × (k ≤ length (chain_bytes ctx.downstream_in))
    × (s.ctx.flush_size + k ≡ due)

-- A stream's `send_chain` sends a part of the front of the chain, the limit at most, and `pc->sent`
-- counts what it sends.
abbrev pub SendsPrefix : {W : Type 0} → Nginx W → Type 0
SendsPrefix {W} nginx =
    (net net' : Net W) (cl out : Chain) (limit : ℕ)
    → nginx.send_chain net cl limit ≡ (net', some out)
    → (k : ℕ) × (chain_bytes out ≡ drop k (chain_bytes cl))
      × (net'.pc_sent ≡ net.pc_sent + k)
      × (k ≤ length (chain_bytes cl))
      × ((limit ≡ 0) ⊎ (k ≤ limit))

abbrev trim : TunnelCtx → TunnelCtx
trim ctx = record ctx { downstream_in = free_consumed_chain ctx.downstream_in 0 }

module _ {W : Type 0} (nginx : Nginx W) (sends : SendsPrefix nginx) where
  sent_upstream-Sent :
      (ctx : TunnelCtx) (net : Net W) (activity : Bool)
      → 0 < ctx.flush_size
      → ctx.flush_size < 2 ^ 64
      → (r : Net W × Option Chain) → nginx.send_chain net ctx.downstream_in ctx.flush_size ≡ r
      → (sent_upstream nginx ctx net.pc_sent activity r).rc ≡ ok
      → (k : ℕ) × Sent ctx net ctx.flush_size k (sent_upstream nginx ctx net.pc_sent activity r)
  unfolding sent_upstream
  sent_upstream-Sent ctx net activity due wide (net', none) e h = cc
  sent_upstream-Sent ctx net activity due wide (net', some out) e h =
      let (k, left, count, within, limit) = sends net net' ctx.downstream_in out ctx.flush_size e in
      (k, (left, count, within, ground (arith, count, limit)))

  send_body-Sent :
      (ctx : TunnelCtx) (net : Net W) (activity : Bool)
      → 0 < ctx.flush_size
      → ctx.flush_size < 2 ^ 64
      → (send_body nginx ctx net activity).rc ≡ ok
      → (k : ℕ) × Sent ctx net ctx.flush_size k (send_body nginx ctx net activity)
  unfolding send_body
  send_body-Sent ctx net activity due wide =
      elim (Bool-cases
        (is_nil ctx.downstream_in && not (ctx.flush_size == 0) && ctx.downstream_eof)) [
          | inl ended ↦ rw ended (λ h. cc)
          | inr more ↦ elim (Bool-cases (is_nil ctx.downstream_in || not net.pc_write.ready)) [
            | inl waits ↦ rw (more, waits) (λ h. (0, (refl, omega arith, omega arith, omega arith)))
            | inr sends_now ↦
                rw (more, sends_now) (sent_upstream-Sent ctx net activity due wide _ refl)
          ]
        ]

  send_upstream-pending :
      (ctx : TunnelCtx) (net : Net W) (activity : Bool) (f : Filter)
      → ctx.downstream_filter ≡ some f
      → ctx.downstream_empty_datagram ≡ false
      → 0 < ctx.flush_size
      → send_upstream nginx ctx net activity ≡ send_body nginx (trim ctx) net activity
  unfolding send_upstream filter_upload send_filtered
  send_upstream-pending ctx net activity f e no_empty due =
      let pending : (ctx.flush_size == 0) ≡ false = ground arith in
      simp (e, no_empty, pending, send_upstream)

  -- While a payload that the filter has published is still to be sent, and no empty datagram, a
  -- call over a stream that does not fail sends a part of the front of the body, never more than
  -- is left of the payload, and what is left goes down by exactly what was sent.
  pub send_upstream-Sent :
      (ctx : TunnelCtx) (net : Net W) (activity : Bool) (f : Filter)
      → ctx.downstream_filter ≡ some f
      → ctx.downstream_empty_datagram ≡ false
      → 0 < ctx.flush_size
      → ctx.flush_size < 2 ^ 64
      → (send_upstream nginx ctx net activity).rc ≡ ok
      → (k : ℕ) × Sent ctx net ctx.flush_size k (send_upstream nginx ctx net activity)
  send_upstream-Sent ctx net activity f e no_empty due wide =
      subst (λ (s : Step W). s.rc ≡ ok → (k : ℕ) × Sent ctx net ctx.flush_size k s)
        (sym (send_upstream-pending ctx net activity f e no_empty due))
        (λ ok_rc.
          let (k, sent) = send_body-Sent (trim ctx) net activity due wide ok_rc in
          let same : chain_bytes (trim ctx).downstream_in ≡ chain_bytes ctx.downstream_in =
            chain_bytes-free_consumed_chain ctx.downstream_in 0 in
          (k, (sent.0 ∙ ap (drop k) same, sent.1, omega (arith, sent.2, ap length same), sent.3)))
