-- ===== src/Relay/Upload/Datagram.antt =====
-- From a capsule in the client's body to a datagram for upstream: one call of `send_upstream`
-- (src/relay.c) with the capsule filter installed.
use ngx_http_tunnel_module.Common.{
  ℕ, ◌+◌, ◌-◌, ◌≤◌, ◌<◌, ◌≡◌, refl, sym, ap, ◌∙◌, ◌⊎◌, inl, inr, Bool, true, false, Option, none,
  some, List, [], ◌∷◌, ◌++◌, length, length-take, drop-append_ge, take, drop, is_nil, All, ◌==◌,
  arith,
}
use mathlib.Core.Path.{subst}
use ngx_http_tunnel_module.Rc.{Rc, ok}
use ngx_http_tunnel_module.Buffers.{Chain, chain_bytes, free_consumed_chain}
use ngx_http_tunnel_module.Buffers.ChainLaws.{
  chain_bytes-free_consumed_chain, NoFlush, free_consumed_chain-NoFlush,
  free_consumed_chain-IsTrimmed,
}
use ngx_http_tunnel_module.Context.{TunnelCtx, CapsuleCtx, capsule_filter}
use ngx_http_tunnel_module.Capsule.Varint.Bytes.{IsByte}
use ngx_http_tunnel_module.Capsule.Datagram.Boundary.{both, first_datagram}
use ngx_http_tunnel_module.Capsule.Downstream.{capsule_downstream_filter}
use ngx_http_tunnel_module.Capsule.Downstream.Parser.{datagram, parse}
use ngx_http_tunnel_module.Capsule.Downstream.Refine.{
  IsPending, Implements, capsule_downstream_filter-parse,
}
use ngx_http_tunnel_module.Capsule.Downstream.Sizes.{Fits, parse-Fits}
use ngx_http_tunnel_module.Relay.{Net, Nginx, Step}
use ngx_http_tunnel_module.Relay.Upload.{
  call_downstream_filter, sent_upstream, send_body, send_filtered, downstream_filtered,
  filter_upload, send_upstream,
}

-- A UDP `send_chain` either sends the bytes up to the end of the first flush buffer as one datagram
-- and counts them in `pc->sent`, or leaves everything as it is. `datagrams` tells all that was
-- sent.
abbrev pub SendsDatagrams : {W : Type 0} → Nginx W → (W → List (List ℕ)) → Type 0
SendsDatagrams {W} nginx datagrams =
    (net net' : Net W) (cl out : Chain) (limit : ℕ)
    → nginx.send_chain net cl limit ≡ (net', some out)
    → ((datagrams net'.world ≡ datagrams net.world ++ (first_datagram cl ∷ []))
        × (net'.pc_sent ≡ net.pc_sent + length (first_datagram cl))
        × (first_datagram cl ++ chain_bytes out ≡ chain_bytes cl))
      ⊎ ((datagrams net'.world ≡ datagrams net.world) × (net'.pc_sent ≡ net.pc_sent) × (out ≡ cl))

-- The datagram `xs` of `n` bytes from the front of `ys` has gone out whole, and the body goes on
-- behind it; or it is still in the body, and `flush_size` tells that it is due.
abbrev pub Forwarded : {W : Type 0} → (W → List (List ℕ)) → Net W → ℕ → List ℕ → Step W → Type 0
Forwarded datagrams net n ys s =
    ((datagrams s.net.world ≡ datagrams net.world ++ (take n ys ∷ []))
      × (chain_bytes s.ctx.downstream_in ≡ drop n ys)
      × (s.ctx.flush_size ≡ 0))
    ⊎ ((datagrams s.net.world ≡ datagrams net.world)
        × (chain_bytes s.ctx.downstream_in ≡ ys)
        × (s.ctx.flush_size ≡ n))

abbrev trim : TunnelCtx → TunnelCtx
trim ctx = record ctx { downstream_in = free_consumed_chain ctx.downstream_in 0 }

is_nil_of_bytes : (cl : Chain) → 0 < length (chain_bytes cl) → is_nil cl ≡ false
is_nil_of_bytes [] h = elim h [ ]
is_nil_of_bytes (b ∷ cl) h = refl

module _ {W : Type 0} (nginx : Nginx W) (datagrams : W → List (List ℕ))
    (sends : SendsDatagrams nginx datagrams) where
  sent_upstream-Forwarded :
      (ctx : TunnelCtx) (net : Net W) (activity : Bool) (ys : List ℕ)
      → 0 < ctx.flush_size
      → ctx.flush_size ≤ length ys
      → chain_bytes ctx.downstream_in ≡ ys
      → first_datagram ctx.downstream_in ≡ take ctx.flush_size ys
      → (r : Net W × Option Chain) → nginx.send_chain net ctx.downstream_in ctx.flush_size ≡ r
      → (sent_upstream nginx ctx net.pc_sent activity r).rc ≡ ok
      → Forwarded datagrams net ctx.flush_size ys (sent_upstream nginx ctx net.pc_sent activity r)
  unfolding sent_upstream
  sent_upstream-Forwarded ctx net activity ys pos fits bytes first (net', none) e h = cc
  sent_upstream-Forwarded ctx net activity ys pos fits bytes first (net', some out) e h =
      let n : ℕ = ctx.flush_size in
      let size : length (take n ys) ≡ n = omega (arith, length-take n ys) in
      elim (sends net net' ctx.downstream_in out n e) [
        | inl (log, count, split) ↦
            let whole : take n ys ++ chain_bytes out ≡ ys =
              ap (λ d. d ++ chain_bytes out) (sym first) ∙ split ∙ bytes in
            let none_left : n - length (take n ys) ≡ 0 = omega (arith, size) in
            inl (
              log ∙ ap (λ d. datagrams net.world ++ (d ∷ [])) first,
              sym (ap (λ k. drop k (chain_bytes out)) none_left)
                  ∙ sym (drop-append_ge n (take n ys) (chain_bytes out) (omega (arith, size)))
                  ∙ ap (drop n) whole,
              ground (arith, count, ap length first, size),
            )
        | inr (log, count, same) ↦ inr (log, ap chain_bytes same ∙ bytes, ground (arith, count))
      ]

  send_body-Forwarded :
      (ctx : TunnelCtx) (net : Net W) (activity : Bool) (ys : List ℕ)
      → net.pc_write.ready ≡ true
      → 0 < ctx.flush_size
      → ctx.flush_size ≤ length ys
      → chain_bytes ctx.downstream_in ≡ ys
      → first_datagram ctx.downstream_in ≡ take ctx.flush_size ys
      → (send_body nginx ctx net activity).rc ≡ ok
      → Forwarded datagrams net ctx.flush_size ys (send_body nginx ctx net activity)
  unfolding send_body
  send_body-Forwarded ctx net activity ys ready pos fits bytes first =
      let some_left : is_nil ctx.downstream_in ≡ false =
        is_nil_of_bytes ctx.downstream_in (omega (arith, pos, fits, ap length bytes)) in
      let eq : send_body nginx ctx net activity
          ≡ sent_upstream nginx ctx net.pc_sent activity
              (nginx.send_chain net ctx.downstream_in ctx.flush_size) =
        simp (some_left, ready, send_body) in
      subst (λ (s : Step W). s.rc ≡ ok → Forwarded datagrams net ctx.flush_size ys s) (sym eq)
        (sent_upstream-Forwarded ctx net activity ys pos fits bytes first _ refl)

  -- Behind the filter, which has published a datagram.
  downstream_filtered-Forwarded :
      (net : Net W) (rc : Rc) (ctx : TunnelCtx) (activity : Bool) (n : ℕ) (ys : List ℕ)
      → net.pc_write.ready ≡ true
      → rc ≡ ok
      → chain_bytes ctx.downstream_in ≡ ys
      → ctx.flush_size ≡ n
      → ctx.downstream_empty_datagram ≡ false
      → first_datagram ctx.downstream_in ≡ take n ys
      → 0 < n
      → n ≤ length ys
      → (downstream_filtered nginx net rc ctx activity).rc ≡ ok
      → Forwarded datagrams net n ys (downstream_filtered nginx net rc ctx activity)
  unfolding downstream_filtered send_filtered
  downstream_filtered-Forwarded net rc ctx activity n ys ready e bytes size no_empty first pos
        fits =
      let eq : downstream_filtered nginx net ok ctx activity ≡ send_body nginx ctx net activity =
        ground (arith, size, pos, no_empty) in
      subst
        (λ (c : Rc).
          (downstream_filtered nginx net c ctx activity).rc ≡ ok
          → Forwarded datagrams net n ys (downstream_filtered nginx net c ctx activity))
        (sym e)
        (subst (λ (s : Step W). s.rc ≡ ok → Forwarded datagrams net n ys s) (sym eq)
          (subst
            (λ k.
              (send_body nginx ctx net activity).rc ≡ ok
              → Forwarded datagrams net k ys (send_body nginx ctx net activity))
            size
            (send_body-Forwarded ctx net activity ys ready (omega (arith, size, pos))
              (omega (arith, size, fits)) bytes (first ∙ ap (λ k. take k ys) (sym size)))))

  -- With a UDP connection that can be written to, memory, and a body of bytes in which no buffer is
  -- marked: when the flat parser finds a datagram in the body, a call that does not fail either
  -- sends exactly that datagram upstream as one and goes on behind it, or leaves it in the body
  -- with its size due. Nothing is due before the call.
  pub send_upstream-Forwarded :
      (ctx : TunnelCtx) (c : CapsuleCtx) (net : Net W) (activity : Bool) (n : ℕ) (ys : List ℕ)
      → ctx.downstream_filter ≡ some capsule_filter
      → ctx.capsule ≡ some c
      → IsPending c.read_state c.payload_size
      → ctx.flush_size ≡ 0
      → ctx.downstream_empty_datagram ≡ false
      → All IsByte (chain_bytes ctx.downstream_in)
      → NoFlush ctx.downstream_in
      → nginx.pool net.world ≡ both
      → net.pc_write.ready ≡ true
      → parse c (chain_bytes ctx.downstream_in) ≡ datagram n ys
      → (send_upstream nginx ctx net activity).rc ≡ ok
      → Forwarded datagrams net n ys (send_upstream nginx ctx net activity)
  unfolding send_upstream filter_upload call_downstream_filter
  send_upstream-Forwarded ctx c net activity n ys installed e pending idle no_empty bytes unmarked
        memory ready found =
      let t : TunnelCtx = trim ctx in
      let o = capsule_downstream_filter both t activity in
      let same : chain_bytes t.downstream_in ≡ chain_bytes ctx.downstream_in =
        chain_bytes-free_consumed_chain ctx.downstream_in 0 in
      let (pos, fits) : Fits (datagram n ys) = subst Fits found (parse-Fits c _ pending) in
      let (rc, _, left, size, empty, first) : Implements t o (datagram n ys) =
        subst (Implements t o) (ap (parse c) same ∙ found) (
          capsule_downstream_filter-parse t c activity e
            (record {
              bytes = rw same bytes;
              no_flush = free_consumed_chain-NoFlush ctx.downstream_in 0 unmarked;
              trimmed = free_consumed_chain-IsTrimmed ctx.downstream_in;
            })
            pending) in
      let none_due : (ctx.flush_size == 0) ≡ true = ground (arith, idle) in
      let eq : send_upstream nginx ctx net activity
          ≡ downstream_filtered nginx net o.rc o.ctx o.activity =
        simp (installed, none_due, no_empty, memory, send_upstream) in
      subst (λ (s : Step W). s.rc ≡ ok → Forwarded datagrams net n ys s) (sym eq)
        (downstream_filtered-Forwarded net o.rc o.ctx o.activity n ys ready rc left size
          (empty ∙ no_empty) first pos fits)
