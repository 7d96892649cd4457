-- ===== src/Relay/Download/Reserve.antt =====
-- The room that `recv_upstream` (src/relay.c) leaves behind what it receives.
use ngx_http_tunnel_module.Common.{
  ℕ, ◌+◌, ◌<◌, false, true, if_cases, ◌≤◌, ◌≡◌, refl, sym, ◌⊎◌, inl, inr, Bool, not, ◌&&◌, ◌||◌,
  List, [], ◌∷◌, ◌++◌, length, length-append, is_nil, ◌==◌, arith, Bool-cases, append-nil,
}
use ngx_http_tunnel_module.Buffers.{room, InBounds}
use ngx_http_tunnel_module.Context.{TunnelCtx, max_padding_payload}
use ngx_http_tunnel_module.Relay.{Net, Nginx, Step, Received, would_block, failed, received}
use ngx_http_tunnel_module.Relay.Download.{recv_size, upstream_received, recv_upstream}

-- `pc->recv` fills at most the size that it is given.
abbrev pub RecvFits : {W : Type 0} → Nginx W → Type 0
RecvFits {W} nginx =
    (net net' : Net W) (size : ℕ) (xs : List ℕ)
    → nginx.recv net size ≡ (net', received xs)
    → length xs ≤ size

-- The bytes end inside the receive buffer and in front of the reserve for padding.
abbrev pub KeepsReserve : TunnelCtx → Type 0
KeepsReserve ctx = InBounds ctx.recv_buf × (ctx.buffer_tail_reserve ≤ room ctx.recv_buf)

-- What a call does: the bytes `xs` stand behind those that were there, inside the buffer and in
-- front of the reserve, no more of them than one frame can tell where frames are written.
abbrev pub Filled : TunnelCtx → List ℕ → TunnelCtx → Type 0
Filled before xs after =
    (after.recv_buf.content ≡ before.recv_buf.content ++ xs)
    × (after.send_buf ≡ before.send_buf)
    × KeepsReserve after
    × ((before.buffer_tail_reserve ≡ 0) ⊎ (length xs ≤ max_padding_payload))

-- The call receives: upstream is readable, no empty datagram and, of datagrams, none at all is
-- waiting, and there is room in front of the reserve.
abbrev pub Receives : {W : Type 0} → TunnelCtx → Net W → Type 0
Receives ctx net =
    (net.pc ≡ true)
    × (net.pc_read.ready ≡ true)
    × (ctx.upstream_empty_datagram ≡ false)
    × ((net.datagram ≡ false) ⊎ (ctx.recv_buf.content ≡ []))
    × (ctx.buffer_tail_reserve < room ctx.recv_buf)

abbrev pub bytes_of : Received → List ℕ
bytes_of (received xs) = xs
bytes_of _ = []

-- The size that is asked for: all the room where there is no reserve, else what fits in front of
-- it, up to the payload of the largest frame.
abbrev pub IsAsked : TunnelCtx → ℕ → Type 0
IsAsked ctx size =
    ((ctx.buffer_tail_reserve ≡ 0) × (size ≡ room ctx.recv_buf))
    ⊎ ((0 < ctx.buffer_tail_reserve)
        × (size + ctx.buffer_tail_reserve ≡ room ctx.recv_buf)
        × (size ≤ max_padding_payload))
    ⊎ ((0 < ctx.buffer_tail_reserve)
        × (size ≡ max_padding_payload)
        × (size + ctx.buffer_tail_reserve ≤ room ctx.recv_buf))

-- `xs` is what the connection gives for this size where the call receives, and nothing else.
abbrev pub IsGiven : {W : Type 0} → Nginx W → TunnelCtx → Net W → List ℕ → Type 0
IsGiven nginx ctx net xs =
    (Receives ctx net
      × ((size : ℕ) × IsAsked ctx size × (0 < size) × (xs ≡ bytes_of (nginx.recv net size).1)))
    ⊎ ((¬ Receives ctx net) × (xs ≡ []))

Filled-nothing : (ctx : TunnelCtx) → KeepsReserve ctx → Filled ctx [] ctx
Filled-nothing ctx k = (sym (append-nil ctx.recv_buf.content), refl, k, inr (omega arith))

module _ {W : Type 0} (nginx : Nginx W) (fits : RecvFits nginx) where
  abbrev FilledFrom : TunnelCtx → Net W → TunnelCtx → Type 0
  FilledFrom ctx net after = (xs : List ℕ) × IsGiven nginx ctx net xs × Filled ctx xs after

  upstream_received-Filled :
      (ctx : TunnelCtx) (net : Net W) (activity : Bool)
      → KeepsReserve ctx
      → (r : Net W × Received) → nginx.recv net (recv_size ctx) ≡ r
      → Filled ctx (bytes_of r.1) (upstream_received nginx ctx activity r).ctx
  unfolding upstream_received recv_size
  upstream_received-Filled ctx net activity k (net', would_block) e = Filled-nothing ctx k
  upstream_received-Filled ctx net activity k (net', failed) e = Filled-nothing ctx k
  upstream_received-Filled ctx net activity k (net', received []) e =
      elim (Bool-cases net'.datagram) [
        | inl d ↦ rw d (Filled-nothing ctx k)
        | inr d ↦ rw d (Filled-nothing ctx k)
      ]
  upstream_received-Filled ctx net activity k (net', received (x ∷ xs)) e =
      ground
        (arith, fits net net' _ (x ∷ xs) e, k.0, k.1, length-append ctx.recv_buf.content (x ∷ xs))

  recv_size-fits :
      (ctx : TunnelCtx)
      → recv_size ctx == 0 ≡ false
      → (0 < recv_size ctx) × (ctx.buffer_tail_reserve + recv_size ctx ≤ room ctx.recv_buf)
  unfolding recv_size
  recv_size-fits ctx e = ground (arith, e)

  recv_size-zero :
      (ctx : TunnelCtx) → recv_size ctx == 0 ≡ true → room ctx.recv_buf ≤ ctx.buffer_tail_reserve
  unfolding recv_size
  recv_size-zero ctx e = ground (arith, e)

  recv_size-IsAsked : (ctx : TunnelCtx) → recv_size ctx == 0 ≡ false → IsAsked ctx (recv_size ctx)
  unfolding recv_size
  recv_size-IsAsked ctx e = ground (arith, e)

  waiting_nothing :
      (datagram : Bool) (content : List ℕ)
      → datagram && not (is_nil content) ≡ false
      → (datagram ≡ false) ⊎ (content ≡ [])
  waiting_nothing false content e = inl refl
  waiting_nothing true [] e = inr refl
  waiting_nothing true (x ∷ xs) e = ground (arith, e)

  nothing-FilledFrom :
      (ctx : TunnelCtx) (net : Net W)
      → KeepsReserve ctx
      → ¬ Receives ctx net
      → FilledFrom ctx net ctx
  nothing-FilledFrom ctx net k h = ([], inr (h, refl), Filled-nothing ctx k)

  -- From a receive buffer whose bytes end inside it and in front of the reserve, a call adds
  -- exactly what the connection gives, in its order, behind them. It asks for all that fits in
  -- front of the reserve, up to the payload of the largest frame where there is a reserve, if
  -- upstream is readable, no datagram is waiting and there is room; otherwise it adds nothing. The
  -- bytes still end inside the buffer and in front of the reserve, and one call adds no more of
  -- them than a frame can tell where there is a reserve.
  pub recv_upstream-Filled :
      (ctx : TunnelCtx) (net : Net W) (activity : Bool)
      → KeepsReserve ctx
      → (xs : List ℕ) × IsGiven nginx ctx net xs
        × Filled ctx xs (recv_upstream nginx ctx net activity).ctx
  unfolding recv_upstream
  recv_upstream-Filled ctx net activity k =
      let P : Step W → Type 0 = λ s. FilledFrom ctx net s.ctx in
      if_cases P
        (not net.pc
          || not net.pc_read.ready
          || ctx.upstream_empty_datagram
          || room ctx.recv_buf == 0)
        _ _ (λ e. nothing-FilledFrom ctx net k (λ (pc, ready, empty, datagrams, fit). ground arith))
        (λ e.
          if_cases P (net.datagram && not (is_nil ctx.recv_buf.content)) _ _
            (λ e'.
              nothing-FilledFrom ctx net k (λ (pc, ready, empty, datagrams, fit). ground arith))
            (λ e'.
              if_cases P (recv_size ctx == 0) _ _
                (λ e''.
                  nothing-FilledFrom ctx net k
                    (λ (pc, ready, empty, datagrams, fit). ground (arith, recv_size-zero ctx e'')))
                (λ e''. (
                  bytes_of (nginx.recv net (recv_size ctx)).1,
                  inl (
                    (
                      ground arith,
                      ground arith,
                      ground arith,
                      waiting_nothing net.datagram ctx.recv_buf.content e',
                      omega (arith, recv_size-fits ctx e''),
                    ),
                    (recv_size ctx, recv_size-IsAsked ctx e'', (recv_size-fits ctx e'').0, refl),
                  ),
                  upstream_received-Filled ctx net activity k (nginx.recv net (recv_size ctx)) refl,
                ))))
