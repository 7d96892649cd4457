-- ===== src/Relay/Download/Order.antt =====
-- The order of the bytes that `recv_upstream` (src/relay.c) moves, and what nginx does with them.
pub mod Sending
use ngx_http_tunnel_module.Common.{
  ℕ, ◌≤◌, ◌≡◌, refl, sym, ap, ◌∙◌, inl, inr, Bool, true, not, ◌&&◌, ◌||◌, none, List, [], ◌∷◌, ◌++◌,
  length, is_nil, ◌==◌, if◌then◌else◌, arith, Bool-cases, append-nil, append_assoc,
  eq-nil_of_length,
}
use mathlib.Core.Path.{subst}
use ngx_http_tunnel_module.Rc.{Rc, ok, error, again, done, busy, declined, abort, status}
use ngx_http_tunnel_module.Buffers.{Buf, room}
use ngx_http_tunnel_module.Context.{TunnelCtx}
use ngx_http_tunnel_module.Relay.{
  Net, Nginx, Step, Received, would_block, failed, received, Output, nothing, data_only,
  header_only, Written, downstream_output_idle,
}
use ngx_http_tunnel_module.Relay.Download.{
  recv_size, upstream_received, recv_upstream, next_send_buf, rewind_drained, output_answer,
  after_output, write_out, filter_download, send_buffers, send_downstream,
}

abbrev bytes_of : Received → List ℕ
bytes_of (received xs) = xs
bytes_of _ = []

-- The buffers in front of the chain that is handed over are drained.
abbrev pub Handed : Output → Buf → Buf → Type 0
Handed data_only h b = h.content ≡ []
Handed header_only h b = b.content ≡ []
Handed _ h b = Unit {0}

-- `given` tells all that upstream has sent, `taken` all that nginx has taken for the client. The
-- connection to upstream gives bytes in order; the output filters take bytes from the front of the
-- header buffer and then of the send buffer, and add none.
pub record IsPipe {W : Type 0} (nginx : Nginx W) (given taken : W → List ℕ) : Type 0 where
  pub recv_given :
      (net : Net W) (size : ℕ)
      → given (nginx.recv net size).0.world ≡ given net.world ++ bytes_of (nginx.recv net size).1
  pub recv_taken : (net : Net W) (size : ℕ) → taken (nginx.recv net size).0.world ≡ taken net.world
  pub shutdown_given : (w : W) → given (nginx.shutdown w).1 ≡ given w
  pub shutdown_taken : (w : W) → taken (nginx.shutdown w).1 ≡ taken w
  pub output_given :
      (chain : Output) (net : Net W) (h b : Buf)
      → given (nginx.output_filter chain net h b).net.world ≡ given net.world
  pub output_taken :
      (chain : Output) (net : Net W) (h b : Buf)
      → Handed chain h b
      → let w = nginx.output_filter chain net h b in
        taken w.net.world ++ (w.header_buf.content ++ w.send_buf.content)
        ≡ taken net.world ++ (h.content ++ b.content)
  pub output_header :
      (chain : Output) (net : Net W) (h b : Buf)
      → length (nginx.output_filter chain net h b).header_buf.content ≤ length h.content

-- What upstream has sent is what nginx has taken, then the send buffer, then the receive buffer; no
-- filter is installed.
pub record InOrder {W : Type 0} (given taken : W → List ℕ) (ctx : TunnelCtx) (net : Net W)
    : Type 0 where
  pub plain : ctx.upstream_filter ≡ none
  pub no_header : ctx.header_buf.content ≡ []
  pub order : given net.world ≡ taken net.world ++ (ctx.send_buf.content ++ ctx.recv_buf.content)

abbrev pub StepInOrder : {W : Type 0} → (W → List ℕ) → (W → List ℕ) → Step W → Type 0
StepInOrder given taken s = InOrder given taken s.ctx s.net

module _ {W : Type 0} (nginx : Nginx W) (given taken : W → List ℕ)
    (pipe : IsPipe nginx given taken) where
  received-order :
      (ctx : TunnelCtx) (net net' : Net W) (xs : List ℕ)
      → InOrder given taken ctx net
      → given net'.world ≡ given net.world ++ xs
      → taken net'.world ≡ taken net.world
      → given net'.world
        ≡ taken net'.world ++ (ctx.send_buf.content ++ (ctx.recv_buf.content ++ xs))
  received-order ctx net net' xs i g t =
      g
      ∙ ap (λ z. z ++ xs) i.order
      ∙ append_assoc (taken net.world) (ctx.send_buf.content ++ ctx.recv_buf.content) xs
      ∙ ap (λ z. taken net.world ++ z) (append_assoc ctx.send_buf.content ctx.recv_buf.content xs)
      ∙ ap (λ z. z ++ (ctx.send_buf.content ++ (ctx.recv_buf.content ++ xs))) (sym t)

  received_nothing-order :
      (ctx : TunnelCtx) (net net' : Net W)
      → InOrder given taken ctx net
      → given net'.world ≡ given net.world ++ []
      → taken net'.world ≡ taken net.world
      → given net'.world ≡ taken net'.world ++ (ctx.send_buf.content ++ ctx.recv_buf.content)
  received_nothing-order ctx net net' i g t =
      g
      ∙ append-nil (given net.world)
      ∙ i.order
      ∙ ap (λ z. z ++ (ctx.send_buf.content ++ ctx.recv_buf.content)) (sym t)

  upstream_received-InOrder :
      (ctx : TunnelCtx) (net : Net W) (activity : Bool)
      → InOrder given taken ctx net
      → (r : Net W × Received) → given r.0.world ≡ given net.world ++ bytes_of r.1
      → taken r.0.world ≡ taken net.world
      → StepInOrder given taken (upstream_received nginx ctx activity r)
  unfolding upstream_received
  upstream_received-InOrder ctx net activity i (net', would_block) g t = record {
    plain = i.plain;
    no_header = i.no_header;
    order = received_nothing-order ctx net net' i g t;
  }
  upstream_received-InOrder ctx net activity i (net', failed) g t = record {
    plain = i.plain;
    no_header = i.no_header;
    order = received_nothing-order ctx net net' i g t;
  }
  upstream_received-InOrder ctx net activity i (net', received []) g t =
      let same = received_nothing-order ctx net net' i g t in
      elim (Bool-cases net'.datagram) [
        | inl d ↦ rw d (record { plain = i.plain; no_header = i.no_header; order = same })
        | inr d ↦ rw d (record { plain = i.plain; no_header = i.no_header; order = same })
      ]
  upstream_received-InOrder ctx net activity i (net', received (x ∷ xs)) g t = record {
    plain = i.plain;
    no_header = i.no_header;
    order = received-order ctx net net' (x ∷ xs) i g t;
  }

  pub recv_upstream-InOrder :
      (ctx : TunnelCtx) (net : Net W) (activity : Bool)
      → InOrder given taken ctx net
      → StepInOrder given taken (recv_upstream nginx ctx net activity)
  unfolding recv_upstream
  recv_upstream-InOrder ctx net activity i =
      elim (Bool-cases (
        not net.pc
        || not net.pc_read.ready
        || ctx.upstream_empty_datagram
        || room ctx.recv_buf == 0)) [
          | inl e ↦ rw e i
          | inr e ↦ elim (Bool-cases (net.datagram && not (is_nil ctx.recv_buf.content))) [
            | inl e' ↦ rw (e, e') i
            | inr e' ↦ elim (Bool-cases (recv_size ctx == 0)) [
              | inl e'' ↦ rw (e, e', e'') i
              | inr e'' ↦
                  rw (e, e', e'')
                    (upstream_received-InOrder ctx net activity i (nginx.recv net (recv_size ctx))
                      (pipe.recv_given net (recv_size ctx)) (pipe.recv_taken net (recv_size ctx)))
            ]
          ]
        ]
