-- ===== src/Capsule/Varint/Cases.antt =====
-- The two results of `capsule_read_varint`, with all that the capsule reader needs of the chain
-- that is left.
use ngx_http_tunnel_module.Common.{
  ℕ, ◌-◌, ◌≡◌, refl, ◌⊎◌, inl, inr, Option, none, some, [], ◌∷◌, All, drop, All-drop, min, arith,
  ◌==◌, Bool-cases, sym, ◌∙◌, ap, ◌>>=◌,
}
use ngx_http_tunnel_module.Buffers.{Chain, chain_bytes, buf_size, free_consumed_chain}
use ngx_http_tunnel_module.Buffers.ChainLaws.{
  NoFlush, IsTrimmed, free_consumed_chain-NoFlush, free_consumed_chain-IsTrimmed,
}
use ngx_http_tunnel_module.Capsule.Varint.{
  skip_consumed, chain_read_varint, chain_advance, read_varint,
}
use ngx_http_tunnel_module.Capsule.Varint.Bytes.{
  IsByte, decode, flat_result, read_varint-decode, consumed,
}

-- A body chain as the relay hands it to a filter: bytes, no datagram marked yet, and no consumed
-- buffer in front.
pub record IsReady (cl : Chain) : Type 0 where
  pub bytes : All IsByte (chain_bytes cl)
  pub no_flush : NoFlush cl
  pub trimmed : IsTrimmed cl

skip_consumed-NoFlush : (cl : Chain) → NoFlush cl → NoFlush (skip_consumed cl)
unfolding skip_consumed
skip_consumed-NoFlush [] h = h
skip_consumed-NoFlush (b ∷ cl) h = elim (Bool-cases (buf_size b == 0)) [
  | inl e ↦ rw e (skip_consumed-NoFlush cl h.1)
  | inr e ↦ rw e h
]

chain_advance-NoFlush : (cl : Chain) (n : ℕ) → NoFlush cl → NoFlush (chain_advance cl n)
unfolding chain_advance
chain_advance-NoFlush [] n h = h
chain_advance-NoFlush (b ∷ cl) n h = elim (Bool-cases (n - min n (buf_size b) == 0)) [
  | inl e ↦
      rw e (skip_consumed-NoFlush (record b { bytes = drop (min n (buf_size b)) b.bytes } ∷ cl) h)
  | inr e ↦ rw e (chain_advance-NoFlush cl (n - min n (buf_size b)) h.1)
]

read_varint-chain :
    (cl : Chain) {v e : ℕ} {cl' : Chain}
    → read_varint cl ≡ some (v, e, cl')
    → cl' ≡ free_consumed_chain (chain_advance cl e) 0
unfolding read_varint
read_varint-chain cl {v} {e} {cl'} h = go (chain_read_varint cl) h
  where
    go :
        (o : Option (ℕ × ℕ × Chain))
        → (◌>>=◌ {B = ℕ × ℕ × Chain} o
            (λ t. some (t.0, t.1, free_consumed_chain (chain_advance cl t.1) 0)))
          ≡ some (v, e, cl')
        → cl' ≡ free_consumed_chain (chain_advance cl e) 0
    go none q = cc
    go (some (a, b, c)) q = ground arith

read_varint-IsReady :
    (cl : Chain) {v e : ℕ} {cl' : Chain}
    → IsReady cl
    → read_varint cl ≡ some (v, e, cl')
    → IsReady cl'
read_varint-IsReady cl {v} {e} {cl'} r h =
    let q : free_consumed_chain (chain_advance cl e) 0 ≡ cl' = sym (read_varint-chain cl h) in
    rw (← q) (record {
      bytes = rw (consumed cl e) (All-drop IsByte e (chain_bytes cl) r.bytes);
      no_flush = free_consumed_chain-NoFlush _ 0 (chain_advance-NoFlush cl e r.no_flush);
      trimmed = free_consumed_chain-IsTrimmed (chain_advance cl e);
    })

pub read_varint-cases :
    (cl : Chain)
    → IsReady cl
    → ((read_varint cl ≡ none) × (decode (chain_bytes cl) ≡ none))
      ⊎ ((v e : ℕ) × (cl' : Chain) × (read_varint cl ≡ some (v, e, cl'))
          × (decode (chain_bytes cl) ≡ some (v, e, chain_bytes cl'))
          × IsReady cl')
read_varint-cases cl r = go (read_varint cl) refl
  where
    go :
        (o : Option (ℕ × ℕ × Chain))
        → read_varint cl ≡ o
        → ((read_varint cl ≡ none) × (decode (chain_bytes cl) ≡ none))
          ⊎ ((v e : ℕ) × (cl' : Chain) × (read_varint cl ≡ some (v, e, cl'))
              × (decode (chain_bytes cl) ≡ some (v, e, chain_bytes cl'))
              × IsReady cl')
    go none h = inl (h, sym (read_varint-decode cl r.bytes) ∙ ap flat_result h)
    go (some (v, e, cl')) h = inr (
      v,
      e,
      cl',
      h,
      sym (read_varint-decode cl r.bytes) ∙ ap flat_result h,
      read_varint-IsReady cl r h,
    )
