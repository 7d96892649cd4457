-- ===== src/Padding/Downstream/Header.antt =====
-- What one call of `tunnel_padding_downstream_filter` (src/padding.c) reads of a frame.
use ngx_http_tunnel_module.Common.{
  ℕ, is_nil-append, take-append-drop, length-take, if◌then◌else◌, ==_iff, take-append_le,
  drop-append_le, take-replicate, drop-replicate, zero, suc, ◌+◌, ◌-◌, ◌*◌, ◌≤◌, ◌<◌, ◌≡◌, refl,
  sym, ◌∙◌, min, ◌⊎◌, inl, inr, none, some, List, [], ◌∷◌, ◌++◌, length, is_nil, arith, Bool, true,
  not, ap, take, drop, replicate, append_assoc, eq-nil_of_length, ◌==◌, Bool-cases,
}
use ngx_http_tunnel_module.Common.Bits.{bit_or_byte}
use ngx_http_tunnel_module.Buffers.{Chain, chain_bytes}
use ngx_http_tunnel_module.Buffers.ChainLaws.{pop, flat, flat-cases}
use ngx_http_tunnel_module.Context.{header_b2, PaddingCtx, TunnelCtx}
use ngx_http_tunnel_module.Padding.Downstream.{
  take_byte, has_bytes, all_zero, Discarded, no_buffer, non_zero, dropped, behind_dropped,
  discard_bytes, b0_case, b1_case, b2_case, header_read, Loop,
}

flat-take_byte : (cl : Chain) → flat (take_byte cl) ≡ pop (chain_bytes cl)
unfolding take_byte
flat-take_byte [] = refl
flat-take_byte (b ∷ cl) = ground (arith, flat-take_byte cl)

pub take_byte-cases :
    (cl : Chain)
    → ((take_byte cl ≡ none) × (chain_bytes cl ≡ []))
      ⊎ ((x : ℕ) × (cl' : Chain) × (take_byte cl ≡ some (x, cl'))
          × (chain_bytes cl ≡ x ∷ chain_bytes cl'))
take_byte-cases cl = flat-cases (take_byte cl) (chain_bytes cl) (flat-take_byte cl)

pub has_bytes-is_nil : (cl : Chain) → has_bytes cl ≡ not (is_nil (chain_bytes cl))
unfolding has_bytes
has_bytes-is_nil [] = refl
has_bytes-is_nil (b ∷ cl) =
    ground
      (arith, has_bytes-is_nil cl, eq-nil_of_length b.bytes, is_nil-append b.bytes (chain_bytes cl))

abbrev header : PaddingCtx → ℕ → ℕ → ℕ → PaddingCtx
header p h l m = record p { payload_size = h * 256 + l; padding_size = m; read_state = header_b2 }

-- The three header bytes, from any buffers, give the two sizes.
pub b0_case-header :
    (loop : Loop) (ctx : TunnelCtx) (p : PaddingCtx) (activity : Bool) (h l m : ℕ) (rest : List ℕ)
    → chain_bytes ctx.downstream_in ≡ h ∷ l ∷ m ∷ rest
    → l < 256
    → (cl : Chain) × (chain_bytes cl ≡ rest)
      × (b0_case loop ctx p activity
          ≡ header_read loop (record ctx { downstream_in = cl }) (header p h l m))
unfolding b0_case b1_case b2_case
b0_case-header loop ctx p activity h l m rest e low = elim (take_byte-cases ctx.downstream_in) [
  | inl (_, q) ↦ cc
  | inr (x, c₁, t₁, q₁) ↦ elim (take_byte-cases c₁) [
    | inl (_, q) ↦ cc
    | inr (y, c₂, t₂, q₂) ↦ elim (take_byte-cases c₂) [
      | inl (_, q) ↦ cc
      | inr (z, c₃, t₃, q₃) ↦
          let ex : x ≡ h = cc in
          let ey : y ≡ l = cc in
          let ez : z ≡ m = cc in
          (
            c₃,
            cc,
            rw (t₁, b0_case)
                (rw (t₂, b1_case) (rw (t₃, b2_case) (rw (ex, ey, ez, bit_or_byte h l low) refl))),
          )
    ]
  ]
]

all_zero-replicate : (n : ℕ) → all_zero (replicate n 0) ≡ true
unfolding all_zero
all_zero-replicate zero = refl
all_zero-replicate (suc n) = all_zero-replicate n

eq-replicate : (xs : List ℕ) → all_zero xs ≡ true → xs ≡ replicate (length xs) 0
unfolding all_zero
eq-replicate [] h = refl
eq-replicate (x ∷ xs) h = ground (arith, eq-replicate xs)

-- On a chain that begins with the padding, as many zeros as are due and at least one, a call drops
-- at least one of them and none of the bytes behind them.
pub discard_bytes-zeros :
    (cl : Chain) (m : ℕ) (rest : List ℕ)
    → 0 < m
    → chain_bytes cl ≡ replicate m 0 ++ rest
    → (k : ℕ) × (cl' : Chain) × (discard_bytes cl m ≡ dropped k cl')
      × (0 < k)
      × (k ≤ m)
      × (chain_bytes cl' ≡ replicate (m - k) 0 ++ rest)
unfolding discard_bytes
discard_bytes-zeros [] zero rest pos e = elim pos [ ]
discard_bytes-zeros [] (suc m) rest pos e = cc
discard_bytes-zeros (b ∷ cl) m rest pos e = elim (Bool-cases (length b.bytes == 0)) [
  | inl none_here ↦
      let nil : b.bytes ≡ [] = eq-nil_of_length b.bytes ((==_iff _ _).0 none_here) in
      let (k, cl', d, some_gone, le, left) =
        discard_bytes-zeros cl m rest pos (ap (λ t. t ++ chain_bytes cl) (sym nil) ∙ e) in
      (k, b ∷ cl', rw (none_here, d) refl, some_gone, le, ap (λ t. t ++ chain_bytes cl') nil ∙ left)
  | inr some_here ↦
      let k : ℕ = min (length b.bytes) m in
      let zeros : take k b.bytes ≡ replicate k 0 =
        sym (take-append_le k b.bytes (chain_bytes cl) (omega arith))
        ∙ ap (take k) e
        ∙ take-replicate k m 0 rest (omega arith) in
      (
        k,
        record b { bytes = drop k b.bytes } ∷ cl,
        rw (some_here, ap all_zero zeros ∙ all_zero-replicate k) refl,
        ground arith,
        omega arith,
        sym (drop-append_le k b.bytes (chain_bytes cl) (omega arith))
            ∙ ap (drop k) e
            ∙ drop-replicate k m 0 rest (omega arith),
      )
]

-- Where a call drops bytes, they are zeros from the front of the chain, and no more of them than
-- the padding that is due.
pub discard_bytes-dropped :
    (cl : Chain) (m : ℕ) {k : ℕ} {cl' : Chain}
    → discard_bytes cl m ≡ dropped k cl'
    → (k ≤ m) × (chain_bytes cl ≡ replicate k 0 ++ chain_bytes cl')
unfolding discard_bytes
discard_bytes-dropped [] m h = cc
discard_bytes-dropped (b ∷ cl) m {k} {cl'} h = elim (Bool-cases (length b.bytes == 0)) [
  | inl none_here ↦
      later (λ j c e. discard_bytes-dropped cl m {k = j} {cl' = c} e)
        (eq-nil_of_length b.bytes ((==_iff _ _).0 none_here)) (discard_bytes cl m) refl
        (rw none_here at h)
  | inr some_here ↦ here (rw some_here at h)
]
  where
    later :
        ((j : ℕ) (c : Chain)
          → discard_bytes cl m ≡ dropped j c
          → (j ≤ m) × (chain_bytes cl ≡ replicate j 0 ++ chain_bytes c))
        → b.bytes ≡ []
        → (d : Discarded) → discard_bytes cl m ≡ d
        → behind_dropped b d ≡ dropped k cl'
        → (k ≤ m) × (b.bytes ++ chain_bytes cl ≡ replicate k 0 ++ chain_bytes cl')
    later ih nil no_buffer e q = cc
    later ih nil non_zero e q = cc
    later ih nil (dropped j c) e q = ground (arith, ih j c e)

    here :
        (if not (all_zero (take (min (length b.bytes) m) b.bytes))
            then non_zero
            else dropped
                (min (length b.bytes) m)
                (record b { bytes = drop (min (length b.bytes) m) b.bytes } ∷ cl))
          ≡ dropped k cl'
        → (k ≤ m) × (b.bytes ++ chain_bytes cl ≡ replicate k 0 ++ chain_bytes cl')
    here q = ground (
      arith,
      eq-replicate (take (min (length b.bytes) m) b.bytes),
      take-append-drop (min (length b.bytes) m) b.bytes,
      length-take (min (length b.bytes) m) b.bytes,
      append_assoc (take (min (length b.bytes) m) b.bytes) (drop (min (length b.bytes) m) b.bytes)
          (chain_bytes cl),
    )
