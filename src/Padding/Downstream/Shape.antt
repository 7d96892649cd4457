-- ===== src/Padding/Downstream/Shape.antt =====
-- The states of the frame reader of src/padding.c that fit the frame format, and what a round of
-- its loop may count on.
use ngx_http_tunnel_module.Common.{
  ℕ, ◌%◌, ◌/◌, sym, ◌+◌, ◌*◌, ◌≤◌, ◌<◌, ◌≡◌, refl, inl, inr, Option, none, some, All, arith, Bool,
  not, ◌&&◌, ◌||◌, bit_or, Bool-cases, ◌==◌,
}
use mathlib.Core.Path.{subst}
use ngx_http_tunnel_module.Common.Bits.{bit_or_byte}
use ngx_http_tunnel_module.Rc.{Rc, ok, again, status}
use ngx_http_tunnel_module.Buffers.{Chain, chain_bytes}
use ngx_http_tunnel_module.Context.{
  PaddingState, header_b0, header_b1, header_b2, payload, discard, PaddingCtx, TunnelCtx, Outcome,
  first_paddings,
}
use ngx_http_tunnel_module.Capsule.Varint.Bytes.{IsByte}
use ngx_http_tunnel_module.Padding.Downstream.{Loop, leave, is_header_b0, incomplete}

-- NGX_OK, NGX_AGAIN or 400.
abbrev pub IsAnswer : Rc → Type 0
IsAnswer ok = Unit {0}
IsAnswer again = Unit {0}
IsAnswer (status n) = n ≡ 400
IsAnswer _ = ⊥

-- The two sizes, by the part of the frame that is read next.
abbrev pub Shape : PaddingState → ℕ → ℕ → Type 0
Shape header_b0 n m = (n ≡ 0) × (m ≡ 0)
Shape header_b1 n m = (n % 256 ≡ 0) × (n ≤ 65535) × (m ≡ 0)
Shape header_b2 n m = (n ≤ 65535) × (m ≡ 0)
Shape payload n m = (n ≤ 65535) × (m ≤ 255)
Shape discard n m = (n ≡ 0) × (m ≤ 255)
Shape PaddingState.unused n m = ⊥

abbrev pub IsShaped : Option PaddingCtx → Type 0
IsShaped none = ⊥
IsShaped (some p) =
    Shape p.read_state p.payload_size p.padding_size × (p.downstream_count ≤ first_paddings)

pub record IsGood (o : Outcome) : Type 0 where
  pub answer : IsAnswer o.rc
  pub shaped : IsShaped o.ctx.padding
  pub flush : o.ctx.flush_size ≤ 65535

-- What a round of the loop may count on, with `k` frames to go.
pub record Ready (k : ℕ) (ctx : TunnelCtx) (p : PaddingCtx) : Type 0 where
  pub bytes : All IsByte (chain_bytes ctx.downstream_in)
  pub flush : ctx.flush_size ≤ 65535
  pub count : p.downstream_count < first_paddings
  pub left : first_paddings ≤ p.downstream_count + k

abbrev pub LoopIsGood : Loop → ℕ → Type 0
LoopIsGood loop k =
    (ctx : TunnelCtx) (p : PaddingCtx) (activity : Bool)
    → Ready k ctx p
    → Shape p.read_state p.payload_size p.padding_size
    → IsGood (loop ctx p activity)

pub leave-IsGood :
    (rc : Rc) (ctx : TunnelCtx) (p : PaddingCtx) (activity : Bool)
    → IsAnswer rc
    → Shape p.read_state p.payload_size p.padding_size
    → p.downstream_count ≤ first_paddings
    → ctx.flush_size ≤ 65535
    → IsGood (leave rc ctx p activity)
leave-IsGood rc ctx p activity a s c f = record { answer = a; shaped = (s, c); flush = f }

pub bit_or_low : (n x : ℕ) → n % 256 ≡ 0 → x < 256 → bit_or n x ≡ n + x
bit_or_low n x h low =
    let e : n ≡ n / 256 * 256 = omega arith in
    subst (λ m. bit_or m x ≡ m + x) (sym e) (bit_or_byte (n / 256) x low)

pub incomplete-IsGood :
    (k : ℕ) (ctx : TunnelCtx) (p : PaddingCtx) (activity : Bool)
    → Ready k ctx p
    → Shape p.read_state p.payload_size p.padding_size
    → IsGood (incomplete ctx p activity)
unfolding incomplete
incomplete-IsGood k ctx p activity r s = elim (Bool-cases ended) [
  | inl e ↦ rw e (leave-IsGood _ ctx p activity refl s (omega (arith, r.count)) r.flush)
  | inr e ↦ rw e (leave-IsGood _ ctx p activity tt s (omega (arith, r.count)) r.flush)
]
  where
    ended : Bool
    ended =
        ctx.downstream_eof
        && (not (is_header_b0 p.read_state)
            || not (p.payload_size == 0)
            || not (p.padding_size == 0))

-- The bytes that are left after some have been read.
pub with_chain :
    (k : ℕ) (ctx : TunnelCtx) (p p' : PaddingCtx) (cl : Chain)
    → Ready k ctx p
    → All IsByte (chain_bytes cl)
    → p'.downstream_count ≡ p.downstream_count
    → Ready k (record ctx { downstream_in = cl }) p'
with_chain k ctx p p' cl r bytes e = record {
  bytes = bytes;
  flush = r.flush;
  count = omega (arith, r.count);
  left = omega (arith, r.left);
}
