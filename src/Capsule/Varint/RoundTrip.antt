-- ===== src/Capsule/Varint/RoundTrip.antt =====
-- `capsule_encode_varint` against the reader of src/capsule.c.
use ngx_http_tunnel_module.Common.{
  ℕ, ◌+◌, ◌*◌, Option, ◌/◌, ◌%◌, ◌^◌, ◌≤◌, ◌<◌, ◌≡◌, refl, none, some, List, [], ◌∷◌, ◌++◌, length,
  All, All-append, arith, ◌⊎◌, inl, inr, ◌∙◌, ap, sym, bit_or,
}
use mathlib.Core.Path.{subst}
use ngx_http_tunnel_module.Common.Bits.{bit_or-0x40, bit_or-0x80, bit_or-0xc0}
use ngx_http_tunnel_module.Capsule.Varint.{varint_size, encode_bytes, encode_varint, read_varint}
use ngx_http_tunnel_module.Capsule.Varint.Bytes.{IsByte, decode, flat_result, read_varint-decode}
use ngx_http_tunnel_module.Buffers.{Chain, chain_bytes}

decode_one : (v : ℕ) (rest : List ℕ) → v < 64 → decode (v ∷ rest) ≡ some (v, 1, rest)
decode_one v rest h =
    let q : v / 64 ≡ 0 = omega arith in let r : v % 64 ≡ v = omega arith in rw (q, r) refl

decode_two :
    (h l : ℕ) (rest : List ℕ) → h < 64 → decode ((64 + h) ∷ l ∷ rest) ≡ some (h * 256 + l, 2, rest)
decode_two h l rest p =
    let q : (64 + h) / 64 ≡ 1 = omega arith in
    let r : (64 + h) % 64 ≡ h = omega arith in rw (q, r) refl

decode_four :
    (h a b c : ℕ) (rest : List ℕ)
    → h < 64
    → decode ((128 + h) ∷ a ∷ b ∷ c ∷ rest) ≡ some (((h * 256 + a) * 256 + b) * 256 + c, 4, rest)
decode_four h a b c rest p =
    let q : (128 + h) / 64 ≡ 2 = omega arith in
    let r : (128 + h) % 64 ≡ h = omega arith in rw (q, r) refl

abbrev word56 : ℕ → ℕ → ℕ → ℕ → ℕ → ℕ → ℕ → ℕ
word56 h a b c d e f = (((((h * 256 + a) * 256 + b) * 256 + c) * 256 + d) * 256 + e) * 256 + f

decode_eight :
    (h a b c d e f g : ℕ) (rest : List ℕ)
    → h < 64
    → decode ((192 + h) ∷ a ∷ b ∷ c ∷ d ∷ e ∷ f ∷ g ∷ rest)
      ≡ some (word56 h a b c d e f * 256 + g, 8, rest)
decode_eight h a b c d e f g rest p =
    let q : (192 + h) / 64 ≡ 3 = omega arith in
    let r : (192 + h) % 64 ≡ h = omega arith in rw (q, r) refl

-- The four lengths, and what is written at each.
abbrev pub Encodes : ℕ → List ℕ → Type 0
Encodes v bs =
    (length bs ≡ varint_size v)
    × All IsByte bs
    × ((rest : List ℕ) → decode (bs ++ rest) ≡ some (v, length bs, rest))

encode_bytes_one : (v : ℕ) → v ≤ 0x3f → Encodes v (encode_bytes 1 v)
unfolding encode_bytes varint_size
encode_bytes_one v h =
    let e : v % 256 ≡ v = omega arith in
    rw e (ground arith, ground arith, λ rest. decode_one v rest (omega arith))

encode_bytes_two : (v : ℕ) → 0x3f < v → v ≤ 0x3fff → Encodes v (encode_bytes 2 v)
unfolding encode_bytes varint_size
encode_bytes_two v h k =
    let e : bit_or 0x40 (v / 2 ^ 8) % 256 ≡ 64 + v / 2 ^ 8 =
      omega (arith, bit_or-0x40 (v / 2 ^ 8) (omega arith)) in
    let sum : v / 256 * 256 + v % 256 ≡ v = omega arith in
    rw e (
      ground arith,
      ground arith,
      λ rest.
          decode_two (v / 2 ^ 8) (v % 256) rest (omega arith)
          ∙ ap (λ (n : ℕ). some (n, 2, rest)) sum,
    )

encode_bytes_four : (v : ℕ) → 0x3fff < v → v ≤ 0x3fffffff → Encodes v (encode_bytes 4 v)
unfolding encode_bytes varint_size
encode_bytes_four v h k =
    let e : bit_or 0x80 (v / 2 ^ 24) % 256 ≡ 128 + v / 2 ^ 24 =
      omega (arith, bit_or-0x80 (v / 2 ^ 24) (omega arith)) in
    let sum : ((v / 2 ^ 24 * 256 + v / 2 ^ 16 % 256) * 256 + v / 2 ^ 8 % 256) * 256 + v % 256 ≡ v =
      omega arith in
    rw e (
      ground arith,
      ground arith,
      λ rest.
          decode_four (v / 2 ^ 24) (v / 2 ^ 16 % 256) (v / 2 ^ 8 % 256) (v % 256) rest (omega arith)
          ∙ ap (λ (n : ℕ). some (n, 4, rest)) sum,
    )

-- The bytes of `v` below its highest, put together again.
word56_lem :
    (v : ℕ)
    → word56
        (v / 2 ^ 56)
        (v / 2 ^ 48 % 256)
        (v / 2 ^ 40 % 256)
        (v / 2 ^ 32 % 256)
        (v / 2 ^ 24 % 256)
        (v / 2 ^ 16 % 256)
        (v / 2 ^ 8 % 256)
      ≡ v / 2 ^ 8
word56_lem v =
    let a : v / 2 ^ 56 * 256 + v / 2 ^ 48 % 256 ≡ v / 2 ^ 48 = omega arith in
    let b : v / 2 ^ 48 * 256 + v / 2 ^ 40 % 256 ≡ v / 2 ^ 40 = omega arith in
    let c : v / 2 ^ 40 * 256 + v / 2 ^ 32 % 256 ≡ v / 2 ^ 32 = omega arith in
    let d : v / 2 ^ 32 * 256 + v / 2 ^ 24 % 256 ≡ v / 2 ^ 24 = omega arith in
    let e : v / 2 ^ 24 * 256 + v / 2 ^ 16 % 256 ≡ v / 2 ^ 16 = omega arith in
    let f : v / 2 ^ 16 * 256 + v / 2 ^ 8 % 256 ≡ v / 2 ^ 8 = omega arith in
    rw (a, b, c, d, e, f) refl

encode_bytes_eight :
    (v : ℕ) → 0x3fffffff < v → v ≤ 0x3fffffffffffffff → Encodes v (encode_bytes 8 v)
unfolding encode_bytes varint_size
encode_bytes_eight v h k =
    let e : bit_or 0xc0 (v / 2 ^ 56) % 256 ≡ 192 + v / 2 ^ 56 =
      omega (arith, bit_or-0xc0 (v / 2 ^ 56) (omega arith)) in
    let sum : v / 2 ^ 8 * 256 + v % 256 ≡ v = omega arith in
    rw e (
      ground arith,
      ground arith,
      λ rest.
          decode_eight (v / 2 ^ 56) (v / 2 ^ 48 % 256) (v / 2 ^ 40 % 256) (v / 2 ^ 32 % 256)
            (v / 2 ^ 24 % 256) (v / 2 ^ 16 % 256) (v / 2 ^ 8 % 256) (v % 256) rest (omega arith)
          ∙ rw (word56_lem v) (ap (λ (n : ℕ). some (n, 8, rest)) sum),
    )

varint_size-cases :
    (v : ℕ)
    → ((varint_size v ≡ 1) × (v ≤ 0x3f))
      ⊎ ((varint_size v ≡ 2) × (0x3f < v) × (v ≤ 0x3fff))
      ⊎ ((varint_size v ≡ 4) × (0x3fff < v) × (v ≤ 0x3fffffff))
      ⊎ ((varint_size v ≡ 8) × (0x3fffffff < v) × (v ≤ 0x3fffffffffffffff))
      ⊎ ((varint_size v ≡ 0) × (2 ^ 62 ≤ v))
unfolding varint_size
varint_size-cases v = ground arith

-- Whatever the length, the bytes stored are as many as `varint_size` says and decode to the number.
encode_bytes-Encodes : (v : ℕ) → v < 2 ^ 62 → Encodes v (encode_bytes (varint_size v) v)
encode_bytes-Encodes v h = elim (varint_size-cases v) [
  | inl (e, hi) ↦ subst (λ n. Encodes v (encode_bytes n v)) (sym e) (encode_bytes_one v hi)
  | inr (inl (e, lo, hi)) ↦
      subst (λ n. Encodes v (encode_bytes n v)) (sym e) (encode_bytes_two v lo hi)
  | inr (inr (inl (e, lo, hi))) ↦
      subst (λ n. Encodes v (encode_bytes n v)) (sym e) (encode_bytes_four v lo hi)
  | inr (inr (inr (inl (e, lo, hi)))) ↦
      subst (λ n. Encodes v (encode_bytes n v)) (sym e) (encode_bytes_eight v lo hi)
  | inr (inr (inr (inr (e, lo)))) ↦ absurd (omega arith)
]

-- `v` can be written in `k` bytes, two bits of which tell the length: one of the lengths of RFC 9000.
abbrev pub Holds : ℕ → ℕ → Type 0
Holds k v =
    ((k ≡ 1) × (v < 2 ^ 6))
    ⊎ ((k ≡ 2) × (v < 2 ^ 14))
    ⊎ ((k ≡ 4) × (v < 2 ^ 30))
    ⊎ ((k ≡ 8) × (v < 2 ^ 62))

-- Nothing is written where no length that fits into the room holds the number; else the bytes are
-- of such a length, and of no longer one than is needed.
abbrev pub Written : ℕ → ℕ → Option (List ℕ) → Type 0
Written free v none = ¬ ((k : ℕ) × (k ≤ free) × Holds k v)
Written free v (some bs) =
    (length bs ≤ free) × Holds (length bs) v × (¬ ((k : ℕ) × (k < length bs) × Holds k v))

-- A success stores the bytes of the number's own length.
encode_varint-eq-some :
    (free v : ℕ) {bs : List ℕ}
    → encode_varint free v ≡ some bs
    → (v < 2 ^ 62) × (varint_size v ≤ free) × (encode_bytes (varint_size v) v ≡ bs)
unfolding encode_varint
encode_varint-eq-some free v h = (ground arith, ground arith, ground arith)

stored :
    (free v : ℕ)
    → v < 2 ^ 62
    → varint_size v ≤ free
    → encode_varint free v ≡ some (encode_bytes (varint_size v) v)
unfolding encode_varint
stored free v h k = ground arith

pub encode_varint-Encodes :
    (free v : ℕ) {bs : List ℕ} → encode_varint free v ≡ some bs → Encodes v bs
encode_varint-Encodes free v h =
    let (small, fits, e) = encode_varint-eq-some free v h in
    subst (Encodes v) e (encode_bytes-Encodes v small)

-- The number is below 2 ^ 62 and its own length fits, or nothing is written.
encode_varint-cases :
    (free v : ℕ)
    → ((v < 2 ^ 62)
        × (varint_size v ≤ free)
        × (encode_varint free v ≡ some (encode_bytes (varint_size v) v)))
      ⊎ (((2 ^ 62 ≤ v) ⊎ (free < varint_size v)) × (encode_varint free v ≡ none))
unfolding encode_varint varint_size
encode_varint-cases free v = ground arith

varint_size-Holds :
    (v : ℕ) → v < 2 ^ 62 → Holds (varint_size v) v × (¬ ((k : ℕ) × (k < varint_size v) × Holds k v))
varint_size-Holds v small = (
  elim (varint_size-cases v) [
    | inl (e, hi) ↦ inl (e, omega arith)
    | inr (inl (e, lo, hi)) ↦ inr (inl (e, omega arith))
    | inr (inr (inl (e, lo, hi))) ↦ inr (inr (inl (e, omega arith)))
    | inr (inr (inr (inl (e, lo, hi)))) ↦ inr (inr (inr (e, omega arith)))
    | inr (inr (inr (inr (e, lo)))) ↦ absurd (omega arith)
  ],
  λ (k, less, holds). omega (arith, varint_size-cases v, less, holds),
)

-- `capsule_encode_varint` fails exactly when none of the lengths of RFC 9000 (1, 2, 4 and 8 bytes,
-- for 6, 14, 30 and 62 bits) that fit into the room holds the number. What it stores otherwise
-- fits, and is of the shortest length that holds the number.
pub encode_varint-Written : (free v : ℕ) → Written free v (encode_varint free v)
encode_varint-Written free v = elim (encode_varint-cases free v) [
  | inl (small, fits, e) ↦
      let enc = encode_bytes-Encodes v small in
      let (holds, least) = varint_size-Holds v small in rw (e, enc.0) (fits, holds, least)
  | inr (h, e) ↦ rw e (λ (k, less, holds). omega (arith, varint_size-cases v, h, less, holds))
]

pub varint_size-le : (v : ℕ) → varint_size v ≤ 8
unfolding varint_size
varint_size-le v = ground arith

pub varint_size-pos : (v : ℕ) → v < 2 ^ 62 → 0 < varint_size v
unfolding varint_size
varint_size-pos v h = ground arith

pub varint_size-zero : varint_size 0 ≡ 1
unfolding varint_size
varint_size-zero = refl

pub encode_varint-zero : (free : ℕ) → 1 ≤ free → encode_varint free 0 ≡ some (0 ∷ [])
unfolding encode_varint
encode_varint-zero free h = ground arith

-- Eight bytes of room are always enough.
pub encode_varint-fits :
    (free v : ℕ)
    → v < 2 ^ 62
    → varint_size v ≤ free
    → (bs : List ℕ) × (encode_varint free v ≡ some bs) × Encodes v bs × (length bs ≤ 8)
encode_varint-fits free v h k =
    let bs : List ℕ = encode_bytes (varint_size v) v in
    let enc : Encodes v bs = encode_bytes-Encodes v h in
    (bs, stored free v h k, enc, omega (arith, enc.0, varint_size-le v))

-- A number that `capsule_encode_varint` accepts comes back from `capsule_read_varint`, whatever
-- follows it and however the bytes are cut into buffers, with its encoded length and with the
-- bytes behind it left in the chain.
pub read_varint-encode_varint :
    (free v : ℕ) (rest : List ℕ) (cl : Chain) {bs : List ℕ}
    → encode_varint free v ≡ some bs
    → All IsByte rest
    → chain_bytes cl ≡ bs ++ rest
    → flat_result (read_varint cl) ≡ some (v, varint_size v, rest)
read_varint-encode_varint free v rest cl {bs} h bytes e =
    let (size, low, back) = encode_varint-Encodes free v h in
    read_varint-decode cl (rw e (All-append IsByte bs rest low bytes))
    ∙ rw e (back rest)
    ∙ ap (λ (n : ℕ). some (v, n, rest)) size
