-- ===== src/Capsule/Varint/Bytes.antt =====
-- The varint reader of src/capsule.c against a decoder on a flat list of bytes.
use ngx_http_tunnel_module.Common.{
  ℕ, zero, suc, ◌+◌, ◌-◌, ◌*◌, ◌/◌, ◌%◌, ◌^◌, ◌≤◌, ◌<◌, ◌≡◌, refl, Bool-cases, inl, inr, false, min,
  leb, leb→le, tests, ◌⊎◌, Option, none, some, List, [], ◌∷◌, length, All, drop, drop-append_le,
  drop-append_ge, eq-nil_of_length, arith, ◌>>=◌, ◌==◌, ◌∙◌, sym,
}
use ngx_http_tunnel_module.Common.Bits.{bit_and-0x3f, bit_or_byte}
use native.Mathlib.Nat.{pow-suc, pow-zero, mod-eq_of_lt}
use ngx_http_tunnel_module.Buffers.{Chain, chain_bytes, free_consumed_chain}
use ngx_http_tunnel_module.Buffers.ChainLaws.{
  pop, flat, flat-cases, chain_bytes-free_consumed_chain,
}
use ngx_http_tunnel_module.Capsule.Varint.{
  next_byte, read_tail, skip_consumed, chain_advance, read_varint,
}

abbrev pub IsByte : ℕ → Type 0
IsByte b = b < 256

-- RFC 9000, section 16: the two high bits of the first byte give the length, the rest is the number,
-- most significant byte first.
abbrev pub big_endian : ℕ → ℕ → List ℕ → Option (ℕ × List ℕ)
big_endian zero n xs = some (n, xs)
big_endian (suc k) n [] = none
big_endian (suc k) n (x ∷ xs) = big_endian k (n * 256 + x) xs

abbrev pub decode : List ℕ → Option (ℕ × ℕ × List ℕ)
decode [] = none
decode (b ∷ xs) = do
  (n, rest) ← big_endian (2 ^ (b / 64) - 1) (b % 64) xs
  some (n, 2 ^ (b / 64), rest)

abbrev pub flat_result : Option (ℕ × ℕ × Chain) → Option (ℕ × ℕ × List ℕ)
flat_result none = none
flat_result (some (value, encoded, cl)) = some (value, encoded, chain_bytes cl)

flat-next_byte : (cl : Chain) → flat (next_byte cl) ≡ pop (chain_bytes cl)
unfolding next_byte
flat-next_byte [] = refl
flat-next_byte (b ∷ cl) = ground (arith, flat-next_byte cl)

chain_bytes-skip_consumed : (cl : Chain) → chain_bytes (skip_consumed cl) ≡ chain_bytes cl
unfolding skip_consumed
chain_bytes-skip_consumed [] = refl
chain_bytes-skip_consumed (b ∷ cl) =
    ground (arith, eq-nil_of_length b.bytes, chain_bytes-skip_consumed cl)

chain_bytes-chain_advance :
    (cl : Chain) (n : ℕ) → chain_bytes (chain_advance cl n) ≡ drop n (chain_bytes cl)
unfolding chain_advance
chain_bytes-chain_advance [] zero = refl
chain_bytes-chain_advance [] (suc n) = refl
chain_bytes-chain_advance (b ∷ cl) n = elim (Bool-cases (leb n (length b.bytes))) [
  | inl within ↦
      let size : min n (length b.bytes) ≡ n = omega (tests, within) in
      let left : n - n ≡ 0 = omega arith in
      rw (size, left)
        (chain_bytes-skip_consumed (record b { bytes = drop n b.bytes } ∷ cl)
          ∙ sym (drop-append_le n b.bytes (chain_bytes cl) (leb→le _ _ within)))
  | inr beyond ↦
      let size : min n (length b.bytes) ≡ length b.bytes = ground arith in
      let left : ((n - length b.bytes) == 0) ≡ false = ground arith in
      rw (size, left)
        (chain_bytes-chain_advance cl (n - length b.bytes)
          ∙ sym (drop-append_ge n b.bytes (chain_bytes cl) (ground arith)))
]

next_byte-cases :
    (cl : Chain)
    → ((next_byte cl ≡ none) × (chain_bytes cl ≡ []))
      ⊎ ((x : ℕ) × (cl' : Chain) × (next_byte cl ≡ some (x, cl'))
          × (chain_bytes cl ≡ x ∷ chain_bytes cl'))
next_byte-cases cl = flat-cases (next_byte cl) (chain_bytes cl) (flat-next_byte cl)

shift_fits : (m n : ℕ) → 0 < m → suc n * (m * 256) ≤ 2 ^ 62 → n * 256 < 2 ^ 64
shift_fits m n pos h = grind arith

next_fits : (m n x : ℕ) → x < 256 → suc n * (m * 256) ≤ 2 ^ 62 → suc (n * 256 + x) * m ≤ 2 ^ 62
next_fits m n x hx h = grind arith

pow_pos : (n k : ℕ) → 0 < n → 0 < n ^ k
pow_pos n zero h = rw pow-zero (omega arith)
pow_pos n (suc k) h = rw pow-suc (grind (arith, pow_pos n k h))

-- No bit is lost to the shift as long as the whole number stays below 2 ^ 62.
flat-read_tail :
    (k n : ℕ) (cl : Chain)
    → All IsByte (chain_bytes cl)
    → suc n * 256 ^ k ≤ 2 ^ 62
    → flat (read_tail k n cl) ≡ big_endian k n (chain_bytes cl)
unfolding read_tail
flat-read_tail zero n cl bytes h = refl
flat-read_tail (suc k) n cl bytes h = elim (next_byte-cases cl) [
  | inl (p, q) ↦ rw (p, q) refl
  | inr (x, cl', p, q) ↦
      let bytes' : All IsByte (x ∷ chain_bytes cl') = rw q at bytes in
      let word : n * 256 % 2 ^ 64 ≡ n * 256 =
        mod-eq_of_lt (shift_fits (256 ^ k) n (pow_pos 256 k (omega arith)) (rw pow-suc at h)) in
      rw (p, q, word, bit_or_byte n x bytes'.0)
        (flat-read_tail k (n * 256 + x) cl' bytes'.1
          (next_fits (256 ^ k) n x bytes'.0 (rw pow-suc at h)))
]

big_endian-rest :
    (k n : ℕ) (xs : List ℕ) {m : ℕ} {rest : List ℕ}
    → big_endian k n xs ≡ some (m, rest)
    → drop k xs ≡ rest
big_endian-rest zero n xs h = ground arith
big_endian-rest (suc k) n [] h = cc
big_endian-rest (suc k) n (x ∷ xs) h = big_endian-rest k (n * 256 + x) xs h

-- Four lengths, and none of them overflows.
length_fits : (b : ℕ) → b < 256 → suc (b % 64) * 256 ^ (2 ^ (b / 64) - 1) ≤ 2 ^ 62
length_fits b h = go (b / 64) (b % 64) (omega arith) (omega arith)
  where
    go : (q r : ℕ) → q < 4 → r < 64 → suc r * 256 ^ (2 ^ q - 1) ≤ 2 ^ 62
    go zero r p h = omega arith
    go (suc zero) r p h = omega arith
    go (suc (suc zero)) r p h = omega arith
    go (suc (suc (suc zero))) r p h = omega arith
    go (suc (suc (suc (suc q)))) r p h = absurd (omega arith)

pub consumed :
    (cl : Chain) (n : ℕ)
    → chain_bytes (free_consumed_chain (chain_advance cl n) 0) ≡ drop n (chain_bytes cl)
consumed cl n =
    chain_bytes-free_consumed_chain (chain_advance cl n) 0 ∙ chain_bytes-chain_advance cl n

-- From the tail's read to the whole result: the bytes passed over are the bytes decoded.
flat-chain_read :
    (cl cl' : Chain) (b k len n : ℕ) (o : Option (ℕ × Chain))
    → chain_bytes cl ≡ b ∷ chain_bytes cl'
    → len ≡ suc k
    → flat o ≡ big_endian k n (chain_bytes cl')
    → flat_result (
        ◌>>=◌ {B = ℕ × ℕ × Chain}
          (◌>>=◌ {B = ℕ × ℕ × Chain} o (λ t. some (t.0, len, t.1)))
          (λ t. some (t.0, t.1, free_consumed_chain (chain_advance cl t.1) 0)))
      ≡ ◌>>=◌ {B = ℕ × ℕ × List ℕ} (big_endian k n (chain_bytes cl')) (λ t. some (t.0, len, t.1))
flat-chain_read cl cl' b k len n none q l e = rw (← e) refl
flat-chain_read cl cl' b k len n (some (m, c)) q l e =
    let r : drop k (chain_bytes cl') ≡ chain_bytes c =
      big_endian-rest k n (chain_bytes cl') (sym e) in
    rw (← e, consumed cl len, q, l, r) refl

-- On a chain of bytes, `capsule_read_varint` gives what the decoder gives on the chain's bytes,
-- its failure included, and leaves the bytes behind the number.
pub read_varint-decode :
    (cl : Chain)
    → All IsByte (chain_bytes cl)
    → flat_result (read_varint cl) ≡ decode (chain_bytes cl)
unfolding read_varint
read_varint-decode cl bytes = elim (next_byte-cases cl) [
  | inl (p, q) ↦ rw (p, q) refl
  | inr (b, cl', p, q) ↦
      let bytes' : All IsByte (b ∷ chain_bytes cl') = rw q at bytes in
      let len : 2 ^ (b / 64) ≡ suc (2 ^ (b / 64) - 1) =
        omega (arith, pow_pos 2 (b / 64) (omega arith)) in
      rw (p, q, bit_and-0x3f b bytes'.0)
        (flat-chain_read cl cl' b _ _ (b % 64) (read_tail (2 ^ (b / 64) - 1) (b % 64) cl') q len
          (flat-read_tail (2 ^ (b / 64) - 1) (b % 64) cl' bytes'.1 (length_fits b bytes'.0)))
]
