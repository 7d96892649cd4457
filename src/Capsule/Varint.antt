-- ===== src/Capsule/Varint.antt =====
-- The QUIC varint helpers of src/capsule.c. A byte is a number below 256 and a uint64_t one below
-- 2 ^ 64; shifts and casts keep their wrap-around.
pub mod Bytes
pub mod RoundTrip
pub mod Cases
use ngx_http_tunnel_module.Common.{
  ℕ, zero, suc, ◌+◌, ◌-◌, ◌*◌, ◌/◌, ◌%◌, ◌^◌, min, bit_and, bit_or, Option, none, some, List, [],
  ◌∷◌, length, drop, leb, ltb, ◌==◌, ◌||◌, if◌then◌else◌, ◌>>=◌,
}
use ngx_http_tunnel_module.Buffers.{ChainBuf, Chain, free_consumed_chain, buf_size}

unfoldable pub varint_size : ℕ → ℕ
varint_size value =
    if leb value 0x3f
    then 1
    else if leb value 0x3fff
    then 2
    else if leb value 0x3fffffff
    then 4
    else if leb value 0x3fffffffffffffff
    then 8
    else 0

-- (u_char) n
abbrev u_char : ℕ → ℕ
u_char n = n % 256

-- The `switch (len)` that stores the bytes.
encode_bytes : ℕ → ℕ → List ℕ
encode_bytes len n =
    if len == 1
    then u_char n ∷ []
    else if len == 2
    then u_char (bit_or 0x40 (n / 2 ^ 8)) ∷ u_char n ∷ []
    else if len == 4
    then u_char (bit_or 0x80 (n / 2 ^ 24))
      ∷ u_char (n / 2 ^ 16)
      ∷ u_char (n / 2 ^ 8)
      ∷ u_char n
      ∷ []
    else u_char (bit_or 0xc0 (n / 2 ^ 56))
      ∷ u_char (n / 2 ^ 48)
      ∷ u_char (n / 2 ^ 40)
      ∷ u_char (n / 2 ^ 32)
      ∷ u_char (n / 2 ^ 24)
      ∷ u_char (n / 2 ^ 16)
      ∷ u_char (n / 2 ^ 8)
      ∷ u_char n
      ∷ []

-- The first argument is `last - *pos`. `none` is NGX_ERROR; else the bytes stored at `*pos`, which
-- moves behind them. The pointers are never null.
unfoldable pub encode_varint : ℕ → ℕ → Option (List ℕ)
unfolding varint_size encode_bytes
encode_varint free value =
    let len = varint_size value in
    if len == 0 || ltb free len then none else some (encode_bytes len value)

-- The loops that move a cursor to the next byte, and `*p++`. The cursor is the rest of the chain,
-- the head of it cut to what is left from `p` on; `none` is NGX_AGAIN, at the chain's end.
next_byte : Chain → Option (ℕ × Chain)
next_byte [] = none
next_byte (b ∷ cl) = elim b.bytes [
  | [] ↦ next_byte cl
  | x ∷ xs ↦ some (x, record b { bytes = xs } ∷ cl)
]

-- `for (i = 1; i < len; i++) n = (n << 8) | *p++`, by the rounds left.
read_tail : ℕ → ℕ → Chain → Option (ℕ × Chain)
read_tail zero n cl = some (n, cl)
read_tail (suc k) n cl = do (x, cl') ← next_byte cl; read_tail k (bit_or (n * 2 ^ 8 % 2 ^ 64) x) cl'

-- `*value`, `*encoded` and the cursor.
chain_read_varint : Chain → Option (ℕ × ℕ × Chain)
unfolding next_byte read_tail
chain_read_varint cl = do
  (byte, cl') ← next_byte cl
  let len = 2 ^ (byte / 2 ^ 6)
  (n, cl'') ← read_tail (len - 1) (bit_and byte 0x3f) cl'
  some (n, len, cl'')

-- `while (cl != NULL && p == cl->buf->last)`
skip_consumed : Chain → Chain
skip_consumed [] = []
skip_consumed (b ∷ cl) = let rest = skip_consumed cl in if buf_size b == 0 then rest else b ∷ cl

-- Both loops of `capsule_chain_advance`: the second starts when `n` reaches 0.
pub chain_advance : Chain → ℕ → Chain
chain_advance [] n = []
chain_advance (b ∷ cl) n =
    let size = min n (buf_size b) in
    let more = chain_advance cl (n - size) in
    if n - size == 0 then skip_consumed (record b { bytes = drop size b.bytes } ∷ cl) else more

-- `*value`, `*encoded` and the new `ctx->downstream_in`; `none` is NGX_AGAIN, which leaves the
-- chain alone.
unfoldable pub read_varint : Chain → Option (ℕ × ℕ × Chain)
unfolding chain_read_varint chain_advance skip_consumed
read_varint downstream_in = do
  (value, encoded, cursor) ← chain_read_varint downstream_in
  some (value, encoded, free_consumed_chain (chain_advance downstream_in encoded) 0)
