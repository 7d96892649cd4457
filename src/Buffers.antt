-- ===== src/Buffers.antt =====
-- nginx buffers and chains as the module uses them: `ngx_chain_t` lists of request-body buffers,
-- the relay's two working buffers and the header buffer (src/ngx_http_tunnel_module.h), and
-- `tunnel_utils_free_consumed_chain` (src/utils.c).
pub mod ChainLaws
use ngx_http_tunnel_module.Common.{
  ℕ, ◌+◌, ◌-◌, ◌≤◌, Bool, false, true, not, ◌&&◌, List, [], ◌∷◌, ◌++◌, length, is_nil, ltb, ◌==◌,
  if◌then◌else◌,
}
use ngx_http_tunnel_module.Rc.{Rc, ok, again, error}

-- A buffer of a body chain: the bytes from `pos` up to `last`, and the flags that the module sets.
-- Bytes in front of `pos` and behind `last` are never read, so `pos += n` drops n bytes.
pub record ChainBuf : Type 0 where
  pub bytes : List ℕ
  pub flush : Bool
  pub last_buf : Bool
  pub last_in_chain : Bool

-- NULL is the empty chain; a pointer into a chain is the part of the chain that it points at.
abbrev pub Chain : Type 0
Chain = List ChainBuf

abbrev pub buf_size : ChainBuf → ℕ
buf_size b = length b.bytes

-- All the bytes of a chain, in order.
abbrev pub chain_bytes : Chain → List ℕ
chain_bytes [] = []
chain_bytes (b ∷ cl) = b.bytes ++ chain_bytes cl

-- `*chain != limit` compares two pointers into one chain: `limit` is the number of links from there
-- on, 0 for NULL.
unfoldable pub free_consumed_chain : Chain → ℕ → Chain
free_consumed_chain [] limit = []
free_consumed_chain (b ∷ cl) limit =
    let rest = free_consumed_chain cl limit in
    if not (length (b ∷ cl) == limit) && buf_size b == 0 then rest else b ∷ cl

-- A working buffer (`ngx_create_temp_buf`). Offsets count from `start`, which is 0; `last` is
-- `pos + length content`. A buffer that was never allocated has `end` 0.
pub record Buf : Type 0 where
  pub pos : ℕ
  pub content : List ℕ
  pub end : ℕ
  pub flush : Bool

abbrev pub last : Buf → ℕ
last b = b.pos + length b.content

-- (size_t)(b->end - b->last)
abbrev pub room : Buf → ℕ
room b = b.end - last b

-- The three pointers are in order.
abbrev pub InBounds : Buf → Type 0
InBounds b = last b ≤ b.end

abbrev pub create_temp_buf : ℕ → Buf
create_temp_buf size = record { pos = 0; content = []; end = size; flush = false }

-- The macro `downstream_prepare_addition_header(b, size)`, with the buffer that it leaves.
unfoldable pub prepare_addition_header : Buf → ℕ → Rc × Buf
prepare_addition_header b size =
    if not (is_nil b.content)
    then (again, b)
    else if ltb b.end size
    then (error, record b { pos = 0; content = [] })
    else (ok, record b { pos = 0; content = [] })

-- Whether the allocations of one call succeed: `ngx_alloc_chain_link` and `ngx_calloc_buf`.
pub record Pool : Type 0 where
  pub chain_link : Bool
  pub buf : Bool
