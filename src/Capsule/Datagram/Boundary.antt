-- ===== src/Capsule/Datagram/Boundary.antt =====
-- Where the datagram that `capsule_prepare_datagram` marks begins and ends.
use ngx_http_tunnel_module.Common.{
  ℕ, ◌-◌, ◌≤◌, ◌<◌, ◌≡◌, refl, true, List, [], ◌∷◌, ◌++◌, length, take, drop, arith, length-append,
  take-append-drop, take-append_le, take-append_ge, eq-nil_of_length, append_assoc, append-nil,
  if◌then◌else◌,
}
use ngx_http_tunnel_module.Rc.{ok, again}
use ngx_http_tunnel_module.Buffers.{ChainBuf, Chain, chain_bytes, Pool}
use ngx_http_tunnel_module.Buffers.ChainLaws.{NoFlush}
use ngx_http_tunnel_module.Capsule.Datagram.{prepare_datagram}

-- The UDP `send_chain` sends the bytes up to the end of the first flush buffer as one datagram.
abbrev pub first_datagram : Chain → List ℕ
first_datagram [] = []
first_datagram (b ∷ cl) = b.bytes ++ (if b.flush then [] else first_datagram cl)

abbrev pub both : Pool
both = record { chain_link = true; buf = true }

-- With memory, with at least `remaining` bytes in a chain in which no buffer is marked, and
-- `remaining` not 0, the datagram is the first `remaining` bytes and no byte is lost.
pub prepare_datagram-marks :
    (cl : Chain) (remaining : ℕ)
    → NoFlush cl
    → 0 < remaining
    → remaining ≤ length (chain_bytes cl)
    → ((prepare_datagram both cl remaining).0 ≡ ok)
      × (chain_bytes (prepare_datagram both cl remaining).1 ≡ chain_bytes cl)
      × (first_datagram (prepare_datagram both cl remaining).1 ≡ take remaining (chain_bytes cl))
unfolding prepare_datagram
prepare_datagram-marks [] remaining f pos h = absurd (omega arith)
prepare_datagram-marks (b ∷ cl) remaining f pos h = ground (
  arith,
  prepare_datagram-marks cl remaining f.1 pos,
  prepare_datagram-marks cl (remaining - length b.bytes) f.1,
  length-append b.bytes (chain_bytes cl),
  eq-nil_of_length b.bytes,
  take-append-drop remaining b.bytes,
  append_assoc (take remaining b.bytes) (drop remaining b.bytes) (chain_bytes cl),
  append-nil (take remaining b.bytes),
  append-nil b.bytes,
  take-append_le remaining b.bytes (chain_bytes cl),
  take-append_ge remaining b.bytes (chain_bytes cl),
)

-- With too few bytes the chain stays as it is, whatever the allocations would do.
pub prepare_datagram-short :
    (pool : Pool) (cl : Chain) (remaining : ℕ)
    → length (chain_bytes cl) < remaining
    → prepare_datagram pool cl remaining ≡ (again, cl)
unfolding prepare_datagram
prepare_datagram-short pool [] remaining h = refl
prepare_datagram-short pool (b ∷ cl) remaining h = ground (
  arith,
  prepare_datagram-short pool cl remaining,
  prepare_datagram-short pool cl (remaining - length b.bytes),
  length-append b.bytes (chain_bytes cl),
)

-- Whatever the outcome, failed allocations included, no byte of the body is lost or moved.
pub chain_bytes-prepare_datagram :
    (pool : Pool) (cl : Chain) (remaining : ℕ)
    → chain_bytes (prepare_datagram pool cl remaining).1 ≡ chain_bytes cl
unfolding prepare_datagram
chain_bytes-prepare_datagram pool [] remaining = refl
chain_bytes-prepare_datagram pool (b ∷ cl) remaining = ground (
  arith,
  chain_bytes-prepare_datagram pool cl remaining,
  chain_bytes-prepare_datagram pool cl (remaining - length b.bytes),
  take-append-drop remaining b.bytes,
  append_assoc (take remaining b.bytes) (drop remaining b.bytes) (chain_bytes cl),
)

-- Where the first buffer is not empty, is marked already and is shorter than the datagram, it
-- stays marked, and the datagram ends with it, too early.
pub prepare_datagram-early_flush :
    (pool : Pool) (b : ChainBuf) (cl : Chain) (remaining : ℕ)
    → b.flush ≡ true
    → 0 < length b.bytes
    → length b.bytes < remaining
    → first_datagram (prepare_datagram pool (b ∷ cl) remaining).1 ≡ b.bytes
unfolding prepare_datagram
prepare_datagram-early_flush pool b cl remaining f pos h = ground (arith, append-nil b.bytes)
