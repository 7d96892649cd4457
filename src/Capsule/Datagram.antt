-- ===== src/Capsule/Datagram.antt =====
-- `capsule_prepare_datagram` of src/capsule.c: mark the end of one datagram in the body chain.
pub mod Boundary
use ngx_http_tunnel_module.Common.{
  ℕ, ◌-◌, Bool, false, true, not, List, [], ◌∷◌, ltb, ◌==◌, if◌then◌else◌, take, drop,
}
use ngx_http_tunnel_module.Rc.{Rc, ok, again, internal_server_error}
use ngx_http_tunnel_module.Buffers.{ChainBuf, Chain, buf_size, Pool}

abbrev behind : ChainBuf → Rc × Chain → Rc × Chain
behind b (rc, cl) = (rc, b ∷ cl)

-- Cut `b` after `remaining` bytes: the tail goes into a new link. `*tail = *b` shares the bytes.
split_buf : Pool → ChainBuf → Chain → ℕ → Rc × Chain
split_buf pool b cl remaining =
    if not pool.chain_link
    then (internal_server_error, b ∷ cl)
    else if not pool.buf
    then (internal_server_error, b ∷ cl)
    else (
      ok,
      record b {
        bytes = take remaining b.bytes;
        last_buf = false;
        last_in_chain = false;
        flush = true;
      }
          ∷ record b { bytes = drop remaining b.bytes; flush = false }
          ∷ cl,
    )

-- The return code, and the chain from the same first link on. A buffer that is passed over stays
-- as it is.
unfoldable pub prepare_datagram : Pool → Chain → ℕ → Rc × Chain
unfolding split_buf
prepare_datagram pool [] remaining = (again, [])
prepare_datagram pool (b ∷ cl) remaining =
    let size = buf_size b in
    let skip = behind b (prepare_datagram pool cl remaining) in
    let pass = behind b (prepare_datagram pool cl (remaining - size)) in
    if size == 0
    then skip
    else if ltb size remaining
    then pass
    else if ltb remaining size
    then split_buf pool b cl remaining
    else (ok, record b { flush = true } ∷ cl)
