-- ===== src/Relay/Script.antt =====
-- A small nginx for the tests: upstream's bytes are given in advance, and everything is written at
-- once.
use ngx_http_tunnel_module.Common.{
  inl, append_assoc, ℕ, ◌+◌, ◌≤◌, ◌≡◌, refl, sym, ap, ◌∙◌, inr, min, true, false, Option, none,
  some, List, [], ◌∷◌, ◌++◌, length, length-append, length-take, append-nil, take, drop,
  drop-append_le, ◌==◌, if◌then◌else◌, arith, Bool-cases,
}
use ngx_http_tunnel_module.Rc.{ok}
use ngx_http_tunnel_module.Buffers.{ChainBuf, Chain, chain_bytes, Buf}
use ngx_http_tunnel_module.Relay.{
  would_block, Event, Net, Nginx, Received, received, Output, Written, shut,
}
use ngx_http_tunnel_module.Capsule.Datagram.Boundary.{both, first_datagram}
use ngx_http_tunnel_module.Relay.Upload.Flow.{SendsPrefix}
use ngx_http_tunnel_module.Relay.Upload.Datagram.{SendsDatagrams}
use ngx_http_tunnel_module.Relay.Download.Reserve.{RecvFits}
use ngx_http_tunnel_module.Relay.Download.Order.{IsPipe}

pub record Script : Type 0 where
  pub given : List ℕ
  pub taken : List ℕ
  pub incoming : List ℕ

abbrev recv_script : Net Script → ℕ → Net Script × Received
recv_script net size =
    let w = net.world in
    let xs = take size w.incoming in
    (
      record net { world = record w { given = w.given ++ xs; incoming = drop size w.incoming } },
      received xs,
    )

abbrev output_script : Output → Net Script → Buf → Buf → Written Script
output_script chain net h b = record {
  rc = ok;
  net = record net {
    world = record net.world { taken = net.world.taken ++ (h.content ++ b.content) };
  };
  header_buf = record h { pos = h.pos + length h.content; content = [] };
  send_buf = record b { pos = b.pos + length b.content; content = [] };
}

-- A part of the first buffer goes.
abbrev send_size : ChainBuf → ℕ → ℕ
send_size b limit = if limit == 0 then length b.bytes else min limit (length b.bytes)

abbrev send_script : Net Script → Chain → ℕ → Net Script × Option Chain
send_script net [] limit = (net, some [])
send_script net (b ∷ cl) limit = (
  record net { pc_sent = net.pc_sent + send_size b limit },
  some (record b { bytes = drop (send_size b limit) b.bytes } ∷ cl),
)

abbrev pub script : Nginx Script
script = record {
  pool = λ w. record { chain_link = true; buf = true };
  random = λ w. 258;
  send_chain = send_script;
  recv = recv_script;
  output_filter = output_script;
  read_request_body = λ net. (ok, net);
  exiting = λ w. false;
  handle_events = λ net. true;
  shutdown = λ w. (shut, w);
}

abbrev bytes_left : Option Chain → List ℕ
bytes_left none = []
bytes_left (some cl) = chain_bytes cl

abbrev size_of : Received → ℕ
size_of (received xs) = length xs
size_of _ = 0

pub script-SendsPrefix : SendsPrefix script
script-SendsPrefix net net' [] out limit e =
    let left = ap (λ r. bytes_left r.1) e in
    let count = ap (λ r. r.0.pc_sent) e in
    (0, sym left, omega (arith, count), omega arith, inr (omega arith))
script-SendsPrefix net net' (b ∷ cl) out limit e =
    let left = ap (λ r. bytes_left r.1) e in
    let count = ap (λ r. r.0.pc_sent) e in
    let within : send_size b limit ≤ length b.bytes = ground arith in
    (
      send_size b limit,
      sym left ∙ sym (drop-append_le (send_size b limit) b.bytes (chain_bytes cl) within),
      sym count,
      omega (arith, within, length-append b.bytes (chain_bytes cl)),
      ground arith,
    )

pub script-RecvFits : RecvFits script
script-RecvFits net net' size xs e =
    let n : length (take size net.world.incoming) ≡ length xs = ap (λ r. size_of r.1) e in
    omega (arith, n, length-take size net.world.incoming)

pub script-IsPipe : IsPipe script (λ w. w.given) (λ w. w.taken)
script-IsPipe = record {
  recv_given = λ net size. refl;
  recv_taken = λ net size. refl;
  shutdown_given = λ w. refl;
  shutdown_taken = λ w. refl;
  output_given = λ chain net h b. refl;
  output_taken = λ chain net h b handed. append-nil _;
  output_header = λ chain net h b. omega arith;
}

abbrev quiet : Event
quiet = record { ready = true; eof = false; error = false; timedout = false }

-- A fresh stream connection, with these bytes to come from upstream.
abbrev pub connected : List ℕ → Net Script
connected xs = record {
  world = record { given = []; taken = []; incoming = xs };
  pc = true;
  datagram = false;
  pc_read = quiet;
  pc_write = quiet;
  pc_sent = 0;
  c_read = quiet;
  c_write = quiet;
  c_sent = 0;
  c_buffered = false;
  out = 0;
  r_buffered = false;
  reading_body = true;
  bufs = [];
}

-- The same with datagrams: the world is what was sent.
abbrev behind_flush : Chain → Chain
behind_flush [] = []
behind_flush (b ∷ cl) = if b.flush then cl else behind_flush cl

abbrev send_datagram : Net (List (List ℕ)) → Chain → ℕ → Net (List (List ℕ)) × Option Chain
send_datagram net cl limit = (
  record net {
    world = net.world ++ (first_datagram cl ∷ []);
    pc_sent = net.pc_sent + length (first_datagram cl);
  },
  some (behind_flush cl),
)

abbrev pub datagram_script : Nginx (List (List ℕ))
datagram_script = record {
  pool = λ w. both;
  random = λ w. 258;
  send_chain = send_datagram;
  recv = λ net size. (net, would_block);
  output_filter = λ chain net h b. record { rc = ok; net = net; header_buf = h; send_buf = b };
  read_request_body = λ net. (ok, net);
  exiting = λ w. false;
  handle_events = λ net. true;
  shutdown = λ w. (shut, w);
}

first_datagram-behind_flush :
    (cl : Chain) → first_datagram cl ++ chain_bytes (behind_flush cl) ≡ chain_bytes cl
first_datagram-behind_flush [] = refl
first_datagram-behind_flush (b ∷ cl) = elim (Bool-cases b.flush) [
  | inl e ↦ rw e (ap (λ z. z ++ chain_bytes cl) (append-nil b.bytes))
  | inr e ↦ rw e (
      append_assoc b.bytes (first_datagram cl) (chain_bytes (behind_flush cl))
      ∙ ap (λ z. b.bytes ++ z) (first_datagram-behind_flush cl))
]

pub datagram_script-SendsDatagrams : SendsDatagrams datagram_script (λ w. w)
datagram_script-SendsDatagrams net net' cl out limit e = inl (
  sym (ap (λ r. r.0.world) e),
  sym (ap (λ r. r.0.pc_sent) e),
  ap (λ z. first_datagram cl ++ z) (sym (ap (λ r. bytes_left r.1) e))
      ∙ first_datagram-behind_flush cl,
)

abbrev pub datagram_connected : Net (List (List ℕ))
datagram_connected = record {
  world = [];
  pc = true;
  datagram = true;
  pc_read = quiet;
  pc_write = quiet;
  pc_sent = 0;
  c_read = quiet;
  c_write = quiet;
  c_sent = 0;
  c_buffered = false;
  out = 0;
  r_buffered = false;
  reading_body = true;
  bufs = [];
}
