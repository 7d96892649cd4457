-- ===== src/Lib.antt =====
-- A verification library for ngx_http_tunnel_module, the nginx module that tunnels CONNECT (TCP)
-- and extended CONNECT-UDP requests.
--
-- The program. An access handler (src/core.c, src/auth.c, src/acl.c) admits a CONNECT request, the
-- content handler (src/core.c) negotiates padding or capsules and connects upstream (src/connect.c,
-- src/udp.c, src/utils.c), and the relay (src/relay.c) then moves bytes both ways. The relay calls a
-- pair of filters through pointers of the tunnel's context: src/capsule.c turns the client's
-- DATAGRAM capsules into datagrams and datagrams into capsules, src/padding.c hides the sizes of the
-- first eight messages each way. The context (`ngx_http_tunnel_ctx_t`) is the state they share.
--
-- The files.
--   Common            lists, options and Boolean tests on the native numbers; Common/Bits, Common/Lists
--   Rc                return codes (`ngx_int_t`)
--   Buffers           body chains, working buffers, `tunnel_utils_free_consumed_chain` (src/utils.c)
--                     and the macro `downstream_prepare_addition_header`
--   Context           `ngx_http_tunnel_ctx_t` and its parts (src/ngx_http_tunnel_module.h); the modules
--                     named Kept are about the fields that a function leaves alone
--   Capsule/Varint    `tunnel_capsule_varint_size`, `capsule_encode_varint`, `capsule_read_varint`,
--                     `capsule_chain_read_varint`, `capsule_chain_advance` (src/capsule.c); below it
--                     Bytes reads a chain as a flat list, RoundTrip is about encoding and decoding
--   Capsule/Datagram  `capsule_prepare_datagram`
--   Capsule/Downstream  `tunnel_capsule_downstream_filter`; Parser is the format as a parser of a flat
--                     list, Refine relates the filter to it, Resume, Calls are about bytes that come later
--   Capsule/Upstream  `tunnel_capsule_upstream_filter`
--   Padding/Downstream, Padding/Upstream  the two filters of src/padding.c; Padding/RoundTrip relates
--                     them to each other
--   Capsule/Header    `tunnel_capsule_is_header_present`; Headers has what it shares with
--                     padding, Headers/Named the names in terms of their bytes, Headers/Script a
--                     `ngx_strncasecmp` for the tests
--   Padding/Negotiation  `tunnel_padding_needed`, `tunnel_padding_add_response_header`
--   Padding/Reset     `tunnel_padding_h2_prepend_rst_stream_data` and the handler of its frame; Wire is the
--                     frame as HTTP/2 reads it, Queue the stream with it
--   Relay             the connections as src/relay.c sees them, and the calls into nginx; Relay/Upload
--                     is `recv_downstream` and `send_upstream`, Relay/Download `recv_upstream` and
--                     `send_downstream`, Relay/Process `process_relay` and `close_upstream_write`,
--                     Relay/Finalize `tunnel_relay_finalize`; Relay/Script is an nginx for the tests
--   Relay/Life        `tunnel_relay_start`, `tunnel_relay_init_request_body`, the event handlers,
--                     `tunnel_connect_process_header` (src/connect.c) and `tunnel_udp_process_header`
--                     (src/udp.c): a tunnel from the moment upstream is connected, and what may happen
--                     to it; Whole is about its request, Alive about events, Taken about all of it
--   Access            `ngx_http_tunnel_access_handler` (src/core.c)
--   Auth              src/auth.c: Auth/Basic is `tunnel_auth_parse_basic`, Auth/Scan the loops over the
--                     password file, Auth/Check `tunnel_auth_check`; Reading compares the chunks
--                     with the file as one list, Lines the bytes with the lines, Decision, Sound and
--                     Answers are about the answer
--   Session           a request while its tunnel is set up, and what nginx gives
--   Connect           src/connect.c and `tunnel_udp_init_upstream` (src/udp.c); Connect/Release is
--                     `tunnel_connect_finalize_request`
--   Content           `ngx_http_tunnel_content_handler` (src/core.c); Plain and Outcome follow the reference
--                     and the calls, References the calls that give the reference back, Ready and
--                     Handed the context that the relay gets
--   Config            `ngx_http_tunnel_create_srv_conf`, `ngx_http_tunnel_pass`,
--                     `ngx_http_tunnel_merge_srv_conf`, `ngx_http_tunnel_init` (src/core.c)
--   Acl, Target       src/acl.c; `tunnel_utils_init_extended_connect`,
--                     `tunnel_util_parse_extended_connect`, `tunnel_utils_match_protocol`
--                     (src/utils.c) and `tunnel_udp_is_request` (src/udp.c);
--                     Target/Variable is `tunnel_get_target_host_handler` (src/core.c)
--
-- How the code is modelled. A buffer is the list of the bytes from `pos` to `last`; a pointer into a
-- body chain is the part of the chain from there on. A function that takes `ctx` and `activity`
-- returns an `Outcome`: the return code and both as it leaves them. An allocation's success is an
-- argument (`Pool`), and so is the value of `ngx_random()`. A byte is a number below 256, a size is a
-- number: sizes in the code stay far below 2^64, and where a width matters (the `u_char` of an
-- encoded byte) the reduction is written out. The capsule state machine goes forward through at most
-- four states, so its loop is written as the chain of its cases. The loop of the padding reader comes
-- back to its first state once for each frame, eight times at most, and counts down from the frames
-- that are left to it: the count is enough because the filter removes itself behind the eighth.
--
-- The loop over the password file takes fuel: each read moves on by a byte at least, so that one more
-- than the size of the file is enough, and the theorems about it give that much.
--
-- nginx, the sockets and the regex engine are parameters: the record `Nginx` of Relay has the calls of
-- nginx over a world of any type, and the theorems name what they rely on (`IsPipe`, `SendsPrefix`,
-- `SendsDatagrams`, `RecvFits`, `IsStrncasecmp`). The loop of `process_relay` goes on for as long as bytes come, so it is a
-- relation (`RelayLoop`) between a state and what a call leaves.
--
-- What is not modelled: logging, the tables of directives and the registration of the variable
-- (src/core.c), the wiping of the buffer of src/auth.c, and nginx itself with the patches that the
-- repository carries. Where one part calls another, some calls are only noted: `ngx_http_upstream_init`
-- is an action of the set-up, which leaves out that nginx may end the request inside it; Relay/Finalize
-- counts the calls that Padding/Reset models; Access is given the answers of Auth and Acl, and Relay
-- an output chain that has a buffer.
pub mod Common
pub mod Rc
pub mod Buffers
pub mod Context
pub mod Capsule
pub mod Padding
pub mod Relay
pub mod Acl
pub mod Headers
pub mod Target
pub mod Access
pub mod Auth
pub mod Session
pub mod Connect
pub mod Content
pub mod Config
