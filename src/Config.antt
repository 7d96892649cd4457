-- ===== src/Config.antt =====
-- The configuration of a server (src/core.c): its creation, the directive `tunnel_connect`, the
-- merge with the parent's, and the registration of the handlers.
pub mod Merged
mod Tests
use ngx_http_tunnel_module.Common.{
  ℕ, ◌*◌, Bool, true, false, not, ◌&&◌, ◌||◌, Option, none, some, List, [], ◌∷◌, ◌++◌, is_nil, ltb,
  ◌==◌, if◌then◌else◌, bit_and, bit_or, ◌>>=◌,
}
use ngx_http_tunnel_module.Rc.{Rc, ok, error, is_ok}
use ngx_http_tunnel_module.Target.{init_extended_connect}
use ngx_http_tunnel_module.Acl.{ConfResult, conf_ok, is_duplicate}

-- What the module writes of `ngx_http_upstream_conf_t`. A field of none is one of the
-- NGX_CONF_UNSET values; flags are 0 and 1, and a bitmask of 0 is unset.
pub record UpstreamConf : Type 0 where
  pub store : Option ℕ
  pub store_access : Option ℕ
  pub next_upstream_tries : Option ℕ
  pub buffering : Option ℕ
  pub request_buffering : Option ℕ
  pub ignore_client_abort : Option ℕ
  pub connect_timeout : Option ℕ
  pub send_timeout : Option ℕ
  pub read_timeout : Option ℕ
  pub next_upstream_timeout : Option ℕ
  pub send_lowat : Option ℕ
  pub buffer_size : Option ℕ
  pub next_upstream : ℕ
  pub ignore_input : ℕ
  pub label : List ℕ

-- `ngx_http_tunnel_srv_conf_t`. A pointer is its address: none where it is NGX_CONF_UNSET_PTR, and
-- 0 for NULL; `udp_path` is none for NULL, and so is the data of `allow_methods`.
pub record SrvConf : Type 0 where
  pub enable : Option ℕ
  pub upstream : UpstreamConf
  pub proxy_auth_user_file : Option ℕ
  pub allow_methods : Option (List ℕ)
  pub buffer_size : Option ℕ
  pub connect_timeout : Option ℕ
  pub idle_timeout : Option ℕ
  pub tcp_nodelay : Option ℕ
  pub probe_resistance : Option ℕ
  pub padding : Option ℕ
  pub acl_eval_index : Option ℕ
  pub udp : Option ℕ
  pub udp_path : Option ℕ

abbrev pub unset_conf : SrvConf
unset_conf = record {
  enable = none;
  upstream = record {
    store = none;
    store_access = none;
    next_upstream_tries = none;
    buffering = none;
    request_buffering = none;
    ignore_client_abort = none;
    connect_timeout = none;
    send_timeout = none;
    read_timeout = none;
    next_upstream_timeout = none;
    send_lowat = none;
    buffer_size = none;
    next_upstream = 0;
    ignore_input = 0;
    label = [];
  };
  proxy_auth_user_file = none;
  allow_methods = none;
  buffer_size = none;
  connect_timeout = none;
  idle_timeout = none;
  tcp_nodelay = none;
  probe_resistance = none;
  padding = none;
  acl_eval_index = none;
  udp = none;
  udp_path = none;
}

-- `room` is whether `ngx_pcalloc` succeeds.
unfoldable pub create_srv_conf : Bool → Option SrvConf
create_srv_conf room = if not room then none else some unset_conf

-- The directive, with `cscf->allow_connect`.
unfoldable pub tunnel_pass : SrvConf → Bool → ConfResult × SrvConf × Bool
tunnel_pass conf allow_connect = elim conf.enable [
  | some _ ↦ (is_duplicate, conf, allow_connect)
  | none ↦ (conf_ok, record conf { enable = some 1 }, true)
]

-- The constants of nginx, and what its calls return: the address from `ngx_palloc`, none for NULL,
-- and whether `ngx_http_compile_complex_value` succeeds.
pub record ConfNginx : Type 0 where
  pub is_1_31 : Bool
  pub bitmask_set : ℕ
  pub ft_error : ℕ
  pub ft_timeout : ℕ
  pub ft_off : ℕ
  pub address : Option ℕ
  pub compiles : Bool

-- `ngx_conf_merge_value` and its kin.
abbrev pub merge_value {ℓ} : {A : Type ℓ} → Option A → Option A → Option A → Option A
merge_value (some x) prev default = some x
merge_value none (some x) default = some x
merge_value none none default = default

-- `ngx_conf_merge_bitmask_value`
abbrev pub merge_bitmask : ℕ → ℕ → ℕ → ℕ
merge_bitmask conf prev default =
    if not (conf == 0) then conf else if not (prev == 0) then prev else default

-- `conf->upstream.next_upstream`
abbrev pub merge_next_upstream : ConfNginx → ℕ → ℕ → ℕ
merge_next_upstream nginx prev conf =
    let merged =
      merge_bitmask conf prev (bit_or nginx.bitmask_set (bit_or nginx.ft_error nginx.ft_timeout)) in
    if not (bit_and merged nginx.ft_off == 0) then bit_or nginx.bitmask_set nginx.ft_off else merged

abbrev pub merge_upstream : ConfNginx → SrvConf → UpstreamConf → UpstreamConf → UpstreamConf
merge_upstream nginx conf prev u = record {
  store = merge_value u.store prev.store (some 0);
  store_access = merge_value u.store_access prev.store_access (some 384);
  next_upstream_tries = merge_value u.next_upstream_tries prev.next_upstream_tries (some 0);
  buffering = merge_value u.buffering prev.buffering (some 0);
  request_buffering = merge_value u.request_buffering prev.request_buffering (some 0);
  ignore_client_abort = merge_value u.ignore_client_abort prev.ignore_client_abort (some 0);
  connect_timeout = merge_value u.connect_timeout prev.connect_timeout conf.connect_timeout;
  send_timeout = merge_value u.send_timeout prev.send_timeout conf.idle_timeout;
  read_timeout = merge_value u.read_timeout prev.read_timeout conf.idle_timeout;
  next_upstream_timeout = merge_value u.next_upstream_timeout prev.next_upstream_timeout (some 0);
  send_lowat = merge_value u.send_lowat prev.send_lowat (some 0);
  buffer_size = merge_value u.buffer_size prev.buffer_size conf.buffer_size;
  next_upstream = merge_next_upstream nginx prev.next_upstream u.next_upstream;
  ignore_input = 1;
  label = 116 ∷ 117 ∷ 110 ∷ 110 ∷ 101 ∷ 108 ∷ [];
}

-- Up to the test of the buffer size.
abbrev pub merge_size : SrvConf → SrvConf → SrvConf
merge_size prev conf = record conf {
  enable = merge_value conf.enable prev.enable (some 0);
  proxy_auth_user_file = merge_value conf.proxy_auth_user_file prev.proxy_auth_user_file (some 0);
  buffer_size = merge_value conf.buffer_size prev.buffer_size (some (64 * 1024));
}

-- `conf->buffer_size < 1024`; the largest value of its type, which stands for unset, is not.
abbrev pub is_small : Option ℕ → Bool
is_small none = false
is_small (some n) = ltb n 1024

-- From there to the test of the version.
abbrev pub merge_probe : SrvConf → SrvConf → SrvConf
merge_probe prev conf = record conf {
  connect_timeout = merge_value conf.connect_timeout prev.connect_timeout (some 60000);
  idle_timeout = merge_value conf.idle_timeout prev.idle_timeout (some 120000);
  tcp_nodelay = merge_value conf.tcp_nodelay prev.tcp_nodelay (some 0);
  probe_resistance = merge_value conf.probe_resistance prev.probe_resistance (some 0);
  allow_methods = merge_value conf.allow_methods prev.allow_methods (some []);
}

-- `conf->probe_resistance || conf->probe_resistance_allow_methods.len != 0`
abbrev pub resists : SrvConf → Bool
resists conf =
    (elim conf.probe_resistance [ none ↦ true | some n ↦ not (n == 0) ])
    || (elim conf.allow_methods [ none ↦ false | some methods ↦ not (is_nil methods) ])

-- From there to the path.
abbrev pub merge_rest : ConfNginx → SrvConf → SrvConf → SrvConf
merge_rest nginx prev conf = record conf {
  padding = merge_value conf.padding prev.padding (some 0);
  udp = merge_value conf.udp prev.udp (some 0);
  upstream = merge_upstream nginx conf prev.upstream conf.upstream;
  acl_eval_index = merge_value conf.acl_eval_index prev.acl_eval_index none;
}

-- `conf->udp_path`, or none for NGX_CONF_ERROR.
abbrev pub merge_udp_path : ConfNginx → Option ℕ → Option ℕ → Option ℕ
merge_udp_path nginx (some prev) none = some prev
merge_udp_path nginx prev (some path) = some path
merge_udp_path nginx none none = if nginx.compiles then nginx.address else none

-- None stands for NGX_CONF_ERROR, with which nginx gives the whole configuration up.
unfoldable pub merge_srv_conf : ConfNginx → SrvConf → SrvConf → Option SrvConf
merge_srv_conf nginx prev conf =
    let sized = merge_size prev conf in
    let probed = merge_probe prev sized in
    let merged = merge_rest nginx prev probed in
    if is_small sized.buffer_size
    then none
    else if nginx.is_1_31 && resists probed
    then none
    else elim (merge_udp_path nginx prev.udp_path conf.udp_path) [
      | none ↦ none
      | some path ↦ some (record merged { udp_path = some path })
    ]

-- The handlers of the three phases.
pub data PhaseHandler : Type 0 where
  access_phase skip_phase content_phase : PhaseHandler

pub record Phases : Type 0 where
  pub access : List PhaseHandler
  pub precontent : List PhaseHandler
  pub content : List PhaseHandler

-- `tscf->enable` of a server, after the merge.
abbrev pub any_enabled : List SrvConf → Bool
any_enabled [] = false
any_enabled (conf ∷ confs) =
    let rest = any_enabled confs in elim conf.enable [ none ↦ true | some n ↦ not (n == 0) || rest ]

-- The three flags are whether each `ngx_array_push` succeeds, the first argument is whether the
-- engine takes the pattern of a place.
unfoldable pub tunnel_init : (ℕ → Bool) → Bool → Bool → Bool → List SrvConf → Phases → Rc × Phases
tunnel_init compiles access_push skip_push content_push servers phases =
    let accessed = record phases { access = phases.access ++ access_phase ∷ [] } in
    let skipped = record accessed { precontent = phases.precontent ++ skip_phase ∷ [] } in
    if not (any_enabled servers)
    then (ok, phases)
    else if not (is_ok (init_extended_connect compiles).0)
    then (error, phases)
    else if not access_push
    then (error, phases)
    else if not skip_push
    then (error, accessed)
    else if not content_push
    then (error, skipped)
    else (ok, record skipped { content = phases.content ++ content_phase ∷ [] })
