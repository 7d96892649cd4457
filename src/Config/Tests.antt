-- ===== src/Config/Tests.antt =====
-- Runs of the configuration (src/core.c), and the theorem about the merge at one of them.
use ngx_http_tunnel_module.Common.{not, ◌==◌, ◌≡◌, refl, false, true, none, some, [], ◌∷◌}
use ngx_http_tunnel_module.Rc.{ok, error}
use ngx_http_tunnel_module.Acl.{conf_ok}
use ngx_http_tunnel_module.Target.{init_extended_connect}
use ngx_http_tunnel_module.Config.{
  SrvConf, ConfNginx, unset_conf, tunnel_pass, merge_srv_conf, Phases, access_phase, skip_phase,
  content_phase, tunnel_init,
}
use ngx_http_tunnel_module.Config.Merged.{IsMerged, merge_srv_conf-IsMerged}

abbrev nginx : ConfNginx
nginx = record {
  is_1_31 = false;
  bitmask_set = 1;
  ft_error = 2;
  ft_timeout = 4;
  ft_off = 8;
  address = some 5;
  compiles = true;
}

-- The parent sets a buffer size, the child turns the tunnel on.
abbrev parent : SrvConf
parent = record unset_conf { buffer_size = some 2048 }

abbrev child : SrvConf
child = record unset_conf { enable = some 1 }

pass_enables : tunnel_pass unset_conf false ≡ (conf_ok, child, true)
unfolding tunnel_pass
pass_enables = refl

abbrev result : SrvConf
result = elim (merge_srv_conf nginx parent child) [ none ↦ unset_conf | some conf ↦ conf ]

merges : merge_srv_conf nginx parent child ≡ some result
unfolding merge_srv_conf
merges = refl

inherits : (result.buffer_size ≡ some 2048) × (result.upstream.read_timeout ≡ some 120000)
unfolding merge_srv_conf
inherits = (refl, refl)

too_small : merge_srv_conf nginx unset_conf (record child { buffer_size = some 1023 }) ≡ none
unfolding merge_srv_conf
too_small = refl

-- The fourth pattern is refused: the three in front of it are compiled.
pattern_refused : init_extended_connect (λ n. not (n == 3)) ≡ (error, 0 ∷ 1 ∷ 2 ∷ [])
unfolding init_extended_connect
pattern_refused = refl

abbrev no_phases : Phases
no_phases = record { access = []; precontent = []; content = [] }

registers : tunnel_init (λ n. true) true true true (unset_conf ∷ []) no_phases ≡ (
  ok,
  record { access = access_phase ∷ []; precontent = skip_phase ∷ []; content = content_phase ∷ [] },
)
unfolding tunnel_init init_extended_connect
registers = refl

merge_srv_conf-IsMerged_example : IsMerged nginx parent result
merge_srv_conf-IsMerged_example =
    merge_srv_conf-IsMerged nginx parent child result
      (record { default = refl; off = refl; off_bit = refl }) merges
