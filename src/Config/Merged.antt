-- ===== src/Config/Merged.antt =====
-- What `ngx_http_tunnel_merge_srv_conf` (src/core.c) leaves.
use ngx_http_tunnel_module.Common.{
  Bool, Bool-cases, List, Option, [], ap, arith, bit_and, bit_or, false, if_cases, inl, inr, is_nil,
  ltb_false→le, none, not, option_cases, refl, some, sym, true, ℕ, ◌&&◌, ◌*◌, ◌==◌, ◌||◌, ◌∙◌, ◌∷◌,
  ◌≡◌, ◌≤◌, ◌⊎◌,
}
use mathlib.Core.Path.{subst}
use ngx_http_tunnel_module.Config.{
  SrvConf, ConfNginx, merge_value, merge_bitmask, merge_next_upstream, merge_size, is_small,
  merge_probe, resists, merge_rest, merge_udp_path, merge_srv_conf,
}

-- The bits of nginx are there: a set mask is not 0, and the mask for `off` has its bit.
pub record HasBits (nginx : ConfNginx) : Type 0 where
  pub default : (bit_or nginx.bitmask_set (bit_or nginx.ft_error nginx.ft_timeout) == 0) ≡ false
  pub off : (bit_or nginx.bitmask_set nginx.ft_off == 0) ≡ false
  pub off_bit : (bit_and (bit_or nginx.bitmask_set nginx.ft_off) nginx.ft_off == 0) ≡ false

both_false : (a b : Bool) → a || b ≡ false → (a ≡ false) × (b ≡ false)
both_false a b e = (ground (arith, e), ground (arith, e))

twice {ℓ} :
    {A : Type ℓ} (c p d : Option A) → merge_value (merge_value c p d) p d ≡ merge_value c p d
twice (some x) p d = refl
twice none (some y) d = refl
twice none none none = refl
twice none none (some z) = refl

bitmask_set : (c p d : ℕ) → (d == 0) ≡ false → (merge_bitmask c p d == 0) ≡ false
bitmask_set c p d h =
    if_cases (λ m. (m == 0) ≡ false) (not (c == 0)) _ _ (λ e. ground arith)
      (λ _. if_cases (λ m. (m == 0) ≡ false) (not (p == 0)) _ _ (λ e. ground arith) (λ _. h))

bitmask_kept : (c p d : ℕ) → (c == 0) ≡ false → merge_bitmask c p d ≡ c
bitmask_kept c p d h = rw h refl

next_upstream_twice :
    (nginx : ConfNginx)
    → HasBits nginx
    → (p c : ℕ)
    → merge_next_upstream nginx p (merge_next_upstream nginx p c) ≡ merge_next_upstream nginx p c
next_upstream_twice nginx bits p c =
    let d = bit_or nginx.bitmask_set (bit_or nginx.ft_error nginx.ft_timeout) in
    let m = merge_bitmask c p d in
    elim (Bool-cases (bit_and m nginx.ft_off == 0)) [
      | inl e ↦ rw (e, bitmask_kept m p d (bitmask_set c p d bits.default), e) refl
      | inr e ↦
          rw (e, bitmask_kept (bit_or nginx.bitmask_set nginx.ft_off) p d bits.off, bits.off_bit)
            refl
    ]

abbrev merged : ConfNginx → SrvConf → SrvConf → SrvConf
merged nginx prev conf = merge_rest nginx prev (merge_probe prev (merge_size prev conf))

merged_twice :
    (nginx : ConfNginx) (bits : HasBits nginx) (prev conf : SrvConf) (path : ℕ)
    → let c : SrvConf = record (merged nginx prev conf) { udp_path = some path } in
      merged nginx prev c ≡ c
merged_twice nginx bits prev conf path =
    rw
      (
        twice conf.enable prev.enable (some 0),
        twice conf.proxy_auth_user_file prev.proxy_auth_user_file (some 0),
        twice conf.buffer_size prev.buffer_size (some (64 * 1024)),
        twice conf.connect_timeout prev.connect_timeout (some 60000),
        twice conf.idle_timeout prev.idle_timeout (some 120000),
        twice conf.tcp_nodelay prev.tcp_nodelay (some 0),
        twice conf.probe_resistance prev.probe_resistance (some 0),
        twice conf.allow_methods prev.allow_methods (some []),
        twice conf.padding prev.padding (some 0),
        twice conf.udp prev.udp (some 0),
        twice conf.acl_eval_index prev.acl_eval_index none,
        twice conf.upstream.store prev.upstream.store (some 0),
        twice conf.upstream.store_access prev.upstream.store_access (some 384),
        twice conf.upstream.next_upstream_tries prev.upstream.next_upstream_tries (some 0),
        twice conf.upstream.buffering prev.upstream.buffering (some 0),
        twice conf.upstream.request_buffering prev.upstream.request_buffering (some 0),
        twice conf.upstream.ignore_client_abort prev.upstream.ignore_client_abort (some 0),
        twice conf.upstream.next_upstream_timeout prev.upstream.next_upstream_timeout (some 0),
        twice conf.upstream.send_lowat prev.upstream.send_lowat (some 0),
        twice conf.upstream.connect_timeout prev.upstream.connect_timeout
            (merge_value conf.connect_timeout prev.connect_timeout (some 60000)),
        twice conf.upstream.send_timeout prev.upstream.send_timeout
            (merge_value conf.idle_timeout prev.idle_timeout (some 120000)),
        twice conf.upstream.read_timeout prev.upstream.read_timeout
            (merge_value conf.idle_timeout prev.idle_timeout (some 120000)),
        twice conf.upstream.buffer_size prev.upstream.buffer_size
            (merge_value conf.buffer_size prev.buffer_size (some (64 * 1024))),
        next_upstream_twice nginx bits prev.upstream.next_upstream conf.upstream.next_upstream,
      )
      refl

-- No list of methods for `Allow`, or an empty one.
abbrev pub NoMethods : Option (List ℕ) → Type 0
NoMethods methods = (methods ≡ none) ⊎ (methods ≡ some [])

no_methods :
    (methods : Option (List ℕ))
    → (elim methods [ none ↦ false | some m ↦ not (is_nil m) ]) ≡ false
    → NoMethods methods
no_methods none e = inl refl
no_methods (some []) e = inr refl
no_methods (some (x ∷ xs)) e = ground (arith, e)

no_probe :
    (probe : Option ℕ)
    → (elim probe [ none ↦ true | some n ↦ not (n == 0) ]) ≡ false
    → probe ≡ some 0
no_probe none e = ground (arith, e)
no_probe (some n) e = ground (arith, e)

not_resisting :
    (modern : Bool) (conf : SrvConf)
    → modern && resists conf ≡ false
    → (modern ≡ false) ⊎ ((conf.probe_resistance ≡ some 0) × NoMethods conf.allow_methods)
not_resisting false conf e = inl refl
not_resisting true conf e =
    let (p, m) =
      both_false (elim conf.probe_resistance [ none ↦ true | some n ↦ not (n == 0) ]) _ e in
    inr (no_probe conf.probe_resistance p, no_methods conf.allow_methods m)

-- What a merged configuration is.
pub record IsMerged (nginx : ConfNginx) (prev conf : SrvConf) : Type 0 where
  pub size : ℕ
  pub buffer_size : conf.buffer_size ≡ some size
  pub enough : 1024 ≤ size
  pub modern :
      (nginx.is_1_31 ≡ false) ⊎ ((conf.probe_resistance ≡ some 0) × NoMethods conf.allow_methods)
  pub path : ℕ
  pub udp_path : conf.udp_path ≡ some path
  pub settled : merge_srv_conf nginx prev conf ≡ some conf

abbrev MergedOnly : ConfNginx → SrvConf → Option SrvConf → Type 0
MergedOnly nginx prev none = Unit {0}
MergedOnly nginx prev (some c) = IsMerged nginx prev c

merge_value_default : (c p : Option ℕ) (d : ℕ) → (n : ℕ) × (merge_value c p (some d) ≡ some n)
merge_value_default (some x) p d = (x, refl)
merge_value_default none (some y) d = (y, refl)
merge_value_default none none d = (d, refl)

merge_udp_path_set :
    (nginx : ConfNginx) (prev : Option ℕ) (path : ℕ)
    → merge_udp_path nginx prev (some path) ≡ some path
merge_udp_path_set nginx none path = refl
merge_udp_path_set nginx (some p) path = refl

merge_passes :
    (nginx : ConfNginx) (prev conf : SrvConf) (path : ℕ)
    → is_small (merge_size prev conf).buffer_size ≡ false
    → nginx.is_1_31 && resists (merge_probe prev (merge_size prev conf)) ≡ false
    → merge_udp_path nginx prev.udp_path conf.udp_path ≡ some path
    → merge_srv_conf nginx prev conf
      ≡ some (record (merged nginx prev conf) { udp_path = some path })
unfolding merge_srv_conf
merge_passes nginx prev conf path e e' e'' = simp (e, e', e'', merge_srv_conf)

merged-settled :
    (nginx : ConfNginx) (bits : HasBits nginx) (prev conf : SrvConf) (path : ℕ)
    → is_small (merge_size prev conf).buffer_size ≡ false
    → nginx.is_1_31 && resists (merge_probe prev (merge_size prev conf)) ≡ false
    → let c : SrvConf = record (merged nginx prev conf) { udp_path = some path } in
      merge_srv_conf nginx prev c ≡ some c
merged-settled nginx bits prev conf path e e' =
    let c : SrvConf = record (merged nginx prev conf) { udp_path = some path } in
    let big : is_small (merge_size prev c).buffer_size ≡ false =
      rw (twice conf.buffer_size prev.buffer_size (some (64 * 1024))) e in
    let modern : nginx.is_1_31 && resists (merge_probe prev (merge_size prev c)) ≡ false =
      rw
        (
          twice conf.probe_resistance prev.probe_resistance (some 0),
          twice conf.allow_methods prev.allow_methods (some []),
        )
        e' in
    merge_passes nginx prev c path big modern (merge_udp_path_set nginx prev.udp_path path)
    ∙ ap (λ (x : SrvConf). some (record x { udp_path = some path }))
        (merged_twice nginx bits prev conf path)

merge_srv_conf-MergedOnly :
    (nginx : ConfNginx) (bits : HasBits nginx) (prev conf : SrvConf)
    → MergedOnly nginx prev (merge_srv_conf nginx prev conf)
unfolding merge_srv_conf
merge_srv_conf-MergedOnly nginx bits prev conf =
    let M = MergedOnly nginx prev in
    let (n, size) = merge_value_default conf.buffer_size prev.buffer_size (64 * 1024) in
    if_cases M (is_small (merge_size prev conf).buffer_size) _ _ (λ _. tt)
      (λ e.
        if_cases M (nginx.is_1_31 && resists (merge_probe prev (merge_size prev conf))) _ _
          (λ _. tt)
          (λ e'.
            option_cases M (merge_udp_path nginx prev.udp_path conf.udp_path) none
              (λ path. some (record (merged nginx prev conf) { udp_path = some path })) (λ _. tt)
              (λ path _. record {
                size = n;
                buffer_size = size;
                enough = ltb_false→le n 1024 (ap is_small (sym size) ∙ e);
                modern = not_resisting nginx.is_1_31 (merge_probe prev (merge_size prev conf)) e';
                path = path;
                udp_path = refl;
                settled = merged-settled nginx bits prev conf path e e';
              })))

-- A configuration that the merge accepts, whatever was set in it and in its parent: the buffers
-- have 1024 bytes at least, there is a path for CONNECT-UDP, from nginx 1.31 on probe resistance is
-- off and has no methods, and merging it again with the same parent changes nothing. The bits that
-- nginx uses for the next upstream are there.
pub merge_srv_conf-IsMerged :
    (nginx : ConfNginx) (prev conf conf' : SrvConf)
    → HasBits nginx
    → merge_srv_conf nginx prev conf ≡ some conf'
    → IsMerged nginx prev conf'
merge_srv_conf-IsMerged nginx prev conf conf' bits e =
    subst (MergedOnly nginx prev) e (merge_srv_conf-MergedOnly nginx bits prev conf)
