-- ===== src/Auth.antt =====
-- src/auth.c: proxy authentication where nginx has none of its own (before 1.31).
pub mod Basic
pub mod Scan
pub mod Check
pub mod Reading
pub mod Lines
pub mod Pair
pub mod Decision
pub mod Sound
pub mod Answers
mod Tests
use ngx_http_tunnel_module.Common.{
  ℕ, suc, ◌+◌, ◌*◌, ◌/◌, Bool, true, false, not, Option, none, some, List, [], ◌∷◌, length, is_nil,
  ◌==◌, if◌then◌else◌, take, drop, ◌++◌,
}
use ngx_http_tunnel_module.Rc.{
  Rc, ok, error, declined, internal_server_error, proxy_auth_required, not_allowed, is_ok,
}
use ngx_http_tunnel_module.Acl.{ConfResult, conf_ok, conf_error, is_duplicate}

-- What the functions read of `ngx_http_tunnel_srv_conf_t`. A `proxy_auth_user_file` of none is NULL;
-- its complex value is a number.
pub record AuthConf : Type 0 where
  pub proxy_auth_user_file : Option ℕ
  pub probe_resistance : Bool
  pub allow_methods : List ℕ

-- A header of `r->headers_out`.
pub record HeaderOut : Type 0 where
  pub key : List ℕ
  pub value : List ℕ

-- What the functions change outside their own frame: the headers of the response and the files that
-- are open.
pub record World : Type 0 where
  pub headers_out : List HeaderOut
  pub open_files : ℕ

-- "Proxy-Authenticate", "Basic realm=\"proxy\"" and "Allow"
abbrev pub proxy_authenticate : HeaderOut
proxy_authenticate = record {
  key =
      80 ∷ 114 ∷ 111 ∷ 120 ∷ 121 ∷ 45 ∷ 65 ∷ 117 ∷ 116 ∷ 104 ∷ 101 ∷ 110 ∷ 116 ∷ 105 ∷ 99 ∷ 97 ∷ 116
      ∷ 101 ∷ [];
  value =
      66 ∷ 97 ∷ 115 ∷ 105 ∷ 99 ∷ 32 ∷ 114 ∷ 101 ∷ 97 ∷ 108 ∷ 109 ∷ 61 ∷ 34 ∷ 112 ∷ 114 ∷ 111 ∷ 120
      ∷ 121 ∷ 34 ∷ [];
}

abbrev pub allow : List ℕ → HeaderOut
allow methods = record { key = 65 ∷ 108 ∷ 108 ∷ 111 ∷ 119 ∷ []; value = methods }

-- `ngx_list_push` and the assignments behind it; false for an allocation that fails.
abbrev pub push : Bool → HeaderOut → Rc → World → Rc × World
push false h rc w = (internal_server_error, w)
push true h rc w = (rc, record w { headers_out = w.headers_out ++ h ∷ [] })

-- `room` is whether `ngx_list_push` succeeds.
unfoldable pub access_denied : Bool → AuthConf → World → Rc × World
access_denied room conf w =
    if not conf.probe_resistance
    then push room proxy_authenticate proxy_auth_required w
    else if not (is_nil conf.allow_methods)
    then push room (allow conf.allow_methods) not_allowed w
    else (not_allowed, w)

-- The bytes of a C string.
abbrev pub c_string : List ℕ → List ℕ
c_string [] = []
c_string (b ∷ bs) = let rest = c_string bs in if b == 0 then [] else b ∷ rest

-- `ngx_strcmp(s1, s2) == 0` for strings without their NUL.
abbrev pub same_bytes : List ℕ → List ℕ → Bool
same_bytes [] [] = true
same_bytes [] (y ∷ ys) = false
same_bytes (x ∷ xs) [] = false
same_bytes (x ∷ xs) (y ∷ ys) = let rest = same_bytes xs ys in if x == y then rest else false

-- `ngx_crypt`: its return code and the string that it leaves, none for NULL, given the password and
-- the hash.
abbrev pub Crypt : Type 0
Crypt = List ℕ → List ℕ → Rc × Option (List ℕ)

unfoldable pub encrypted_rc : Rc → Option (List ℕ) → List ℕ → (Rc × World) → World → Rc × World
encrypted_rc rc none hash denied w = (internal_server_error, w)
encrypted_rc rc (some encrypted) hash denied w =
    if not (is_ok rc)
    then (internal_server_error, w)
    else if same_bytes (c_string encrypted) hash
    then (ok, w)
    else denied

-- `len` and `hash_bytes` are the two fields of `passwd`; `hash_bytes` is what stands in memory from
-- its pointer on.
unfoldable pub crypt_handler : Crypt → Bool → AuthConf → ℕ → List ℕ → List ℕ → World → Rc × World
unfolding encrypted_rc
crypt_handler crypt room conf len hash_bytes client_passwd w =
    let hash = c_string hash_bytes in
    let (rc, encrypted) = crypt (c_string client_passwd) hash in
    if len == 0
    then access_denied room conf w
    else encrypted_rc rc encrypted hash (access_denied room conf w) w

-- The directive `tunnel_proxy_auth_user_file`. The field is none while it is NGX_CONF_UNSET_PTR;
-- `fresh` is the address that `ngx_palloc` gives, none for NULL.
pub proxy_auth_user_file : Bool → Option ℕ → Bool → Option ℕ → ConfResult × Option ℕ
proxy_auth_user_file nginx_1_31 fresh compiles field =
    if nginx_1_31 then (conf_error, field) else elim field [
      | some address ↦ (is_duplicate, some address)
      | none ↦ elim fresh [
        | none ↦ (conf_error, none)
        | some address ↦ (if compiles then conf_ok else conf_error, some address)
      ]
    ]
