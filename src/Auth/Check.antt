-- ===== src/Auth/Check.antt =====
-- `tunnel_auth_check` of src/auth.c.
use ngx_http_tunnel_module.Common.{
  ℕ, ◌+◌, ◌-◌, Bool, not, Option, none, some, List, [], if◌then◌else◌,
}
use ngx_http_tunnel_module.Rc.{Rc, ok, forbidden, internal_server_error}
use ngx_http_tunnel_module.Headers.{Strncasecmp}
use ngx_http_tunnel_module.Auth.{AuthConf, World, Crypt, access_denied, c_string, crypt_handler}
use ngx_http_tunnel_module.Auth.Basic.{
  Credentials, basic_declined, basic_error, credentials, parse_basic,
}
use ngx_http_tunnel_module.Auth.Scan.{
  Read, Scanned, scan_failed, not_found, terminated, at_end, scan_file, scan_start,
}

-- What `ngx_open_file` gives: a descriptor, or an errno that is NGX_ENOENT or not.
pub data Opened : Type 0 where
  opened enoent open_failed : Opened

-- The calls into nginx and the system. The flags are whether `ngx_list_push` and the two calls of
-- `ngx_pnalloc` succeed; `complex_value` gives the name of the file.
pub record AuthNginx : Type 0 where
  pub push_room : Bool
  pub decode_room : Bool
  pub hash_room : Bool
  pub same : Strncasecmp
  pub decode : List ℕ → Option (List ℕ)
  pub complex_value : ℕ → Option (List ℕ)
  pub open_file : List ℕ → Opened
  pub read : List ℕ → ℕ → ℕ → Read
  pub crypt : Crypt

-- Behind the loop, up to `cleanup`. `ngx_cpystrn` copies up to the first NUL.
unfoldable pub scanned_rc : AuthNginx → AuthConf → List ℕ → Scanned → World → Rc × World
scanned_rc nginx conf passwd scan_failed w = (internal_server_error, w)
scanned_rc nginx conf passwd not_found w = access_denied nginx.push_room conf w
scanned_rc nginx conf passwd (terminated len hash_bytes) w =
    crypt_handler nginx.crypt nginx.push_room conf len hash_bytes passwd w
scanned_rc nginx conf passwd (at_end len hash_bytes) w =
    if not nginx.hash_room
    then (internal_server_error, w)
    else crypt_handler nginx.crypt nginx.push_room conf len (c_string hash_bytes) passwd w

abbrev pub close : World → World
close w = record w { open_files = w.open_files - 1 }

-- `cleanup`: the file is closed.
abbrev pub cleanup : Rc × World → Rc × World
cleanup (rc, w) = (rc, close w)

abbrev with_file : Scanned → (Scanned → World → Rc × World) → World → Rc × World
with_file scanned answer w = cleanup (answer scanned (record w { open_files = w.open_files + 1 }))

-- From `ngx_open_file` on. The result is none where the fuel of the loop has run out.
unfoldable pub check_file :
    AuthNginx → AuthConf → ℕ → List ℕ → List ℕ → List ℕ → World → Option (Rc × World)
unfolding scanned_rc
check_file nginx conf fuel user passwd name w = elim (nginx.open_file name) [
  | enoent ↦ some (forbidden, w)
  | open_failed ↦ some (internal_server_error, w)
  | opened ↦ elim (scan_file (nginx.read name) user fuel scan_start [] 0) [
    | none ↦ none
    | some scanned ↦ some (with_file scanned (scanned_rc nginx conf passwd) w)
  ]
]

unfoldable pub checked : AuthNginx → AuthConf → ℕ → ℕ → Credentials → World → Option (Rc × World)
unfolding check_file
checked nginx conf fuel file basic_declined w = some (access_denied nginx.push_room conf w)
checked nginx conf fuel file basic_error w = some (internal_server_error, w)
checked nginx conf fuel file (credentials user passwd) w = elim (nginx.complex_value file) [
  | none ↦ some (internal_server_error, w)
  | some name ↦ check_file nginx conf fuel user passwd name w
]

-- `header` is the value of `r->headers_in.proxy_authorization`.
unfoldable pub auth_check : AuthNginx → AuthConf → ℕ → Option (List ℕ) → World → Option (Rc × World)
unfolding checked
auth_check nginx conf fuel header w = elim conf.proxy_auth_user_file [
  | none ↦ some (ok, w)
  | some file ↦
      checked nginx conf fuel file (parse_basic nginx.same nginx.decode_room nginx.decode header) w
]
