-- ===== src/Auth/Decision.antt =====
-- What `tunnel_auth_check` of src/auth.c answers, and on what grounds.
use ngx_http_tunnel_module.Common.{
  ℕ, ◌+◌, ◌<◌, Bool, true, Option, none, some, List, [], ◌∷◌, length, ◌==◌, ◌≡◌, refl, ap, ◌∙◌,
  Bool-cases, inl, inr, All,
}
use mathlib.Core.Path.{subst}
use ngx_http_tunnel_module.Rc.{Rc}
use ngx_http_tunnel_module.Auth.{AuthConf, World, Crypt, access_denied, c_string, crypt_handler}
use ngx_http_tunnel_module.Auth.Basic.{credentials, parse_basic}
use ngx_http_tunnel_module.Auth.Scan.{
  Scanned, scan_failed, not_found, terminated, at_end, scan_file, scan_start,
}
use ngx_http_tunnel_module.Auth.Check.{
  opened, AuthNginx, scanned_rc, cleanup, check_file, checked, auth_check,
}
use ngx_http_tunnel_module.Auth.Reading.{ReadsFile, Finds}
use ngx_http_tunnel_module.Auth.Reading.Whole.{in_buffer, scan_file-Finds}
use ngx_http_tunnel_module.Auth.Lines.{lines_of, lookup, IsLine, look-lookup}
use ngx_http_tunnel_module.Auth.Pair.{parse_basic_decoded}

-- The answer for the hash that the file has for the user.
abbrev pub verdict : AuthNginx → AuthConf → List ℕ → Option (List ℕ) → World → Rc × World
verdict nginx conf passwd none w = access_denied nginx.push_room conf w
verdict nginx conf passwd (some h) w =
    crypt_handler nginx.crypt nginx.push_room conf (length h) h passwd w

-- The file is open.
abbrev pub opened_in : World → World
opened_in w = record w { open_files = w.open_files + 1 }

pub c_string_twice : (bs : List ℕ) → c_string (c_string bs) ≡ c_string bs
c_string_twice [] = refl
c_string_twice (b ∷ bs) = elim (Bool-cases (b == 0)) [
  | inl e ↦ rw e refl
  | inr e ↦ rw e (rw (e, c_string_twice bs) refl)
]

-- Only the C string of the hash counts, and its length.
pub crypt_handler_same :
    (crypt : Crypt) (room : Bool) (conf : AuthConf) (len len' : ℕ) (bytes bytes' passwd : List ℕ)
    (w : World)
    → len ≡ len'
    → c_string bytes ≡ c_string bytes'
    → crypt_handler crypt room conf len bytes passwd w
      ≡ crypt_handler crypt room conf len' bytes' passwd w
unfolding crypt_handler
crypt_handler_same crypt room conf len len' bytes bytes' passwd w e e' = rw (e, e') refl

scanned_rc-verdict :
    (nginx : AuthNginx) (conf : AuthConf) (passwd : List ℕ) (r : Scanned) (found : Option (List ℕ))
    (w : World)
    → nginx.hash_room ≡ true
    → Finds r found
    → scanned_rc nginx conf passwd r w ≡ verdict nginx conf passwd found w
unfolding scanned_rc
scanned_rc-verdict nginx conf passwd not_found none w room finds = refl
scanned_rc-verdict nginx conf passwd (terminated len bytes) (some h) w room (e, e') =
    crypt_handler_same nginx.crypt nginx.push_room conf len (length h) bytes h passwd w e e'
scanned_rc-verdict nginx conf passwd scan_failed found w room finds = elim finds [ ]
scanned_rc-verdict nginx conf passwd not_found (some h) w room finds = elim finds [ ]
scanned_rc-verdict nginx conf passwd (terminated len bytes) none w room finds = elim finds [ ]
scanned_rc-verdict nginx conf passwd (at_end len bytes) none w room finds = elim finds [ ]
scanned_rc-verdict nginx conf passwd (at_end len bytes) (some h) w room (e, e') = rw room (
    crypt_handler_same nginx.crypt nginx.push_room conf len (length h) (c_string bytes) h passwd w e
      (c_string_twice bytes ∙ e'))

pub auth_check_file :
    (nginx : AuthNginx) (conf : AuthConf) (fuel address : ℕ) (header : Option (List ℕ)) (w : World)
    → conf.proxy_auth_user_file ≡ some address
    → auth_check nginx conf fuel header w
      ≡ checked nginx conf fuel address
          (parse_basic nginx.same nginx.decode_room nginx.decode header)
          w
unfolding auth_check
auth_check_file nginx conf fuel address header w e = simp (e, auth_check)

pub checked_named :
    (nginx : AuthNginx) (conf : AuthConf) (fuel address : ℕ) (user passwd name : List ℕ) (w : World)
    → nginx.complex_value address ≡ some name
    → checked nginx conf fuel address (credentials user passwd) w
      ≡ check_file nginx conf fuel user passwd name w
unfolding checked
checked_named nginx conf fuel address user passwd name w e = simp (e, checked)

pub check_file_scanned :
    (nginx : AuthNginx) (conf : AuthConf) (fuel : ℕ) (user passwd name : List ℕ) (r : Scanned)
    (w : World)
    → nginx.open_file name ≡ opened
    → scan_file (nginx.read name) user fuel scan_start [] 0 ≡ some r
    → check_file nginx conf fuel user passwd name w
      ≡ some (cleanup (scanned_rc nginx conf passwd r (opened_in w)))
unfolding check_file
check_file_scanned nginx conf fuel user passwd name r w e e' = simp (e, e', check_file)

-- With a password file that opens, whose lines are all blank, comments or entries with a colon, and
-- that is read in chunks of any size, the answer to a user and a password is that for the hash of
-- the user's first entry, cut off behind 2048 bytes, where there is one, and else a refusal; the
-- file is closed again. The fuel is more than the size of the file, and there is room for the copy
-- of a hash at the end of the file.
pub auth_check-verdict :
    (nginx : AuthNginx) (conf : AuthConf) (fuel address : ℕ)
    (value user passwd name content : List ℕ) (w : World)
    → conf.proxy_auth_user_file ≡ some address
    → parse_basic nginx.same nginx.decode_room nginx.decode (some value) ≡ credentials user passwd
    → nginx.complex_value address ≡ some name
    → nginx.open_file name ≡ opened
    → ReadsFile (nginx.read name) content
    → All IsLine (lines_of content)
    → nginx.hash_room ≡ true
    → length content < fuel
    → auth_check nginx conf fuel (some value) w
      ≡ some (
          cleanup
            (verdict nginx conf passwd (in_buffer (lookup user (lines_of content))) (opened_in w)))
auth_check-verdict nginx conf fuel address value user passwd name content w file parsed named opens
      reads lines room enough =
    let (_, _, pair) =
      parse_basic_decoded nginx.same nginx.decode_room nginx.decode value user passwd parsed in
    let (r, eq, finds) = scan_file-Finds (nginx.read name) content user reads fuel enough in
    let finds' =
      subst (λ found. Finds r (in_buffer found)) (look-lookup user content pair.1 lines) finds in
    auth_check_file nginx conf fuel address (some value) w file
    ∙ ap (λ c. checked nginx conf fuel address c w) parsed
    ∙ checked_named nginx conf fuel address user passwd name w named
    ∙ check_file_scanned nginx conf fuel user passwd name r w opens eq
    ∙ ap (λ x. some (cleanup x))
        (scanned_rc-verdict nginx conf passwd r _ (opened_in w) room finds')
