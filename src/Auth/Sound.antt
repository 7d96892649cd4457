-- ===== src/Auth/Sound.antt =====
-- What an NGX_OK of `tunnel_auth_check` (src/auth.c) rests on.
use ngx_http_tunnel_module.Common.{
  ℕ, ◌<◌, Bool, true, false, Option, none, some, List, [], ◌∷◌, length, take, ◌==◌, if◌then◌else◌,
  ◌≡◌, ◌≢◌, refl, sym, ap, ◌∙◌, arith, Bool-cases, Option-cases, inl, inr, ◌⊎◌, ==_iff, All,
}
use mathlib.Core.Path.{subst}
use ngx_http_tunnel_module.Rc.{Rc, ok, status}
use ngx_http_tunnel_module.Auth.{
  AuthConf, World, Crypt, access_denied, c_string, same_bytes, crypt_handler, encrypted_rc,
}
use ngx_http_tunnel_module.Auth.Basic.{
  Credentials, basic_declined, basic_error, credentials, parse_basic,
}
use ngx_http_tunnel_module.Auth.Scan.{
  auth_buf_size, Scanned, scan_failed, not_found, terminated, at_end,
}
use ngx_http_tunnel_module.Auth.Check.{
  Opened, opened, enoent, open_failed, AuthNginx, scanned_rc, check_file, checked, auth_check,
}
use ngx_http_tunnel_module.Auth.Reading.{ReadsFile, Finds}
use ngx_http_tunnel_module.Auth.Reading.Whole.{in_buffer, scan_file-Finds}
use ngx_http_tunnel_module.Auth.Lines.{has_colon, lines_of, lookup, IsLine, look-lookup}
use ngx_http_tunnel_module.Auth.Pair.{parse_basic_decoded}
use ngx_http_tunnel_module.Auth.Decision.{
  opened_in, auth_check_file, checked_named, check_file_scanned, c_string_twice, crypt_handler_same,
}

-- The hash is not empty, and `ngx_crypt` gives it back for the password.
abbrev pub Accepts : Crypt → List ℕ → List ℕ → Type 0
Accepts crypt passwd h =
    (0 < length h)
    × ((encrypted : List ℕ) × (crypt (c_string passwd) (c_string h) ≡ (ok, some encrypted))
        × (c_string encrypted ≡ c_string h))

access_denied-≢ok : (room : Bool) (conf : AuthConf) (w : World) → (access_denied room conf w).0 ≢ ok
unfolding access_denied
access_denied-≢ok room conf w = ground arith

same_bytes-≡ : (xs ys : List ℕ) → same_bytes xs ys ≡ true → xs ≡ ys
same_bytes-≡ [] [] = λ h. refl
same_bytes-≡ [] (y ∷ ys) = ground arith
same_bytes-≡ (x ∷ xs) [] = ground arith
same_bytes-≡ (x ∷ xs) (y ∷ ys) = elim (Bool-cases (x == y)) [
  | inl e ↦
      rw e (λ h. ap (λ z. z ∷ xs) ((==_iff x y).0 e) ∙ ap (λ zs. y ∷ zs) (same_bytes-≡ xs ys h))
  | inr e ↦ rw e (ground arith)
]

status-≢ok : {A : Type 0} (n : ℕ) → status n ≡ ok → A
status-≢ok n h = ground arith

accepted :
    (crypt : Crypt) (h passwd encrypted : List ℕ) (denied : Rc × World) (w : World)
    → denied.0 ≢ ok
    → 0 < length h
    → crypt (c_string passwd) (c_string h) ≡ (ok, some encrypted)
    → (if same_bytes (c_string encrypted) (c_string h) then (ok, w) else denied).0 ≡ ok
    → Accepts crypt passwd h
accepted crypt h passwd encrypted denied w refuses filled e =
    elim (Bool-cases (same_bytes (c_string encrypted) (c_string h))) [
      | inl e' ↦ λ _. (filled, (encrypted, e, same_bytes-≡ (c_string encrypted) (c_string h) e'))
      | inr e' ↦ rw e' (λ answer. absurd (refuses answer))
    ]

encrypted_rc-Accepts :
    (rc : Rc) (result : Option (List ℕ)) (crypt : Crypt) (h passwd : List ℕ) (denied : Rc × World)
    (w : World)
    → denied.0 ≢ ok
    → 0 < length h
    → crypt (c_string passwd) (c_string h) ≡ (rc, result)
    → (encrypted_rc rc result (c_string h) denied w).0 ≡ ok
    → Accepts crypt passwd h
unfolding encrypted_rc
encrypted_rc-Accepts rc none crypt h passwd denied w refuses filled e = status-≢ok 500
encrypted_rc-Accepts ok (some encrypted) crypt h passwd denied w refuses filled e =
    accepted crypt h passwd encrypted denied w refuses filled e
encrypted_rc-Accepts _ (some encrypted) crypt h passwd denied w refuses filled e = status-≢ok 500

crypt_handler-Accepts :
    (crypt : Crypt) (room : Bool) (conf : AuthConf) (h passwd : List ℕ) (w : World)
    → (crypt_handler crypt room conf (length h) h passwd w).0 ≡ ok
    → Accepts crypt passwd h
unfolding crypt_handler
crypt_handler-Accepts crypt room conf [] passwd w =
    λ answer. absurd (access_denied-≢ok room conf w answer)
crypt_handler-Accepts crypt room conf (b ∷ bs) passwd w =
    let h = b ∷ bs in
    let result = crypt (c_string passwd) (c_string h) in
    let nonempty : (length h == 0) ≡ false = ground arith in
    rw nonempty (
      encrypted_rc-Accepts result.0 result.1 crypt h passwd (access_denied room conf w) w
        (access_denied-≢ok room conf w) (omega arith) refl)

scanned_rc-Accepts :
    (nginx : AuthNginx) (conf : AuthConf) (passwd : List ℕ) (r : Scanned) (found : Option (List ℕ))
    (w : World)
    → Finds r found
    → (scanned_rc nginx conf passwd r w).0 ≡ ok
    → (h : List ℕ) × (found ≡ some h) × Accepts nginx.crypt passwd h
unfolding scanned_rc
scanned_rc-Accepts nginx conf passwd scan_failed found w finds = elim finds [ ]
scanned_rc-Accepts nginx conf passwd not_found found w finds =
    λ answer. absurd (access_denied-≢ok nginx.push_room conf w answer)
scanned_rc-Accepts nginx conf passwd (terminated len bytes) none w finds = elim finds [ ]
scanned_rc-Accepts nginx conf passwd (at_end len bytes) none w finds = elim finds [ ]
scanned_rc-Accepts nginx conf passwd (terminated len bytes) (some h) w (e, e') =
    rw (crypt_handler_same nginx.crypt nginx.push_room conf len (length h) bytes h passwd w e e')
      (λ answer.
        (h, refl, crypt_handler-Accepts nginx.crypt nginx.push_room conf h passwd w answer))
scanned_rc-Accepts nginx conf passwd (at_end len bytes) (some h) w (e, e') =
    elim (Bool-cases nginx.hash_room) [
      | inr room ↦ rw room (status-≢ok 500)
      | inl room ↦
          rw
            (
              room,
              crypt_handler_same nginx.crypt nginx.push_room conf len (length h) (c_string bytes) h
                  passwd w e (c_string_twice bytes ∙ e'),
            )
            (λ answer.
              (h, refl, crypt_handler-Accepts nginx.crypt nginx.push_room conf h passwd w answer))
    ]

-- The first entry of the user has a hash that accepts the password.
abbrev pub AcceptsUser : Crypt → List ℕ → List ℕ → List ℕ → Type 0
AcceptsUser crypt user passwd content =
    (h : List ℕ) × (lookup user (lines_of content) ≡ some h)
    × Accepts crypt passwd (take auth_buf_size h)

in_buffer-some :
    (crypt : Crypt) (passwd : List ℕ) (o : Option (List ℕ))
    → ((h : List ℕ) × (in_buffer o ≡ some h) × Accepts crypt passwd h)
    → (h : List ℕ) × (o ≡ some h) × Accepts crypt passwd (take auth_buf_size h)
in_buffer-some crypt passwd none (h, e, accepts) = ground arith
in_buffer-some crypt passwd (some h) (h', e, accepts) = (
  h,
  refl,
  subst (Accepts crypt passwd) (sym (ap (λ o. elim o [ none ↦ h' | some x ↦ x ]) e)) accepts,
)

-- What holds if the answer is NGX_OK.
abbrev OkOnly : Type 0 → Option (Rc × World) → Type 0
OkOnly P none = Unit {0}
OkOnly P (some (rc, w)) = rc ≡ ok → P

-- The grounds for an NGX_OK: credentials in the header, and a file that opens and accepts them.
abbrev pub Authentic : AuthNginx → ℕ → Option (List ℕ) → (List ℕ → List ℕ) → Type 0
Authentic nginx address header files =
    (user passwd name : List ℕ) × (parse_basic nginx.same nginx.decode_room nginx.decode header
      ≡ credentials user passwd)
    × (nginx.complex_value address ≡ some name)
    × (nginx.open_file name ≡ opened)
    × AcceptsUser nginx.crypt user passwd (files name)

pub Opened-cases : (o : Opened) → (o ≡ opened) ⊎ (o ≡ enoent) ⊎ (o ≡ open_failed)
Opened-cases opened = inl refl
Opened-cases enoent = inr (inl refl)
Opened-cases open_failed = inr (inr refl)

Credentials-cases :
    (c : Credentials)
    → (c ≡ basic_declined)
      ⊎ (c ≡ basic_error)
      ⊎ ((user : List ℕ) × (passwd : List ℕ) × (c ≡ credentials user passwd))
Credentials-cases basic_declined = inl refl
Credentials-cases basic_error = inr (inl refl)
Credentials-cases (credentials user passwd) = inr (inr (user, passwd, refl))

OkOnly-map : {P Q : Type 0} → (P → Q) → (o : Option (Rc × World)) → OkOnly P o → OkOnly Q o
OkOnly-map f none h = tt
OkOnly-map f (some (rc, w)) h = λ answer. f (h answer)

parsed-plain :
    (nginx : AuthNginx) (header : Option (List ℕ)) (user passwd : List ℕ)
    → parse_basic nginx.same nginx.decode_room nginx.decode header ≡ credentials user passwd
    → has_colon user ≡ false
unfolding parse_basic
parsed-plain nginx none user passwd e = ground arith
parsed-plain nginx (some value) user passwd e =
    let (_, _, pair) =
      parse_basic_decoded nginx.same nginx.decode_room nginx.decode value user passwd e in
    pair.1

module _ (nginx : AuthNginx) (conf : AuthConf) (files : List ℕ → List ℕ) (fuel : ℕ)
    (reads : (name : List ℕ) → ReadsFile (nginx.read name) (files name))
    (lines : (name : List ℕ) → All IsLine (lines_of (files name)))
    (enough : (name : List ℕ) → length (files name) < fuel) where
  check_file-OkOnly :
      (user passwd name : List ℕ) (w : World)
      → has_colon user ≡ false
      → OkOnly
          ((nginx.open_file name ≡ opened) × AcceptsUser nginx.crypt user passwd (files name))
          (check_file nginx conf fuel user passwd name w)
  unfolding check_file
  check_file-OkOnly user passwd name w plain = elim (Opened-cases (nginx.open_file name)) [
    | inl e ↦
        let (r, eq, finds) =
          scan_file-Finds (nginx.read name) (files name) user (reads name) fuel (enough name) in
        let finds' =
          subst (λ found. Finds r (in_buffer found))
            (look-lookup user (files name) plain (lines name)) finds in
        rw (check_file_scanned nginx conf fuel user passwd name r w e eq) (λ answer. (
          e,
          in_buffer-some nginx.crypt passwd (lookup user (lines_of (files name))) (
              scanned_rc-Accepts nginx conf passwd r
                (in_buffer (lookup user (lines_of (files name)))) (opened_in w) finds' answer),
        ))
    | inr (inl e) ↦ rw (e, check_file) (status-≢ok 403)
    | inr (inr e) ↦ rw (e, check_file) (status-≢ok 500)
  ]

  checked-OkOnly :
      (address : ℕ) (header : Option (List ℕ)) (w : World)
      → OkOnly (Authentic nginx address header files) (
          checked nginx conf fuel address
            (parse_basic nginx.same nginx.decode_room nginx.decode header)
            w)
  unfolding checked
  checked-OkOnly address header w =
      let parsed = parse_basic nginx.same nginx.decode_room nginx.decode header in
      elim (Credentials-cases parsed) [
        | inl e ↦ rw e (λ answer. absurd (access_denied-≢ok nginx.push_room conf w answer))
        | inr (inl e) ↦ rw e (status-≢ok 500)
        | inr (inr (user, passwd, e)) ↦ elim (Option-cases (nginx.complex_value address)) [
          | inl e' ↦ rw (e, e', checked) (status-≢ok 500)
          | inr (name, e') ↦
              let eq =
                ap (λ c. checked nginx conf fuel address c w) e
                ∙ checked_named nginx conf fuel address user passwd name w e' in
              subst (OkOnly (Authentic nginx address header files)) (sym eq) (
                OkOnly-map (λ (opens, accepts). (user, passwd, name, e, e', opens, accepts))
                  (check_file nginx conf fuel user passwd name w)
                  (check_file-OkOnly user passwd name w (parsed-plain nginx header user passwd e)))
        ]
      ]

  -- An NGX_OK for a request to a server with a password file has its grounds: the header holds
  -- credentials, the file opens, the user's first entry has a hash, and `ngx_crypt` gives back its
  -- first 2048 bytes for the password; they are not empty. The files are read in chunks of any
  -- size, their lines are blank, comments or entries with a colon, and the fuel is more than the
  -- size of any.
  pub auth_check-Authentic :
      (address : ℕ) (header : Option (List ℕ)) (w w' : World)
      → conf.proxy_auth_user_file ≡ some address
      → auth_check nginx conf fuel header w ≡ some (ok, w')
      → Authentic nginx address header files
  auth_check-Authentic address header w w' file answer =
      subst (OkOnly (Authentic nginx address header files))
        (sym (auth_check_file nginx conf fuel address header w file) ∙ answer)
        (checked-OkOnly address header w) refl
