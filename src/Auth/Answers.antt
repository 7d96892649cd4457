-- ===== src/Auth/Answers.antt =====
-- What `tunnel_auth_check` (src/auth.c) can answer and leave behind.
use ngx_http_tunnel_module.Common.{
  ℕ, ◌+◌, ◌-◌, ◌<◌, Bool, true, false, is_nil, Option, none, some, List, [], ◌∷◌, ◌++◌, length,
  ◌==◌, ◌≡◌, ◌≢◌, refl, sym, ap, ◌∙◌, arith, Bool-cases, Option-cases, inl, inr, ◌⊎◌,
}
use mathlib.Core.Path.{subst}
use ngx_http_tunnel_module.Rc.{Rc, ok, is_ok, status, internal_server_error, forbidden, not_allowed}
use ngx_http_tunnel_module.Auth.{
  AuthConf, World, Crypt, HeaderOut, push, allow, access_denied, c_string, same_bytes,
  crypt_handler, encrypted_rc,
}
use ngx_http_tunnel_module.Auth.Basic.{
  Credentials, basic_declined, basic_error, credentials, parse_basic,
}
use ngx_http_tunnel_module.Auth.Scan.{
  Scanned, scan_failed, not_found, terminated, at_end, scan_file, scan_start,
}
use ngx_http_tunnel_module.Auth.Check.{
  AuthNginx, enoent, scanned_rc, cleanup, check_file, checked, auth_check, close,
}
use ngx_http_tunnel_module.Auth.Reading.{ReadsFile}
use ngx_http_tunnel_module.Auth.Reading.Whole.{scan_file-Finds}
use ngx_http_tunnel_module.Auth.Decision.{
  opened_in, auth_check_file, check_file_scanned, checked_named,
}
use ngx_http_tunnel_module.Auth.Sound.{Opened-cases}

-- A name has no file.
abbrev pub Missing : AuthNginx → Type 0
Missing nginx = (name : List ℕ) × (nginx.open_file name ≡ enoent)

-- The world is as before, with NGX_OK, 500 or, where a file is missing, 403; or it is the refusal's.
abbrev pub IsAnswer : Type 0 → Bool → AuthConf → World → Rc × World → Type 0
IsAnswer missing room conf w (rc, w') =
    ((w' ≡ w) × ((rc ≡ ok) ⊎ (rc ≡ internal_server_error) ⊎ ((rc ≡ forbidden) × missing)))
    ⊎ ((rc, w') ≡ access_denied room conf w)

close-opened_in : (w : World) → close (opened_in w) ≡ w
close-opened_in w = let e : (w.open_files + 1) - 1 ≡ w.open_files = omega arith in rw e refl

cleanup-access_denied :
    (room : Bool) (conf : AuthConf) (w : World)
    → cleanup (access_denied room conf (opened_in w)) ≡ access_denied room conf w
unfolding access_denied
cleanup-access_denied room conf w =
    let e : (w.open_files + 1) - 1 ≡ w.open_files = omega arith in ground (arith, e)

module _ (M : Type 0) where
  abbrev Answers : Bool → AuthConf → World → Option (Rc × World) → Type 0
  Answers room conf w none = Unit {0}
  Answers room conf w (some x) = IsAnswer M room conf w x

  plain_ok : (room : Bool) (conf : AuthConf) (w : World) → IsAnswer M room conf w (ok, w)
  plain_ok room conf w = inl (refl, inl refl)

  plain_500 :
      (room : Bool) (conf : AuthConf) (w : World)
      → IsAnswer M room conf w (internal_server_error, w)
  plain_500 room conf w = inl (refl, inr (inl refl))

  encrypted_rc-IsAnswer :
      (room : Bool) (conf : AuthConf) (w : World) (rc : Rc) (o : Option (List ℕ)) (hash : List ℕ)
      → IsAnswer M room conf w (encrypted_rc rc o hash (access_denied room conf w) w)
  unfolding encrypted_rc
  encrypted_rc-IsAnswer room conf w rc none hash = plain_500 room conf w
  encrypted_rc-IsAnswer room conf w rc (some encrypted) hash = elim (Bool-cases (is_ok rc)) [
    | inr e ↦ rw e (plain_500 room conf w)
    | inl e ↦ elim (Bool-cases (same_bytes (c_string encrypted) hash)) [
      | inl e' ↦ rw (e, e') (plain_ok room conf w)
      | inr e' ↦ rw (e, e') (inr refl)
    ]
  ]

  crypt_handler-IsAnswer :
      (crypt : Crypt) (room : Bool) (conf : AuthConf) (len : ℕ) (bytes passwd : List ℕ) (w : World)
      → IsAnswer M room conf w (crypt_handler crypt room conf len bytes passwd w)
  unfolding crypt_handler
  crypt_handler-IsAnswer crypt room conf len bytes passwd w = elim (Bool-cases (len == 0)) [
    | inl e ↦ rw e (inr refl)
    | inr e ↦
        let (rc, o) = crypt (c_string passwd) (c_string bytes) in
        rw e (encrypted_rc-IsAnswer room conf w rc o (c_string bytes))
  ]

  scanned_rc-IsAnswer :
      (nginx : AuthNginx) (conf : AuthConf) (passwd : List ℕ) (r : Scanned) (w : World)
      → IsAnswer M nginx.push_room conf w (scanned_rc nginx conf passwd r w)
  unfolding scanned_rc
  scanned_rc-IsAnswer nginx conf passwd scan_failed w = plain_500 nginx.push_room conf w
  scanned_rc-IsAnswer nginx conf passwd not_found w = inr refl
  scanned_rc-IsAnswer nginx conf passwd (terminated len bytes) w =
      crypt_handler-IsAnswer nginx.crypt nginx.push_room conf len bytes passwd w
  scanned_rc-IsAnswer nginx conf passwd (at_end len bytes) w = elim (Bool-cases nginx.hash_room) [
    | inr e ↦ rw e (plain_500 nginx.push_room conf w)
    | inl e ↦
        rw e (crypt_handler-IsAnswer nginx.crypt nginx.push_room conf len (c_string bytes) passwd w)
  ]

  cleanup-IsAnswer :
      (room : Bool) (conf : AuthConf) (w : World) (x : Rc × World)
      → IsAnswer M room conf (opened_in w) x
      → IsAnswer M room conf w (cleanup x)
  cleanup-IsAnswer room conf w (rc, w') (inl (e, kinds)) =
      inl (ap close e ∙ close-opened_in w, kinds)
  cleanup-IsAnswer room conf w (rc, w') (inr e) =
      inr (ap cleanup e ∙ cleanup-access_denied room conf w)

module _ (nginx : AuthNginx) (conf : AuthConf) (fuel : ℕ) where
  check_file-Answers :
      (user passwd name : List ℕ) (w : World)
      → Answers
          (Missing nginx)
          nginx.push_room
          conf
          w
          (check_file nginx conf fuel user passwd name w)
  unfolding check_file
  check_file-Answers user passwd name w = elim (Opened-cases (nginx.open_file name)) [
    | inr (inl e) ↦ rw (e, check_file) (inl (refl, inr (inr (refl, (name, e)))))
    | inr (inr e) ↦ rw (e, check_file) (plain_500 (Missing nginx) nginx.push_room conf w)
    | inl e ↦ elim (Option-cases (scan_file (nginx.read name) user fuel scan_start [] 0)) [
      | inl e' ↦ rw (e, e', check_file) tt
      | inr (r, e') ↦ rw (check_file_scanned nginx conf fuel user passwd name r w e e') (
          cleanup-IsAnswer (Missing nginx) nginx.push_room conf w
            (scanned_rc nginx conf passwd r (opened_in w))
            (scanned_rc-IsAnswer (Missing nginx) nginx conf passwd r (opened_in w)))
    ]
  ]

  checked-Answers :
      (address : ℕ) (c : Credentials) (w : World)
      → Answers (Missing nginx) nginx.push_room conf w (checked nginx conf fuel address c w)
  unfolding checked
  checked-Answers address basic_declined w = inr refl
  checked-Answers address basic_error w = plain_500 (Missing nginx) nginx.push_room conf w
  checked-Answers address (credentials user passwd) w =
      elim (Option-cases (nginx.complex_value address)) [
        | inl e ↦ rw (e, checked) (plain_500 (Missing nginx) nginx.push_room conf w)
        | inr (name, e) ↦ rw (e, checked) (check_file-Answers user passwd name w)
      ]

  auth_check_open :
      (header : Option (List ℕ)) (w : World)
      → conf.proxy_auth_user_file ≡ none
      → auth_check nginx conf fuel header w ≡ some (ok, w)
  unfolding auth_check
  auth_check_open header w e = simp (e, auth_check)

  auth_check-Answers :
      (header : Option (List ℕ)) (w : World)
      → Answers (Missing nginx) nginx.push_room conf w (auth_check nginx conf fuel header w)
  unfolding auth_check
  auth_check-Answers header w = elim (Option-cases conf.proxy_auth_user_file) [
    | inl e ↦
        subst (Answers (Missing nginx) nginx.push_room conf w) (sym (auth_check_open header w e))
          (plain_ok (Missing nginx) nginx.push_room conf w)
    | inr (address, e) ↦
        subst (Answers (Missing nginx) nginx.push_room conf w)
          (sym (auth_check_file nginx conf fuel address header w e))
          (checked-Answers address (parse_basic nginx.same nginx.decode_room nginx.decode header) w)
  ]

  check_file-returns :
      (user passwd name content : List ℕ) (w : World)
      → ReadsFile (nginx.read name) content
      → length content < fuel
      → (x : Rc × World) × (check_file nginx conf fuel user passwd name w ≡ some x)
  unfolding check_file
  check_file-returns user passwd name content w reads enough =
      elim (Opened-cases (nginx.open_file name)) [
        | inr (inl e) ↦ ((forbidden, w), rw (e, check_file) refl)
        | inr (inr e) ↦ ((internal_server_error, w), rw (e, check_file) refl)
        | inl e ↦
            let (r, eq, _) = scan_file-Finds (nginx.read name) content user reads fuel enough in
            (_, check_file_scanned nginx conf fuel user passwd name r w e eq)
      ]

  checked-returns :
      (address : ℕ) (c : Credentials) (w : World) (files : List ℕ → List ℕ)
      → ((name : List ℕ) → ReadsFile (nginx.read name) (files name))
      → ((name : List ℕ) → length (files name) < fuel)
      → (x : Rc × World) × (checked nginx conf fuel address c w ≡ some x)
  unfolding checked
  checked-returns address basic_declined w files reads enough = (_, refl)
  checked-returns address basic_error w files reads enough = (_, refl)
  checked-returns address (credentials user passwd) w files reads enough =
      elim (Option-cases (nginx.complex_value address)) [
        | inl e ↦ ((internal_server_error, w), rw (e, checked) refl)
        | inr (name, e) ↦
            let (x, eq) =
              check_file-returns user passwd name (files name) w (reads name) (enough name) in
            (x, checked_named nginx conf fuel address user passwd name w e ∙ eq)
      ]

  -- The check returns for every request, with more fuel than any file has bytes, where files are
  -- read in chunks of any size: NGX_OK, 500 or, only where a file is missing, 403 with the headers
  -- and the open files as they were, or the refusal of `tunnel_auth_access_denied`.
  pub auth_check-returns :
      (header : Option (List ℕ)) (w : World) (files : List ℕ → List ℕ)
      → ((name : List ℕ) → ReadsFile (nginx.read name) (files name))
      → ((name : List ℕ) → length (files name) < fuel)
      → (x : Rc × World) × (auth_check nginx conf fuel header w ≡ some x)
        × IsAnswer (Missing nginx) nginx.push_room conf w x
  auth_check-returns header w files reads enough =
      let returns : (x : Rc × World) × (auth_check nginx conf fuel header w ≡ some x) =
        elim (Option-cases conf.proxy_auth_user_file) [
          | inl e ↦ ((ok, w), auth_check_open header w e)
          | inr (address, e) ↦
              let (x, eq) =
                checked-returns address
                  (parse_basic nginx.same nginx.decode_room nginx.decode header) w files reads
                  enough in
              (x, auth_check_file nginx conf fuel address header w e ∙ eq)
        ] in
      let (x, eq) = returns in
      (
        x,
        eq,
        subst (Answers (Missing nginx) nginx.push_room conf w) eq (auth_check-Answers header w),
      )

-- Without any sign of the proxy: 405, with `Allow` exactly where methods are configured for it.
-- Where the header has no room, 500.
abbrev pub IsRefusal : Bool → AuthConf → World → Rc × World → Type 0
IsRefusal room conf w (rc, w') =
    ((conf.allow_methods ≡ []) × (rc ≡ status 405) × (w' ≡ w))
    ⊎ ((conf.allow_methods ≢ [])
        × (room ≡ true)
        × (rc ≡ status 405)
        × (w' ≡ record w {
          headers_out =
              w.headers_out
              ++ record { key = 65 ∷ 108 ∷ 108 ∷ 111 ∷ 119 ∷ []; value = conf.allow_methods } ∷ [];
        }))
    ⊎ ((conf.allow_methods ≢ []) × (room ≡ false) × (rc ≡ status 500) × (w' ≡ w))

-- Nothing is added to the response: NGX_OK, an error of the server, or a password file that is
-- missing.
abbrev pub IsPlain : AuthNginx → World → Rc × World → Type 0
IsPlain nginx w (rc, w') =
    (w' ≡ w) × ((rc ≡ ok) ⊎ (rc ≡ status 500) ⊎ ((rc ≡ status 403) × Missing nginx))

is_nil_cases : (xs : List ℕ) → ((is_nil xs ≡ true) × (xs ≡ [])) ⊎ ((is_nil xs ≡ false) × (xs ≢ []))
is_nil_cases [] = inl (refl, refl)
is_nil_cases (x ∷ xs) = inr (refl, λ e. cc)

push_room_cases :
    (room : Bool) (h : HeaderOut) (w : World)
    → ((room ≡ true)
        × (push room h not_allowed w
            ≡ (not_allowed, record w { headers_out = w.headers_out ++ h ∷ [] })))
      ⊎ ((room ≡ false) × (push room h not_allowed w ≡ (internal_server_error, w)))
push_room_cases true h w = inl (refl, refl)
push_room_cases false h w = inr (refl, refl)

access_denied-IsRefusal :
    (room : Bool) (conf : AuthConf) (w : World)
    → conf.probe_resistance ≡ true
    → IsRefusal room conf w (access_denied room conf w)
unfolding access_denied
access_denied-IsRefusal room conf w h = elim (is_nil_cases conf.allow_methods) [
  | inl (e, none_set) ↦
      let eq : access_denied room conf w ≡ (not_allowed, w) = simp (h, e, access_denied) in
      subst (IsRefusal room conf w) (sym eq) (inl (none_set, refl, refl))
  | inr (e, some_set) ↦
      let eq : access_denied room conf w ≡ push room (allow conf.allow_methods) not_allowed w =
        simp (h, e, access_denied) in
      elim (push_room_cases room (allow conf.allow_methods) w) [
        | inl (r, eq') ↦
            subst (IsRefusal room conf w) (sym (eq ∙ eq')) (inr (inl (some_set, r, refl, refl)))
        | inr (r, eq') ↦
            subst (IsRefusal room conf w) (sym (eq ∙ eq')) (inr (inr (some_set, r, refl, refl)))
      ]
]

-- Under probe resistance, with a password file configured: a request without credentials is refused
-- with 405 and an `Allow` header exactly where methods are configured for it (500 where that header
-- has no room), and nothing else is added to the response. Whatever else the check answers is such a
-- refusal too, or leaves the response as it was and is NGX_OK, 500 or, only where a password file is
-- missing, 403. Files may be read in any way.
pub auth_check-Hidden :
    (nginx : AuthNginx) (conf : AuthConf) (fuel : ℕ) (header : Option (List ℕ)) (w : World)
    (answer : Rc × World) (address : ℕ)
    → conf.probe_resistance ≡ true
    → conf.proxy_auth_user_file ≡ some address
    → auth_check nginx conf fuel header w ≡ some answer
    → ((refusal : Rc × World) × (auth_check nginx conf fuel none w ≡ some refusal)
        × IsRefusal nginx.push_room conf w refusal)
      × (IsRefusal nginx.push_room conf w answer ⊎ IsPlain nginx w answer)
unfolding parse_basic checked
auth_check-Hidden nginx conf fuel header w answer address h configured eq =
    let denied = access_denied-IsRefusal nginx.push_room conf w h in
    (
      (
        access_denied nginx.push_room conf w,
        auth_check_file nginx conf fuel address none w configured,
        denied,
      ),
      elim (subst (Answers (Missing nginx) nginx.push_room conf w) eq
          (auth_check-Answers nginx conf fuel header w)) [
            | inl plain ↦ inr plain
            | inr e ↦ inl (subst (IsRefusal nginx.push_room conf w) (sym e) denied)
          ],
    )
