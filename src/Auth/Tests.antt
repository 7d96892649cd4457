-- ===== src/Auth/Tests.antt =====
-- Runs of the code of src/auth.c, and the theorems about it at them.
use ngx_http_tunnel_module.Common.{
  ℕ, ◌-◌, min, true, false, none, some, List, [], ◌∷◌, ◌++◌, length, take, drop, replicate, ◌≡◌,
  refl, arith, All, ◌⊎◌,
}
use ngx_http_tunnel_module.Rc.{Rc, ok}
use ngx_http_tunnel_module.Auth.{AuthConf, World, access_denied, crypt_handler}
use ngx_http_tunnel_module.Auth.Basic.{basic, credentials, parse_basic}
use ngx_http_tunnel_module.Headers.Script.{strncasecmp, strncasecmp-IsStrncasecmp}
use ngx_http_tunnel_module.Auth.Scan.{Read, read_bytes, Scanned, not_found, scan_file, scan_start}
use ngx_http_tunnel_module.Auth.Check.{opened, AuthNginx, cleanup, auth_check}
use ngx_http_tunnel_module.Auth.Reading.{ReadsFile, Finds, look, at_login}
use ngx_http_tunnel_module.Auth.Reading.Whole.{in_buffer, scan_file-Finds}
use ngx_http_tunnel_module.Auth.Lines.{IsLine, lines_of, lookup}
use ngx_http_tunnel_module.Auth.Pair.{IsBasic, IsPair, parse_basic-IsPair, parse_basic-credentials}
use ngx_http_tunnel_module.Auth.Decision.{verdict, opened_in, auth_check-verdict}
use ngx_http_tunnel_module.Auth.Sound.{Authentic, auth_check-Authentic}
use ngx_http_tunnel_module.Auth.Answers.{
  Missing, IsAnswer, IsRefusal, IsPlain, auth_check-returns, auth_check-Hidden,
}

-- "#c\nbob:$x\nal:$pw:Al\n"
abbrev passwords : List ℕ
passwords =
    35 ∷ 99 ∷ 10 ∷ 98 ∷ 111 ∷ 98 ∷ 58 ∷ 36 ∷ 120 ∷ 10 ∷ 97 ∷ 108 ∷ 58 ∷ 36 ∷ 112 ∷ 119 ∷ 58 ∷ 65
    ∷ 108 ∷ 10 ∷ []

-- A system that reads three bytes at a time.
abbrev three : List ℕ → ℕ → ℕ → ℕ
three file size offset = min (min size 3) (length file - offset)

abbrev read_three : List ℕ → ℕ → ℕ → Read
read_three file size offset = read_bytes (take (three file size offset) (drop offset file))

read_three-ReadsFile : (file : List ℕ) → ReadsFile (read_three file) file
read_three-ReadsFile file = record {
  count = three file;
  gives = λ size offset. refl;
  bounded = λ size offset. omega arith;
  inside = λ size offset. omega arith;
  progress = λ size offset h h'. omega arith;
}

-- Any name compares, any header decodes to "al:pw", and a password is encrypted by a `$` before it.
abbrev nginx : AuthNginx
nginx = record {
  push_room = true;
  decode_room = true;
  hash_room = true;
  same = λ _ _ _. true;
  decode = λ _. some (97 ∷ 108 ∷ 58 ∷ 112 ∷ 119 ∷ []);
  complex_value = λ _. some (47 ∷ []);
  open_file = λ _. opened;
  read = λ _. read_three passwords;
  crypt = λ passwd _. (ok, some (36 ∷ passwd));
}

abbrev conf : AuthConf
conf = record {
  proxy_auth_user_file = some 1;
  probe_resistance = true;
  allow_methods = 71 ∷ 69 ∷ 84 ∷ [];
}

abbrev world : World
world = record { headers_out = []; open_files = 2 }

abbrev user : List ℕ
user = 97 ∷ 108 ∷ []

abbrev passwd : List ℕ
passwd = 112 ∷ 119 ∷ []

abbrev encoded : List ℕ
encoded = 120 ∷ 61 ∷ []

abbrev value : List ℕ
value = basic ++ replicate 2 32 ++ 121 ∷ 120 ∷ 61 ∷ []

check_finds : auth_check nginx conf 40 (some value) world ≡ some (ok, world)
unfolding auth_check parse_basic crypt_handler scan_file
check_finds = refl

check_refuses :
    auth_check nginx (record conf { probe_resistance = false }) 40 none world
    ≡ some (access_denied true (record conf { probe_resistance = false }) world)
unfolding auth_check parse_basic
check_refuses = refl

-- A line without a colon that begins the user's name takes the line behind it along.
colon_missing :
    scan_file
      (read_three (97 ∷ 10 ∷ 97 ∷ 108 ∷ 58 ∷ 36 ∷ 112 ∷ 119 ∷ 10 ∷ []))
      user
      40
      scan_start
      []
      0
    ≡ some not_found
unfolding scan_file
colon_missing = refl

scan_file-Finds_example :
    (r : Scanned) × (scan_file (read_three passwords) user 40 scan_start [] 0 ≡ some r)
    × Finds r (in_buffer (look user (at_login 0) passwords))
scan_file-Finds_example =
    scan_file-Finds (read_three passwords) passwords user (read_three-ReadsFile passwords) 40
      (omega arith)

parse_basic-IsPair_example :
    (encoded' : List ℕ) × (decoded : List ℕ) × IsBasic value encoded'
    × (nginx.decode encoded' ≡ some decoded)
    × IsPair decoded user passwd
unfolding parse_basic
parse_basic-IsPair_example =
    parse_basic-IsPair strncasecmp true nginx.decode value user passwd strncasecmp-IsStrncasecmp
      refl

parse_basic-credentials_example :
    parse_basic nginx.same true nginx.decode (some value) ≡ credentials user passwd
parse_basic-credentials_example =
    parse_basic-credentials nginx.same nginx.decode user passwd 2 121 encoded refl refl refl refl
      refl

passwords-IsLine : All IsLine (lines_of passwords)
passwords-IsLine = (refl, (refl, (refl, (refl, tt))))

auth_check-verdict_example :
    auth_check nginx conf 40 (some value) world
    ≡ some (
        cleanup (
          verdict nginx conf passwd
            (in_buffer (lookup user (lines_of passwords)))
            (opened_in world)))
unfolding parse_basic
auth_check-verdict_example =
    auth_check-verdict nginx conf 40 1 value user passwd (47 ∷ []) passwords world refl refl refl
      refl (read_three-ReadsFile passwords) passwords-IsLine refl (omega arith)

auth_check-Authentic_example : Authentic nginx 1 (some value) (λ _. passwords)
auth_check-Authentic_example =
    auth_check-Authentic nginx conf (λ _. passwords) 40 (λ _. read_three-ReadsFile passwords)
      (λ _. passwords-IsLine) (λ _. omega arith) 1 (some value) world world refl check_finds

auth_check-returns_example :
    (x : Rc × World) × (auth_check nginx conf 40 (some value) world ≡ some x)
    × IsAnswer (Missing nginx) true conf world x
auth_check-returns_example =
    auth_check-returns nginx conf 40 (some value) world (λ _. passwords)
      (λ _. read_three-ReadsFile passwords) (λ _. omega arith)

auth_check-Hidden_example :
    ((refusal : Rc × World) × (auth_check nginx conf 40 none world ≡ some refusal)
      × IsRefusal true conf world refusal)
    × (IsRefusal true conf world (ok, world) ⊎ IsPlain nginx world (ok, world))
auth_check-Hidden_example =
    auth_check-Hidden nginx conf 40 (some value) world (ok, world) 1 refl refl check_finds
