-- ===== src/Auth/Basic.antt =====
-- `tunnel_auth_parse_basic` of src/auth.c.
use ngx_http_tunnel_module.Common.{
  ℕ, Bool, not, ◌||◌, Option, none, some, List, [], ◌∷◌, length, drop, is_nil, ltb, ◌==◌,
  if◌then◌else◌,
}
use ngx_http_tunnel_module.Headers.{Strncasecmp}

-- "Basic "
abbrev pub basic : List ℕ
basic = 66 ∷ 97 ∷ 115 ∷ 105 ∷ 99 ∷ 32 ∷ []

abbrev pub skip_spaces : List ℕ → List ℕ
skip_spaces [] = []
skip_spaces (b ∷ bs) = let rest = skip_spaces bs in if b == 32 then rest else b ∷ bs

-- The bytes before and behind the first colon, where there is one.
abbrev pub split_colon : List ℕ → Option (List ℕ × List ℕ)
split_colon [] = none
split_colon (b ∷ bs) =
    let rest : Option (List ℕ × List ℕ) = elim (split_colon bs) [
      | none ↦ none
      | some (user, passwd) ↦ some (b ∷ user, passwd)
    ] in
    if b == 58 then some ([], bs) else rest

-- What the function returns: NGX_DECLINED, NGX_ERROR, or NGX_OK with `user` and `passwd`.
pub data Credentials : Type 0 where
  basic_declined basic_error : Credentials
  credentials : List ℕ → List ℕ → Credentials

unfoldable pub split_decoded : List ℕ → Credentials
split_decoded decoded = elim (split_colon decoded) [
  | none ↦ basic_declined
  | some (user, passwd) ↦ if is_nil user then basic_declined else credentials user passwd
]

-- `room` is whether `ngx_pnalloc` succeeds, `decode` is `ngx_decode_base64`.
unfoldable pub parse_encoded : Bool → (List ℕ → Option (List ℕ)) → List ℕ → Credentials
unfolding split_decoded
parse_encoded room decode encoded =
    if is_nil encoded
    then basic_declined
    else if not room
    then basic_error
    else elim (decode encoded) [ none ↦ basic_declined | some decoded ↦ split_decoded decoded ]

-- `header` is the value of `r->headers_in.proxy_authorization`.
unfoldable pub parse_basic :
    Strncasecmp → Bool → (List ℕ → Option (List ℕ)) → Option (List ℕ) → Credentials
unfolding parse_encoded
parse_basic same room decode none = basic_declined
parse_basic same room decode (some encoded) =
    if ltb (length encoded) (length basic) || not (same encoded basic (length basic))
    then basic_declined
    else parse_encoded room decode (skip_spaces (drop (length basic) encoded))
