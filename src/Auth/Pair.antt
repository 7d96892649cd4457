-- ===== src/Auth/Pair.antt =====
-- The user and the password in a header: `tunnel_auth_parse_basic` of src/auth.c.
use ngx_http_tunnel_module.Common.{
  ℕ, zero, suc, Bool, true, false, not, ◌||◌, Option, none, some, List, [], ◌∷◌, ◌++◌, length, sym,
  take-append-drop, take, drop, ◌≤◌, ◌∙◌, ltb, is_nil, replicate, ◌==◌, if◌then◌else◌, ◌≡◌, refl,
  ap, arith, Bool-cases, Option-cases, inl, inr, ==_iff,
}
use mathlib.Core.Path.{subst}
use ngx_http_tunnel_module.Headers.{Strncasecmp}
use ngx_http_tunnel_module.Headers.Named.{lower_all, IsStrncasecmp}
use ngx_http_tunnel_module.Auth.Basic.{
  basic, skip_spaces, split_colon, Credentials, basic_declined, credentials, split_decoded,
  parse_encoded, parse_basic,
}
use ngx_http_tunnel_module.Auth.Lines.{has_colon, or_false}

-- The decoded bytes are a user that is not empty and has no colon, a colon, and the password.
abbrev pub IsPair : List ℕ → List ℕ → List ℕ → Type 0
IsPair decoded user passwd =
    (decoded ≡ user ++ 58 ∷ passwd) × (has_colon user ≡ false) × (is_nil user ≡ false)

abbrev SplitOf : List ℕ → Option (List ℕ × List ℕ) → Type 0
SplitOf bs none = Unit {0}
SplitOf bs (some (user, passwd)) = (bs ≡ user ++ 58 ∷ passwd) × (has_colon user ≡ false)

split_colon-SplitOf : (bs : List ℕ) → SplitOf bs (split_colon bs)
split_colon-SplitOf [] = tt
split_colon-SplitOf (b ∷ bs) = elim (Bool-cases (b == 58)) [
  | inl e ↦ rw e (ap (λ t. t ∷ bs) ((==_iff b 58).0 e), refl)
  | inr e ↦ elim (Option-cases (split_colon bs)) [
    | inl e' ↦ rw (e, e') tt
    | inr ((user, passwd), e') ↦
        let (eq, plain) = subst (SplitOf bs) e' (split_colon-SplitOf bs) in
        rw (e, e') (ap (λ t. b ∷ t) eq, rw (e, plain) refl)
  ]
]

pair-split_colon :
    (user passwd : List ℕ)
    → has_colon user ≡ false
    → split_colon (user ++ 58 ∷ passwd) ≡ some (user, passwd)
pair-split_colon [] passwd h = refl
pair-split_colon (b ∷ bs) passwd h =
    let e = or_false (b == 58) (has_colon bs) h in rw (e.0, pair-split_colon bs passwd e.1) refl

abbrev pub starts_with_space : List ℕ → Bool
starts_with_space [] = false
starts_with_space (b ∷ bs) = b == 32

abbrev Credits : (List ℕ → Option (List ℕ)) → List ℕ → Credentials → Type 0
Credits decode encoded (credentials user passwd) =
    (decoded : List ℕ) × (decode encoded ≡ some decoded) × IsPair decoded user passwd
Credits decode encoded _ = Unit {0}

split_decoded-none :
    (decoded : List ℕ) → split_colon decoded ≡ none → split_decoded decoded ≡ basic_declined
unfolding split_decoded
split_decoded-none decoded e = rw (e, split_decoded) refl

split_decoded-some :
    (decoded user passwd : List ℕ)
    → split_colon decoded ≡ some (user, passwd)
    → split_decoded decoded ≡ (if is_nil user then basic_declined else credentials user passwd)
unfolding split_decoded
split_decoded-some decoded user passwd e = rw (e, split_decoded) refl

split_decoded-Credits :
    (decode : List ℕ → Option (List ℕ)) (encoded decoded : List ℕ)
    → decode encoded ≡ some decoded
    → Credits decode encoded (split_decoded decoded)
split_decoded-Credits decode encoded decoded h = elim (Option-cases (split_colon decoded)) [
  | inl e ↦ rw (split_decoded-none decoded e) tt
  | inr ((user, passwd), e) ↦
      let (eq, plain) = subst (SplitOf decoded) e (split_colon-SplitOf decoded) in
      rw (split_decoded-some decoded user passwd e) (elim (Bool-cases (is_nil user)) [
        | inl e' ↦ rw e' tt
        | inr e' ↦ rw e' (decoded, h, (eq, plain, e'))
      ])
]

parse_encoded-Credits :
    (room : Bool) (decode : List ℕ → Option (List ℕ)) (encoded : List ℕ)
    → Credits decode encoded (parse_encoded room decode encoded)
unfolding parse_encoded
parse_encoded-Credits room decode [] = tt
parse_encoded-Credits false decode (b ∷ bs) = tt
parse_encoded-Credits true decode (b ∷ bs) = elim (Option-cases (decode (b ∷ bs))) [
  | inl e ↦ rw e tt
  | inr (decoded, e) ↦ rw e (split_decoded-Credits decode (b ∷ bs) decoded e)
]

parse_basic-Credits :
    (same : Strncasecmp) (room : Bool) (decode : List ℕ → Option (List ℕ)) (value : List ℕ)
    → Credits decode
        (skip_spaces (drop (length basic) value))
        (parse_basic same room decode (some value))
unfolding parse_basic
parse_basic-Credits same room decode value =
    elim (Bool-cases (ltb (length value) (length basic) || not (same value basic (length basic)))) [
      | inl e ↦ rw e tt
      | inr e ↦ rw e (parse_encoded-Credits room decode (skip_spaces (drop (length basic) value)))
    ]

pub parse_basic_decoded :
    (same : Strncasecmp) (room : Bool) (decode : List ℕ → Option (List ℕ))
    (value user passwd : List ℕ)
    → parse_basic same room decode (some value) ≡ credentials user passwd
    → (decoded : List ℕ) × (decode (skip_spaces (drop (length basic) value)) ≡ some decoded)
      × IsPair decoded user passwd
parse_basic_decoded same room decode value user passwd h =
    subst (Credits decode (skip_spaces (drop (length basic) value))) h
      (parse_basic-Credits same room decode value)

-- The value is `Basic` and a space, in letters of any case, any spaces, and the encoded pair, which
-- starts with none.
abbrev pub IsBasic : List ℕ → List ℕ → Type 0
IsBasic value encoded =
    (scheme : List ℕ) × (spaces : ℕ) × (value ≡ scheme ++ (replicate spaces 32 ++ encoded))
    × (lower_all scheme ≡ 98 ∷ 97 ∷ 115 ∷ 105 ∷ 99 ∷ 32 ∷ [])
    × (starts_with_space encoded ≡ false)

skip_spaces-split :
    (bs : List ℕ)
    → (n : ℕ) × (bs ≡ replicate n 32 ++ skip_spaces bs)
      × (starts_with_space (skip_spaces bs) ≡ false)
skip_spaces-split [] = (0, refl, refl)
skip_spaces-split (b ∷ bs) = elim (Bool-cases (b == 32)) [
  | inr e ↦ rw e (0, refl, e)
  | inl e ↦
      let (n, eq, none_left) = skip_spaces-split bs in
      rw e (suc n, ap (λ t. t ∷ bs) ((==_iff b 32).0 e) ∙ ap (λ t. 32 ∷ t) eq, none_left)
]

parse_basic-scheme :
    (same : Strncasecmp) (room : Bool) (decode : List ℕ → Option (List ℕ))
    (value user passwd : List ℕ)
    → parse_basic same room decode (some value) ≡ credentials user passwd
    → (6 ≤ length value) × (same value basic 6 ≡ true)
unfolding parse_basic
parse_basic-scheme same room decode value user passwd h = (ground (arith, h), ground (arith, h))

-- A header yields credentials only if it is `Basic`, in letters of any case, a space, any more
-- spaces and bytes that the decoder turns into a pair: the user, which is not empty and has no
-- colon, a colon and the password. `ngx_strncasecmp` compares as it does.
pub parse_basic-IsPair :
    (same : Strncasecmp) (room : Bool) (decode : List ℕ → Option (List ℕ))
    (value user passwd : List ℕ)
    → IsStrncasecmp same
    → parse_basic same room decode (some value) ≡ credentials user passwd
    → (encoded : List ℕ) × (decoded : List ℕ) × IsBasic value encoded
      × (decode encoded ≡ some decoded)
      × IsPair decoded user passwd
parse_basic-IsPair same room decode value user passwd law h =
    let (long, is_basic) = parse_basic-scheme same room decode value user passwd h in
    let (decoded, decodes, pair) = parse_basic_decoded same room decode value user passwd h in
    let (n, spaces, first) = skip_spaces-split (drop 6 value) in
    let lowered = (law value basic 6 long (omega arith) (ground arith)).0 is_basic in
    (
      skip_spaces (drop 6 value),
      decoded,
      (
        take 6 value,
        n,
        sym (take-append-drop 6 value) ∙ ap (λ t. take 6 value ++ t) spaces,
        lowered,
        first,
      ),
      decodes,
      pair,
    )

skip_spaces-replicate :
    (n b : ℕ) (bs : List ℕ) → (b == 32) ≡ false → skip_spaces (replicate n 32 ++ b ∷ bs) ≡ b ∷ bs
skip_spaces-replicate zero b bs h = rw h refl
skip_spaces-replicate (suc n) b bs h = skip_spaces-replicate n b bs h

-- A header that a client writes for a user and a password is read back: whatever follows `Basic `, up
-- to more spaces and then the encoded pair, where the decoder gives the pair, the name compares as it
-- should, the user is not empty and has no colon and there is room for the copy.
pub parse_basic-credentials :
    (same : Strncasecmp) (decode : List ℕ → Option (List ℕ)) (user passwd : List ℕ) (spaces b : ℕ)
    (encoded : List ℕ)
    → let value = basic ++ replicate spaces 32 ++ b ∷ encoded in
      same value basic (length basic) ≡ true
      → (b == 32) ≡ false
      → decode (b ∷ encoded) ≡ some (user ++ 58 ∷ passwd)
      → has_colon user ≡ false
      → is_nil user ≡ false
      → parse_basic same true decode (some value) ≡ credentials user passwd
unfolding parse_basic
parse_basic-credentials same decode user passwd spaces b encoded is_basic h decodes plain filled =
    let long : ltb (length (basic ++ replicate spaces 32 ++ b ∷ encoded)) (length basic) ≡ false =
      ground arith in
    rw
      (
        is_basic,
        long,
        skip_spaces-replicate spaces b encoded h,
        decodes,
        split_decoded-some (user ++ 58 ∷ passwd) user passwd (pair-split_colon user passwd plain),
        filled,
      )
      refl
