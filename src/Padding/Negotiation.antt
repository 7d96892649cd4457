-- ===== src/Padding/Negotiation.antt =====
-- The padding header of src/padding.c: whether a request asks for padding, and the value that the
-- response carries.
pub mod Value
use ngx_http_tunnel_module.Common.{
  ℕ, zero, suc, ◌+◌, ◌-◌, ◌%◌, ◌/◌, ◌^◌, Bool, true, false, not, ◌&&◌, ◌||◌, Option, none, some,
  List, [], ◌∷◌, ◌++◌, length, replicate, ◌==◌, if◌then◌else◌,
}
use ngx_http_tunnel_module.Rc.{Rc, ok, error, declined}
use ngx_http_tunnel_module.Context.{PaddingCtx}
use ngx_http_tunnel_module.Headers.{Header, Strncasecmp, has_name}

-- "padding"
abbrev pub padding_name : List ℕ
padding_name = 112 ∷ 97 ∷ 100 ∷ 100 ∷ 105 ∷ 110 ∷ 103 ∷ []

-- `tscf->padding`, and whether the client speaks HTTP/2 or HTTP/3.
unfoldable pub is_padding_enabled : Bool → Bool → Rc
is_padding_enabled padding stream_downstream =
    if not padding || not stream_downstream then declined else ok

unfoldable pub is_padding_present : Strncasecmp → List Header → Rc
unfolding has_name
is_padding_present same [] = declined
is_padding_present same (h ∷ hs) =
    let rest = is_padding_present same hs in if has_name same padding_name h then ok else rest

unfoldable pub padding_needed : Strncasecmp → Bool → Bool → List Header → Rc
unfolding is_padding_enabled
padding_needed same padding stream_downstream headers =
    elim (is_padding_enabled padding stream_downstream) [
      | ok ↦ elim (is_padding_present same headers) [ ok ↦ ok | _ ↦ declined ]
      | _ ↦ declined
    ]

-- `codes`: sixteen, and 'X' behind them.
abbrev pub codes : List ℕ
codes = 33 ∷ 34 ∷ 35 ∷ 36 ∷ 38 ∷ 39 ∷ 40 ∷ 41 ∷ 42 ∷ 43 ∷ 44 ∷ 59 ∷ 60 ∷ 62 ∷ 63 ∷ 64 ∷ []

abbrev pub code_x : ℕ
code_x = 88

-- `codes[i]`; the callers stay inside.
abbrev pub code_at : List ℕ → ℕ → ℕ
code_at [] i = code_x
code_at (x ∷ xs) zero = x
code_at (x ∷ xs) (suc i) = code_at xs i

-- The loop over the first bytes: `random i` is the i-th value that `ngx_random()` gives from here on,
-- `n` counts down from 7 to the next one.
first_codes : ℕ → (ℕ → ℕ) → ℕ → ℕ → ℕ → List ℕ
first_codes zero random i bits n = []
first_codes (suc k) random i bits n =
    let fresh = n - 1 == 0 in
    code_at codes (bits % 16)
    ∷ first_codes k random (if fresh then i + 1 else i) (if fresh then random i else bits / 2 ^ 4)
        (if fresh then 7 else n - 1)

-- `random` gives the values of `ngx_random()` in their order, `allocated` is whether the buffer was.
unfoldable pub generate_response_value : Bool → (ℕ → ℕ) → Option (List ℕ)
unfolding first_codes
generate_response_value allocated random =
    let len = 30 + random 0 % (62 - 30 + 1) in
    if not allocated
    then none
    else some (first_codes 16 random 2 (random 1) 7 ++ replicate (len - 16) code_x)

-- The headers behind `tunnel_padding_add_response_header`, the new one last; `pushed` is whether
-- `ngx_list_push` succeeds.
response_value : Bool → List Header → Option (List ℕ) → Rc × List Header
response_value pushed headers none = (error, headers)
response_value pushed headers (some value) =
    if not pushed
    then (error, headers)
    else (ok, headers ++ (record { key = padding_name; lowcase_key = none; value = value } ∷ []))

unfoldable pub add_response_header :
    Bool → Bool → Option PaddingCtx → Bool → Bool → (ℕ → ℕ) → List Header → Rc × List Header
unfolding response_value generate_response_value
add_response_header padding stream_downstream none allocated pushed random headers = (ok, headers)
add_response_header padding stream_downstream (some p) allocated pushed random headers =
    elim (is_padding_enabled padding stream_downstream) [
      | ok ↦ response_value pushed headers (generate_response_value allocated random)
      | _ ↦ (ok, headers)
    ]
