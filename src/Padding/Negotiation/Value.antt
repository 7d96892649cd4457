-- ===== src/Padding/Negotiation/Value.antt =====
-- What the padding header's value looks like (src/padding.c), and when padding is on.
use ngx_http_tunnel_module.Common.{
  ℕ, zero, suc, ◌+◌, ◌-◌, ◌%◌, ◌≤◌, ◌<◌, ◌≡◌, refl, ap, ◌⊎◌, inl, inr, ◌↔◌, Bool, true, false, none,
  some, List, [], ◌∷◌, ◌++◌, length, replicate, All, arith, Bool-cases,
}
use ngx_http_tunnel_module.Rc.{Rc, ok, error, again, busy, done, declined, abort, status}
use ngx_http_tunnel_module.Headers.{Header, Strncasecmp, has_name}
use ngx_http_tunnel_module.Headers.Named.{lower_all, IsStrncasecmp, AreHeaders, has_name_iff}
use ngx_http_tunnel_module.Padding.Negotiation.{
  padding_name, is_padding_enabled, is_padding_present, padding_needed, codes, code_x, code_at,
  first_codes, generate_response_value,
}

-- A byte of the sixteen codes: visible and none of the characters that Huffman coding keeps short.
abbrev pub IsCode : ℕ → Type 0
IsCode x = (33 ≤ x) × (x ≤ 64)

code_at-IsCode : (xs : List ℕ) (i : ℕ) → All IsCode xs → i < length xs → IsCode (code_at xs i)
code_at-IsCode [] i all h = absurd (omega arith)
code_at-IsCode (x ∷ xs) zero all h = all.0
code_at-IsCode (x ∷ xs) (suc i) all h = code_at-IsCode xs i all.1 (omega arith)

first_codes-IsCode :
    (k : ℕ) (random : ℕ → ℕ) (i bits n : ℕ)
    → (length (first_codes k random i bits n) ≡ k) × All IsCode (first_codes k random i bits n)
unfolding first_codes
first_codes-IsCode zero random i bits n = (refl, tt)
first_codes-IsCode (suc k) random i bits n =
    let (size, all) = first_codes-IsCode k random _ _ _ in
    (ap suc size, (code_at-IsCode codes (bits % 16) (ground arith) (omega arith), all))

-- A value is sixteen of the codes and then at least 14 and at most 46 times the letter X, whatever
-- the random numbers are; only a failed allocation leaves none.
pub generate_response_value-codes :
    (allocated : Bool) (random : ℕ → ℕ)
    → ((allocated ≡ false) × (generate_response_value allocated random ≡ none))
      ⊎ ((first : List ℕ) × (n : ℕ) × (generate_response_value allocated random
            ≡ some (first ++ replicate n code_x))
          × (length first ≡ 16)
          × All IsCode first
          × (14 ≤ n)
          × (n ≤ 46))
unfolding generate_response_value
generate_response_value-codes false random = inl (refl, refl)
generate_response_value-codes true random =
    let (size, all) = first_codes-IsCode 16 random 2 (random 1) 7 in
    inr (
      first_codes 16 random 2 (random 1) 7,
      30 + random 0 % (62 - 30 + 1) - 16,
      refl,
      size,
      all,
      omega arith,
      omega arith,
    )

-- One of the headers has the key `padding`, in letters of any case.
abbrev pub HasPadding : List Header → Type 0
HasPadding [] = ⊥
HasPadding (h ∷ hs) =
    (lower_all h.key ≡ 112 ∷ 97 ∷ 100 ∷ 100 ∷ 105 ∷ 110 ∷ 103 ∷ []) ⊎ HasPadding hs

is_padding_present-HasPadding :
    (same : Strncasecmp) (hs : List Header)
    → IsStrncasecmp same
    → AreHeaders hs
    → (is_padding_present same hs ≡ ok) ↔ HasPadding hs
unfolding is_padding_present
is_padding_present-HasPadding same [] law are = (λ h. cc, λ h. elim h [ ])
is_padding_present-HasPadding same (h ∷ hs) law (lowcase, are) =
    let (to, from) = is_padding_present-HasPadding same hs law are in
    let (named, name) = has_name_iff same padding_name h law (refl, ground arith) lowcase in
    elim (Bool-cases (has_name same padding_name h)) [
      | inl e ↦ rw e (λ q. inl (named e), λ q. refl)
      | inr e ↦ rw e (
        λ q. inr (to q),
        λ q. elim q [ inl n ↦ absurd (ground (arith, e, name n)) | inr m ↦ from m ],
      )
    ]

and_then : (r : Rc) → (elim r [ ok ↦ ok | _ ↦ declined ] ≡ ok) ↔ (r ≡ ok)
and_then ok = (λ h. refl, λ h. refl)
and_then error = (λ h. cc, λ h. cc)
and_then again = (λ h. cc, λ h. cc)
and_then busy = (λ h. cc, λ h. cc)
and_then done = (λ h. cc, λ h. cc)
and_then declined = (λ h. cc, λ h. cc)
and_then abort = (λ h. cc, λ h. cc)
and_then (status n) = (λ h. cc, λ h. cc)

-- `tunnel_padding_needed` says that padding is needed exactly if the server has it on, the client
-- speaks HTTP/2 or HTTP/3, and one of the headers has the key `padding`, in letters of any case.
-- nginx compares names as it does, and keeps a key in lower case beside it or none.
pub padding_needed-HasPadding :
    (same : Strncasecmp) (padding stream_downstream : Bool) (hs : List Header)
    → IsStrncasecmp same
    → AreHeaders hs
    → (padding_needed same padding stream_downstream hs ≡ ok)
      ↔ ((padding ≡ true) × (stream_downstream ≡ true) × HasPadding hs)
unfolding padding_needed is_padding_enabled
padding_needed-HasPadding same false stream_downstream hs law are = (λ h. cc, λ h. cc)
padding_needed-HasPadding same true false hs law are = (λ h. cc, λ h. cc)
padding_needed-HasPadding same true true hs law are =
    let present = is_padding_present-HasPadding same hs law are in
    let same_rc = and_then (is_padding_present same hs) in
    (λ q. (refl, refl, present.0 (same_rc.0 q)), λ q. same_rc.1 (present.1 q.2))
