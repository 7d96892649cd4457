-- ===== src/Capsule/Downstream/Resume.antt =====
-- Bytes that arrive later, for the flat capsule parser of src/capsule.c's format.
use ngx_http_tunnel_module.Common.{
  ℕ, zero, suc, ◌+◌, ◌-◌, ◌*◌, ◌/◌, ◌%◌, ◌^◌, ◌≡◌, refl, false, not, ◌||◌, none, some, Option, List,
  [], ◌∷◌, ◌++◌, length, length-append, ltb, ◌==◌, Bool-cases, inl, inr, arith, Option-cases, ◌>>=◌,
}
use ngx_http_tunnel_module.Context.{
  CapsuleState, read_type, read_length, read_context, read_payload, CapsuleCtx,
  max_datagram_capsule,
}
use ngx_http_tunnel_module.Capsule.Varint.Bytes.{decode, big_endian}
use ngx_http_tunnel_module.Capsule.Downstream.{capsule_datagram, datagram_context_id}
use ngx_http_tunnel_module.Capsule.Downstream.Parser.{
  Parsed, waiting, malformed, empty_datagram, datagram, parse_payload, parse_context, parse_length,
  parse_type, parse_state, parse, context_parsed, length_parsed, type_parsed,
}

-- The answer once `more` has arrived behind the bytes that were parsed.
abbrev pub resume : Parsed → List ℕ → Parsed
resume (waiting c xs) more = parse c (xs ++ more)
resume malformed more = malformed
resume (empty_datagram xs) more = empty_datagram (xs ++ more)
resume (datagram n xs) more = datagram n (xs ++ more)

big_endian-append :
    (k n : ℕ) (xs ys : List ℕ) {v : ℕ} {rest : List ℕ}
    → big_endian k n xs ≡ some (v, rest)
    → big_endian k n (xs ++ ys) ≡ some (v, rest ++ ys)
big_endian-append zero n xs ys h = ground arith
big_endian-append (suc k) n [] ys h = cc
big_endian-append (suc k) n (x ∷ xs) ys h = big_endian-append k (n * 256 + x) xs ys h

decode-append :
    (xs ys : List ℕ) {v n : ℕ} {rest : List ℕ}
    → decode xs ≡ some (v, n, rest)
    → decode (xs ++ ys) ≡ some (v, n, rest ++ ys)
decode-append [] ys h = cc
decode-append (b ∷ xs) ys {v} {n} {rest} h = go (big_endian (2 ^ (b / 64) - 1) (b % 64) xs) refl h
  where
    go :
        (o : Option (ℕ × List ℕ))
        → big_endian (2 ^ (b / 64) - 1) (b % 64) xs ≡ o
        → (◌>>=◌ {B = ℕ × ℕ × List ℕ} o (λ t. some (t.0, 2 ^ (b / 64), t.1))) ≡ some (v, n, rest)
        → decode ((b ∷ xs) ++ ys) ≡ some (v, n, rest ++ ys)
    go none p q = cc
    go (some (m, r)) p q = rw (big_endian-append (2 ^ (b / 64) - 1) (b % 64) xs ys p) (ground arith)

parse_payload-append :
    (c : CapsuleCtx) (xs ys : List ℕ)
    → c.read_state ≡ read_payload
    → parse_payload c (xs ++ ys) ≡ resume (parse_payload c xs) ys
unfolding parse
parse_payload-append c xs ys s = elim (Bool-cases (ltb (length xs) c.payload_size)) [
  | inl short ↦ rw short (rw (s, parse_state) refl)
  | inr enough ↦
      let enough' : ltb (length (xs ++ ys)) c.payload_size ≡ false =
        ground (arith, length-append xs ys) in
      rw (enough, enough') refl
]

context_parsed-append :
    (c : CapsuleCtx) (v n : ℕ) (xs ys : List ℕ)
    → context_parsed c v n (xs ++ ys) ≡ resume (context_parsed c v n xs) ys
context_parsed-append c v n xs ys =
    elim (Bool-cases (not (v == datagram_context_id) || ltb c.capsule_len n)) [
      | inl bad ↦ rw bad refl
      | inr good ↦ rw good (elim (Bool-cases (c.capsule_len - n == 0)) [
        | inl none_left ↦ rw none_left refl
        | inr some_left ↦ rw some_left (parse_payload-append _ xs ys refl)
      ])
    ]

parse_context-append :
    (c : CapsuleCtx) (xs ys : List ℕ)
    → c.read_state ≡ read_context
    → parse_context c (xs ++ ys) ≡ resume (parse_context c xs) ys
unfolding parse
parse_context-append c xs ys s = elim (Option-cases (decode xs)) [
  | inl e ↦ rw (e, parse_context) (rw (s, parse_state) refl)
  | inr ((v, n, rest), e) ↦
      rw (e, decode-append xs ys e, parse_context) (context_parsed-append c v n rest ys)
]

length_parsed-append :
    (c : CapsuleCtx) (v : ℕ) (xs ys : List ℕ)
    → length_parsed c v (xs ++ ys) ≡ resume (length_parsed c v xs) ys
length_parsed-append c v xs ys = elim (Bool-cases (ltb max_datagram_capsule v)) [
  | inl bad ↦ rw bad refl
  | inr good ↦ rw good (parse_context-append _ xs ys refl)
]

parse_length-append :
    (c : CapsuleCtx) (xs ys : List ℕ)
    → c.read_state ≡ read_length
    → parse_length c (xs ++ ys) ≡ resume (parse_length c xs) ys
unfolding parse
parse_length-append c xs ys s = elim (Option-cases (decode xs)) [
  | inl e ↦ rw (e, parse_length) (rw (s, parse_state) refl)
  | inr ((v, n, rest), e) ↦
      rw (e, decode-append xs ys e, parse_length) (length_parsed-append c v rest ys)
]

type_parsed-append :
    (c : CapsuleCtx) (v : ℕ) (xs ys : List ℕ)
    → type_parsed c v (xs ++ ys) ≡ resume (type_parsed c v xs) ys
type_parsed-append c v xs ys = elim (Bool-cases (not (v == capsule_datagram))) [
  | inl bad ↦ rw bad refl
  | inr good ↦ rw good (parse_length-append _ xs ys refl)
]

parse_type-append :
    (c : CapsuleCtx) (xs ys : List ℕ)
    → c.read_state ≡ read_type
    → parse_type c (xs ++ ys) ≡ resume (parse_type c xs) ys
unfolding parse
parse_type-append c xs ys s = elim (Option-cases (decode xs)) [
  | inl e ↦ rw (e, parse_type) (rw (s, parse_state) refl)
  | inr ((v, n, rest), e) ↦
      rw (e, decode-append xs ys e, parse_type) (type_parsed-append c v rest ys)
]

parse_state-append :
    (s : CapsuleState) (c : CapsuleCtx) (xs ys : List ℕ)
    → c.read_state ≡ s
    → parse_state s c (xs ++ ys) ≡ resume (parse_state s c xs) ys
parse_state-append read_type c xs ys e = parse_type-append c xs ys e
parse_state-append read_length c xs ys e = parse_length-append c xs ys e
parse_state-append read_context c xs ys e = parse_context-append c xs ys e
parse_state-append read_payload c xs ys e = parse_payload-append c xs ys e
parse_state-append CapsuleState.unused c xs ys e = refl

-- Parsing the bytes that are there and going on, with what arrives later, from the state and the
-- bytes that were left is the same as parsing all the bytes at once.
pub parse-append : (c : CapsuleCtx) (xs ys : List ℕ) → parse c (xs ++ ys) ≡ resume (parse c xs) ys
unfolding parse
parse-append c xs ys = parse_state-append c.read_state c xs ys refl
