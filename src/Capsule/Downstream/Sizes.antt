-- ===== src/Capsule/Downstream/Sizes.antt =====
-- The sizes of the datagrams that the capsule parser finds.
use ngx_http_tunnel_module.Common.{
  ℕ, ◌-◌, ◌≤◌, ◌<◌, not, ◌||◌, List, length, ltb, ◌==◌, Option-cases, Bool-cases, inl, inr, arith,
}
use ngx_http_tunnel_module.Context.{
  CapsuleState, read_type, read_length, read_context, read_payload, CapsuleCtx,
  max_datagram_capsule,
}
use ngx_http_tunnel_module.Capsule.Varint.Bytes.{decode}
use ngx_http_tunnel_module.Capsule.Downstream.{capsule_datagram, datagram_context_id}
use ngx_http_tunnel_module.Capsule.Downstream.Parser.{
  waiting, Parsed, datagram, parse_payload, context_parsed, parse_context, length_parsed,
  parse_length, type_parsed, parse_type, parse_state, parse,
}
use ngx_http_tunnel_module.Capsule.Downstream.Refine.{IsPending}

-- A datagram that is found is not empty, and all of it is there; a parser that waits for a payload
-- waits for one byte at least.
abbrev pub Fits : Parsed → Type 0
Fits (waiting c xs) = IsPending c.read_state c.payload_size
Fits (datagram n xs) = (0 < n) × (n ≤ length xs)
Fits _ = Unit {0}

IsPending-pos : (s : CapsuleState) (n : ℕ) → 0 < n → IsPending s n
IsPending-pos read_type n h = tt
IsPending-pos read_length n h = tt
IsPending-pos read_context n h = tt
IsPending-pos read_payload n h = h
IsPending-pos CapsuleState.unused n h = tt

parse_payload-Fits : (c : CapsuleCtx) (xs : List ℕ) → 0 < c.payload_size → Fits (parse_payload c xs)
parse_payload-Fits c xs pos = elim (Bool-cases (ltb (length xs) c.payload_size)) [
  | inl e ↦ rw e (IsPending-pos c.read_state c.payload_size pos)
  | inr e ↦ rw e (pos, ground (arith, e))
]

context_parsed-Fits : (c : CapsuleCtx) (v e : ℕ) (xs : List ℕ) → Fits (context_parsed c v e xs)
context_parsed-Fits c v e xs =
    elim (Bool-cases (not (v == datagram_context_id) || ltb c.capsule_len e)) [
      | inl q ↦ rw q tt
      | inr q ↦ elim (Bool-cases (c.capsule_len - e == 0)) [
        | inl z ↦ rw (q, z) tt
        | inr z ↦
            rw (q, z)
              (parse_payload-Fits
                (record c { payload_size = c.capsule_len - e; read_state = read_payload }) xs
                (ground (arith, z)))
      ]
    ]

parse_context-Fits :
    (c : CapsuleCtx) (xs : List ℕ)
    → IsPending c.read_state c.payload_size
    → Fits (parse_context c xs)
parse_context-Fits c xs p = elim (Option-cases (decode xs)) [
  | inl e ↦ rw (e, parse_context) p
  | inr ((v, n, rest), e) ↦ rw (e, parse_context) (context_parsed-Fits c v n rest)
]

length_parsed-Fits : (c : CapsuleCtx) (v : ℕ) (xs : List ℕ) → Fits (length_parsed c v xs)
length_parsed-Fits c v xs = elim (Bool-cases (ltb max_datagram_capsule v)) [
  | inl e ↦ rw e tt
  | inr e ↦ rw e (parse_context-Fits _ xs tt)
]

parse_length-Fits :
    (c : CapsuleCtx) (xs : List ℕ)
    → IsPending c.read_state c.payload_size
    → Fits (parse_length c xs)
parse_length-Fits c xs p = elim (Option-cases (decode xs)) [
  | inl e ↦ rw (e, parse_length) p
  | inr ((v, n, rest), e) ↦ rw (e, parse_length) (length_parsed-Fits c v rest)
]

type_parsed-Fits : (c : CapsuleCtx) (v : ℕ) (xs : List ℕ) → Fits (type_parsed c v xs)
type_parsed-Fits c v xs = elim (Bool-cases (not (v == capsule_datagram))) [
  | inl e ↦ rw e tt
  | inr e ↦ rw e (parse_length-Fits _ xs tt)
]

parse_type-Fits :
    (c : CapsuleCtx) (xs : List ℕ) → IsPending c.read_state c.payload_size → Fits (parse_type c xs)
parse_type-Fits c xs p = elim (Option-cases (decode xs)) [
  | inl e ↦ rw (e, parse_type) p
  | inr ((v, n, rest), e) ↦ rw (e, parse_type) (type_parsed-Fits c v rest)
]

parse_state-Fits :
    (s : CapsuleState) (c : CapsuleCtx) (xs : List ℕ)
    → IsPending s c.payload_size
    → IsPending c.read_state c.payload_size
    → Fits (parse_state s c xs)
parse_state-Fits read_type c xs p q = parse_type-Fits c xs q
parse_state-Fits read_length c xs p q = parse_length-Fits c xs q
parse_state-Fits read_context c xs p q = parse_context-Fits c xs q
parse_state-Fits read_payload c xs p q = parse_payload-Fits c xs p
parse_state-Fits CapsuleState.unused c xs p q = tt

pub parse-Fits :
    (c : CapsuleCtx) (xs : List ℕ) → IsPending c.read_state c.payload_size → Fits (parse c xs)
unfolding parse
parse-Fits c xs p = parse_state-Fits c.read_state c xs p p
