-- ===== src/Buffers/ChainLaws.antt =====
-- What `tunnel_utils_free_consumed_chain` does to the bytes of a chain.
use ngx_http_tunnel_module.Common.{
  List, Option, none, some, ◌⊎◌, is_nil-append, ℕ, ◌≡◌, is_nil, false, All, not, ◌&&◌, ◌==◌, inl,
  inr, Bool-cases, length, refl, [], ◌∷◌, eq-nil_of_length, arith,
}
use ngx_http_tunnel_module.Buffers.{Chain, buf_size, chain_bytes, free_consumed_chain}

pub chain_bytes-free_consumed_chain :
    (cl : Chain) (limit : ℕ) → chain_bytes (free_consumed_chain cl limit) ≡ chain_bytes cl
unfolding free_consumed_chain
chain_bytes-free_consumed_chain [] limit = refl
chain_bytes-free_consumed_chain (b ∷ cl) limit =
    ground (arith, eq-nil_of_length b.bytes, chain_bytes-free_consumed_chain cl limit)

-- The first link, if there is one, has bytes left.
abbrev pub IsTrimmed : Chain → Type 0
IsTrimmed cl = is_nil cl ≡ is_nil (chain_bytes cl)

pub free_consumed_chain-IsTrimmed : (cl : Chain) → IsTrimmed (free_consumed_chain cl 0)
unfolding free_consumed_chain
free_consumed_chain-IsTrimmed [] = refl
free_consumed_chain-IsTrimmed (b ∷ cl) = ground (
  arith,
  free_consumed_chain-IsTrimmed cl,
  eq-nil_of_length b.bytes,
  is_nil-append b.bytes (chain_bytes cl),
)

-- No buffer of the chain carries the flag that ends a datagram.
abbrev pub NoFlush : Chain → Type 0
NoFlush = All (λ b. b.flush ≡ false)

pub free_consumed_chain-NoFlush :
    (cl : Chain) (limit : ℕ) → NoFlush cl → NoFlush (free_consumed_chain cl limit)
unfolding free_consumed_chain
free_consumed_chain-NoFlush [] limit h = h
free_consumed_chain-NoFlush (b ∷ cl) limit h =
    elim (Bool-cases (not (length (b ∷ cl) == limit) && buf_size b == 0)) [
      | inl e ↦ rw e (free_consumed_chain-NoFlush cl limit h.1)
      | inr e ↦ rw e h
    ]

-- A cursor's next byte, and the same on a flat list.
abbrev pub pop : List ℕ → Option (ℕ × List ℕ)
pop [] = none
pop (x ∷ xs) = some (x, xs)

abbrev pub flat : Option (ℕ × Chain) → Option (ℕ × List ℕ)
flat none = none
flat (some (n, cl)) = some (n, chain_bytes cl)

pub flat-cases :
    (o : Option (ℕ × Chain)) (xs : List ℕ)
    → flat o ≡ pop xs
    → ((o ≡ none) × (xs ≡ []))
      ⊎ ((x : ℕ) × (cl : Chain) × (o ≡ some (x, cl)) × (xs ≡ x ∷ chain_bytes cl))
flat-cases none [] e = inl (refl, refl)
flat-cases none (x ∷ xs) e = cc
flat-cases (some (x, cl)) [] e = cc
flat-cases (some (x, cl)) (y ∷ ys) e = inr (x, cl, refl, cc)
