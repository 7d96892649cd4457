-- ===== src/Headers/Named.antt =====
-- When a request header has a name (src/capsule.c, src/padding.c), in terms of its bytes.
use ngx_http_tunnel_module.Common.{
  ℕ, zero, suc, ◌+◌, ◌≤◌, ◌<◌, true, ◌&&◌, Option, none, some, List, [], ◌∷◌, length, take, All,
  leb, ◌==◌, if◌then◌else◌, ◌≡◌, refl, sym, ap, ◌∙◌, ◌↔◌, arith, Bool-cases, inl, inr, ==_iff,
}
use ngx_http_tunnel_module.Headers.{Header, Strncasecmp, name_of, has_name}

-- A byte in lower case.
abbrev pub lower : ℕ → ℕ
lower c = if leb 65 c && leb c 90 then c + 32 else c

abbrev pub lower_all : List ℕ → List ℕ
lower_all [] = []
lower_all (c ∷ cs) = lower c ∷ lower_all cs

abbrev IsPositive : ℕ → Type 0
IsPositive c = 0 < c

-- `ngx_strncasecmp` compares the first `n` bytes of two strings in lower case, where both are as
-- long and the second has no NUL.
abbrev pub IsStrncasecmp : Strncasecmp → Type 0
IsStrncasecmp same =
    (a b : List ℕ) (n : ℕ)
    → n ≤ length a
    → n ≤ length b
    → All IsPositive b
    → (same a b n ≡ true) ↔ (lower_all (take n a) ≡ lower_all (take n b))

-- `lowcase_key`, where nginx has set it, is the key in lower case.
abbrev pub IsLowcase : List ℕ → Option (List ℕ) → Type 0
IsLowcase key none = Unit {0}
IsLowcase key (some lowcase) = lowcase ≡ lower_all key

abbrev pub AreHeaders : List Header → Type 0
AreHeaders [] = Unit {0}
AreHeaders (h ∷ hs) = IsLowcase h.key h.lowcase_key × AreHeaders hs

-- The name is in lower case and has no NUL.
abbrev pub IsName : List ℕ → Type 0
IsName name = (lower_all name ≡ name) × All IsPositive name

lower_twice : (c : ℕ) → lower (lower c) ≡ lower c
lower_twice c = ground arith

lower_all_twice : (cs : List ℕ) → lower_all (lower_all cs) ≡ lower_all cs
lower_all_twice [] = refl
lower_all_twice (c ∷ cs) = rw (lower_twice c, lower_all_twice cs) refl

length-lower_all : (cs : List ℕ) → length (lower_all cs) ≡ length cs
length-lower_all [] = refl
length-lower_all (c ∷ cs) = ap suc (length-lower_all cs)

take-length : (cs : List ℕ) (n : ℕ) → n ≡ length cs → take n cs ≡ cs
take-length [] zero e = refl
take-length [] (suc n) e = refl
take-length (c ∷ cs) zero e = absurd (omega (arith, e))
take-length (c ∷ cs) (suc n) e = ap (λ t. c ∷ t) (take-length cs n (omega (arith, e)))

lower_name :
    (key : List ℕ) (lowcase : Option (List ℕ))
    → IsLowcase key lowcase
    → lower_all (elim lowcase [ none ↦ key | some k ↦ k ]) ≡ lower_all key
lower_name key none h = refl
lower_name key (some k) h = ap lower_all h ∙ lower_all_twice key

length-name :
    (key : List ℕ) (lowcase : Option (List ℕ))
    → IsLowcase key lowcase
    → length (elim lowcase [ none ↦ key | some k ↦ k ]) ≡ length key
length-name key none h = refl
length-name key (some k) h = ap length h ∙ length-lower_all key

-- The test of both files is that the key, in lower case, is the name.
pub has_name_iff :
    (same : Strncasecmp) (name : List ℕ) (h : Header)
    → IsStrncasecmp same
    → IsName name
    → IsLowcase h.key h.lowcase_key
    → (has_name same name h ≡ true) ↔ (lower_all h.key ≡ name)
unfolding has_name
has_name_iff same name h law (low, positive) lowcase =
    elim (Bool-cases (length h.key == length name)) [
      | inr e ↦ rw e (λ q. cc, λ q. absurd (ground (arith, e, ap length q, length-lower_all h.key)))
      | inl e ↦
          let size : length h.key ≡ length name = (==_iff _ _).0 e in
          let size' = length-name h.key h.lowcase_key lowcase in
          let (to, from) =
            law (name_of h) name (length name) (omega (arith, size, size')) (omega arith)
              positive in
          let left : lower_all (take (length name) (name_of h)) ≡ lower_all h.key =
            ap lower_all (take-length (name_of h) (length name) (omega (arith, size, size')))
            ∙ lower_name h.key h.lowcase_key lowcase in
          let right : lower_all (take (length name) name) ≡ name =
            ap lower_all (take-length name (length name) refl) ∙ low in
          rw e (λ q. sym left ∙ to q ∙ right, λ q. from (left ∙ q ∙ sym right))
    ]
