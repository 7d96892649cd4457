-- ===== src/Headers/Script.antt =====
-- An `ngx_strncasecmp` for the tests.
use ngx_http_tunnel_module.Common.{
  ℕ, Bool, true, false, List, [], ◌∷◌, take, ◌==◌, if◌then◌else◌, ◌≡◌, refl, sym, ap, ◌∙◌, arith,
  Bool-cases, inl, inr, ==_iff,
}
use ngx_http_tunnel_module.Headers.{Strncasecmp}
use ngx_http_tunnel_module.Headers.Named.{lower_all, IsStrncasecmp}

abbrev equal_bytes : List ℕ → List ℕ → Bool
equal_bytes [] [] = true
equal_bytes [] (y ∷ ys) = false
equal_bytes (x ∷ xs) [] = false
equal_bytes (x ∷ xs) (y ∷ ys) = let rest = equal_bytes xs ys in if x == y then rest else false

equal_bytes_sound : (xs ys : List ℕ) → equal_bytes xs ys ≡ true → xs ≡ ys
equal_bytes_sound [] [] h = refl
equal_bytes_sound [] (y ∷ ys) h = ground (arith, h)
equal_bytes_sound (x ∷ xs) [] h = ground (arith, h)
equal_bytes_sound (x ∷ xs) (y ∷ ys) h = elim (Bool-cases (x == y)) [
  | inl e ↦
      let rest : equal_bytes xs ys ≡ true =
        sym (ap (λ b. if b then equal_bytes xs ys else false) e) ∙ h in
      ap (λ z. z ∷ xs) ((==_iff x y).0 e) ∙ ap (λ zs. y ∷ zs) (equal_bytes_sound xs ys rest)
  | inr e ↦ absurd (ground (arith, e, h))
]

equal_bytes_refl : (xs : List ℕ) → equal_bytes xs xs ≡ true
equal_bytes_refl [] = refl
equal_bytes_refl (x ∷ xs) = rw ((==_iff x x).1 refl) (equal_bytes_refl xs)

abbrev pub strncasecmp : Strncasecmp
strncasecmp a b n = equal_bytes (lower_all (take n a)) (lower_all (take n b))

pub strncasecmp-IsStrncasecmp : IsStrncasecmp strncasecmp
strncasecmp-IsStrncasecmp a b n long long' positive = (
  equal_bytes_sound _ _,
  λ e. ap (equal_bytes (lower_all (take n a))) (sym e) ∙ equal_bytes_refl (lower_all (take n a)),
)
