-- ===== src/Acl/Tests.antt =====
-- The access control list at a concrete input.
use ngx_http_tunnel_module.Common.{ℕ, ◌≡◌, ◌↔◌, Option, none, some, List, [], ◌∷◌, ◌-◌}
use ngx_http_tunnel_module.Rc.{ok, declined, forbidden}
use ngx_http_tunnel_module.Acl.{Variable, found, acl_eval}
use ngx_http_tunnel_module.Acl.Decision.{Grants, Denies, acl_eval-decides}

-- Digits only.
abbrev digit : List ℕ → Option ℕ
digit (x ∷ []) = some (x - 48)
digit _ = none

abbrev says_two : ℕ → Variable
says_two index = found (50 ∷ [])

acl_eval-decides_example :
    ((acl_eval digit says_two (some 7) ≡ ok) ↔ Grants digit (found (50 ∷ [])))
    × ((acl_eval digit says_two (some 7) ≡ forbidden) ↔ Denies digit (found (50 ∷ [])))
    × (acl_eval digit says_two none ≡ declined)
acl_eval-decides_example = acl_eval-decides digit says_two 7
