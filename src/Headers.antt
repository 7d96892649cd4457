-- ===== src/Headers.antt =====
-- Request headers as src/capsule.c and src/padding.c scan them. The parts of nginx's header list are
-- read as one list.
pub mod Named
pub mod Script
use ngx_http_tunnel_module.Common.{ℕ, Bool, ◌&&◌, Option, none, some, List, length, ◌==◌}

pub record Header : Type 0 where
  pub key : List ℕ
  pub lowcase_key : Option (List ℕ)
  pub value : List ℕ

-- `ngx_strncasecmp(s1, s2, n) == 0`
abbrev pub Strncasecmp : Type 0
Strncasecmp = List ℕ → List ℕ → ℕ → Bool

abbrev pub name_of : Header → List ℕ
name_of h = elim h.lowcase_key [ none ↦ h.key | some key ↦ key ]

-- The test that both files write out for a name of theirs.
unfoldable pub has_name : Strncasecmp → List ℕ → Header → Bool
has_name same name h = length h.key == length name && same (name_of h) name (length name)
