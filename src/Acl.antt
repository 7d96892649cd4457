-- ===== src/Acl.antt =====
-- src/acl.c: the access control list, a variable that holds a decision.
pub mod Decision
mod Tests
use ngx_http_tunnel_module.Common.{
  ℕ, Bool, true, false, ◌||◌, Option, none, some, List, [], ◌∷◌, length, ltb, ◌==◌, if◌then◌else◌,
  not,
}
use ngx_http_tunnel_module.Rc.{Rc, ok, error, declined, forbidden}

-- What `ngx_http_get_indexed_variable` returns.
pub data Variable : Type 0 where
  null not_found : Variable
  found : List ℕ → Variable

-- `ngx_atoi` gives a number that is not negative, or NGX_ERROR.
abbrev pub Atoi : Type 0
Atoi = List ℕ → Option ℕ

-- `n < 0 || n > 3`
acl_parse_state : Atoi → List ℕ → Option ℕ
acl_parse_state atoi value = elim (atoi value) [
  | none ↦ none
  | some n ↦ if ltb 3 n then none else some n
]

-- `switch (state)`
state_rc : ℕ → Rc
state_rc n =
    if n == 0
    then forbidden
    else if n == 1
    then ok
    else if n == 2
    then forbidden
    else if n == 3
    then ok
    else error

eval_value : Atoi → Variable → Rc
eval_value atoi null = error
eval_value atoi not_found = error
eval_value atoi (found value) = elim (acl_parse_state atoi value) [
  | none ↦ error
  | some n ↦ state_rc n
]

-- `acl_eval_index` is none where it is NGX_CONF_UNSET_UINT.
pub acl_eval : Atoi → (ℕ → Variable) → Option ℕ → Rc
unfolding acl_parse_state state_rc eval_value
acl_eval atoi variables none = declined
acl_eval atoi variables (some index) = eval_value atoi (variables index)

-- What a directive's handler returns.
pub data ConfResult : Type 0 where
  conf_ok conf_error is_duplicate : ConfResult

-- The variable's name behind the `$`, for a name of two bytes at least.
variable_name : List ℕ → Option (List ℕ)
variable_name [] = none
variable_name (x ∷ []) = none
variable_name (x ∷ y ∷ name) = if x == 36 then some (y ∷ name) else none

index_name : (List ℕ → Option ℕ) → Option (List ℕ) → ConfResult × Option ℕ
index_name get_index none = (conf_error, none)
index_name get_index (some name) = elim (get_index name) [
  | none ↦ (conf_error, none)
  | some index ↦ (conf_ok, some index)
]

-- `get_index` stands for `ngx_http_get_variable_index`.
pub acl_eval_on : (List ℕ → Option ℕ) → Option ℕ → List ℕ → ConfResult × Option ℕ
unfolding variable_name index_name
acl_eval_on get_index (some index) name = (is_duplicate, some index)
acl_eval_on get_index none name = index_name get_index (variable_name name)
