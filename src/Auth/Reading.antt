-- ===== src/Auth/Reading.antt =====
-- The password file read in chunks (`tunnel_auth_check` of src/auth.c) and read as one list.
pub mod Chunk
pub mod Whole
use ngx_http_tunnel_module.Common.{
  ℕ, zero, suc, ◌+◌, ◌-◌, ◌≤◌, ◌<◌, Bool, true, false, not, ◌&&◌, ◌||◌, Option, none, some, List,
  [], ◌∷◌, ◌++◌, length, take, drop, leb, ◌==◌, if◌then◌else◌, ◌≡◌,
}
use ngx_http_tunnel_module.Auth.{c_string}
use ngx_http_tunnel_module.Auth.Scan.{
  Scan, SwState, sw_login, sw_passwd, sw_skip, is_hash_end, is_byte_at, Read, read_bytes, Scanned,
  scan_failed, not_found, terminated, at_end,
}

-- `read` is a system's `pread` on a file with the bytes `file`: it gives some of the bytes behind
-- the offset, at most as many as it was asked for, and at least one where there is one and one was
-- asked for.
pub record ReadsFile (read : ℕ → ℕ → Read) (file : List ℕ) : Type 0 where
  pub count : ℕ → ℕ → ℕ
  pub gives :
      (size offset : ℕ)
      → read size offset ≡ read_bytes (take (count size offset) (drop offset file))
  pub bounded : (size offset : ℕ) → count size offset ≤ size
  pub inside : (size offset : ℕ) → count size offset ≤ length file - offset
  pub progress : (size offset : ℕ) → 0 < size → offset < length file → 0 < count size offset

-- Where a reader without a buffer is: so many bytes of the user's name are matched, or it has read
-- so much of the hash.
pub data Look : Type 0 where
  at_login : ℕ → Look
  in_hash : List ℕ → Look
  skipping : Look

abbrev pub login_next : List ℕ → ℕ → ℕ → Look
login_next user k b =
    if k == 0 && (b == 35 || b == 13)
    then skipping
    else if k == 0 && b == 10
    then at_login k
    else if b == 58
    then (if k == length user then in_hash [] else skipping)
    else if leb (length user) k
    then skipping
    else if not (is_byte_at user k b)
    then skipping
    else at_login (suc k)

abbrev pub look_next : List ℕ → Look → ℕ → Option Look
look_next user (at_login k) b = some (login_next user k b)
look_next user (in_hash h) b = if is_hash_end b then none else some (in_hash (h ++ b ∷ []))
look_next user skipping b = if b == 10 then some (at_login 0) else some skipping

abbrev pub hash_of : Look → Option (List ℕ)
hash_of (in_hash h) = some h
hash_of _ = none

-- The hash of the user in the rest of a file.
unfoldable pub look : List ℕ → Look → List ℕ → Option (List ℕ)
look user l [] = hash_of l
look user l (b ∷ bs) = elim (look_next user l b) [ none ↦ hash_of l | some l' ↦ look user l' bs ]

abbrev view_at : SwState → ℕ → ℕ → List ℕ → Look
view_at sw_login login file_passwd buf = at_login login
view_at sw_passwd login file_passwd buf = in_hash (drop file_passwd buf)
view_at sw_skip login file_passwd buf = skipping

abbrev pub view : Scan → List ℕ → Look
view s buf = view_at s.state s.login s.file_passwd buf

-- What the loop ends with is the hash: its length and its bytes as a C string.
abbrev pub Finds : Scanned → Option (List ℕ) → Type 0
Finds not_found none = Unit {0}
Finds (terminated len bytes) (some h) = (len ≡ length h) × (c_string bytes ≡ c_string h)
Finds (at_end len bytes) (some h) = (len ≡ length h) × (c_string bytes ≡ c_string h)
Finds _ _ = ⊥
