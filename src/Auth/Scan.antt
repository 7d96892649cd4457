-- ===== src/Auth/Scan.antt =====
-- The loop of `tunnel_auth_check` (src/auth.c) that looks for a user in the password file.
use ngx_http_tunnel_module.Common.{
  ℕ, zero, suc, ◌+◌, ◌-◌, Bool, true, false, not, ◌&&◌, ◌||◌, Option, none, some, List, [], ◌∷◌,
  ◌++◌, length, take, drop, leb, ◌==◌, if◌then◌else◌,
}

-- NGX_HTTP_TUNNEL_AUTH_BUF_SIZE
abbrev pub auth_buf_size : ℕ
auth_buf_size = 2048

pub data SwState : Type 0 where
  sw_login sw_passwd sw_skip : SwState

pub record Scan : Type 0 where
  pub state : SwState
  pub login : ℕ
  pub file_passwd : ℕ

abbrev pub is_hash_end : ℕ → Bool
is_hash_end b = b == 10 || b == 13 || b == 58

-- `buf[i] == user.data[login]`
abbrev pub is_byte_at : List ℕ → ℕ → ℕ → Bool
is_byte_at [] n b = false
is_byte_at (x ∷ xs) zero b = b == x
is_byte_at (x ∷ xs) (suc n) b = is_byte_at xs n b

-- The case `sw_login` at the byte `b` of index `i`.
unfoldable pub login_byte : List ℕ → ℕ → ℕ → Scan → Scan
login_byte user i b s =
    if s.login == 0 && (b == 35 || b == 13)
    then record s { state = sw_skip }
    else if s.login == 0 && b == 10
    then s
    else if b == 58
    then (if s.login == length user
        then record s { state = sw_passwd; file_passwd = i + 1 }
        else record s { state = sw_skip })
    else if leb (length user) s.login
    then record s { state = sw_skip }
    else if not (is_byte_at user s.login b)
    then record s { state = sw_skip }
    else record s { login = suc s.login }

-- One turn of the inner loop; none where it leaves the loops with the hash complete.
unfoldable pub scan_byte : List ℕ → ℕ → ℕ → SwState → Scan → Option Scan
unfolding login_byte
scan_byte user i b sw_login s = some (login_byte user i b s)
scan_byte user i b sw_passwd s = if is_hash_end b then none else some s
scan_byte user i b sw_skip s =
    if b == 10 then some (record s { state = sw_login; login = 0 }) else some s

-- The inner loop over the bytes from index `i` on: the state behind it, and the index where it was
-- left early.
unfoldable pub scan_bytes : List ℕ → ℕ → List ℕ → Scan → Scan × Option ℕ
unfolding scan_byte
scan_bytes user i [] s = (s, none)
scan_bytes user i (b ∷ bs) s = elim (scan_byte user i b s.state s) [
  | none ↦ (s, some i)
  | some s' ↦ scan_bytes user (suc i) bs s'
]

-- `ngx_read_file(&file, ..., size, offset)`, by size and offset.
pub data Read : Type 0 where
  read_error : Read
  read_bytes : List ℕ → Read

-- How the outer loop ends: a read that fails, a complete hash with its length and what stands in
-- memory from its first byte on, or the end of the file, inside a hash or not.
pub data Scanned : Type 0 where
  scan_failed not_found : Scanned
  terminated at_end : ℕ → List ℕ → Scanned

abbrev pub is_passwd : SwState → Bool
is_passwd sw_passwd = true
is_passwd _ = false

-- The bytes that are moved to the start of the buffer behind a chunk.
abbrev pub keep : Scan → List ℕ → List ℕ
keep s buf = if is_passwd s.state then drop s.file_passwd buf else []

abbrev pub rewind : Scan → Scan
rewind s = if is_passwd s.state then record s { file_passwd = 0 } else s

-- Behind `break`, where `i` is `left`.
unfoldable pub scan_end : Scan → List ℕ → Scanned
scan_end s buf =
    if is_passwd s.state
    then at_end (length buf - s.file_passwd) (drop s.file_passwd buf)
    else not_found

-- `buf[i] = '\0'`, `pwd.len` and `pwd.data`
unfoldable pub hash_at : Scan → ℕ → List ℕ → Scanned
hash_at s i buf =
    terminated (i - s.file_passwd) (drop s.file_passwd (take i buf ++ 0 ∷ drop (suc i) buf))

-- The outer loop: `buf` holds the `left` bytes that are kept.
unfoldable pub scan_file : (ℕ → ℕ → Read) → List ℕ → ℕ → Scan → List ℕ → ℕ → Option Scanned
unfolding scan_bytes scan_end hash_at
scan_file read user zero s buf offset = none
scan_file read user (suc fuel) s buf offset = elim (read (auth_buf_size - length buf) offset) [
  | read_error ↦ some scan_failed
  | read_bytes [] ↦ some (scan_end s buf)
  | read_bytes (b ∷ bs) ↦
      let (s', ended) = scan_bytes user (length buf) (b ∷ bs) s in
      elim ended [
        | some i ↦ some (hash_at s' i (buf ++ b ∷ bs))
        | none ↦
            scan_file read user fuel (rewind s') (keep s' (buf ++ b ∷ bs))
              (offset + length (b ∷ bs))
      ]
]

abbrev pub scan_start : Scan
scan_start = record { state = sw_login; login = 0; file_passwd = 0 }
