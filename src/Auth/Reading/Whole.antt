-- ===== src/Auth/Reading/Whole.antt =====
-- The loop over the chunks of the password file (`tunnel_auth_check` of src/auth.c).
use ngx_http_tunnel_module.Common.{
  ℕ, zero, suc, ◌+◌, ◌-◌, ◌≤◌, ◌<◌, true, false, Option, none, some, List, [], ◌∷◌, ◌++◌, length,
  take, drop, ◌≡◌, refl, sym, ap, ◌∙◌, arith, Bool-cases, inl, inr, ltb, ltb→lt, ltb_false→le,
  eq-nil_of_length, drop-append_le, length-append, append_assoc, append-nil, length-drop,
  take-append_le, length-take, ◌⊎◌, take-append-drop,
}
use mathlib.Core.Path.{subst}
use ngx_http_tunnel_module.Auth.{c_string}
use ngx_http_tunnel_module.Auth.Scan.{
  auth_buf_size, Scan, SwState, sw_login, sw_passwd, sw_skip, is_hash_end, scan_bytes, is_passwd,
  scan_file, scan_end, hash_at, Read, read_bytes, Scanned, keep, rewind, scan_start,
}
use ngx_http_tunnel_module.Auth.Reading.{at_login, in_hash, look, view, ReadsFile, Finds}
use ngx_http_tunnel_module.Auth.Reading.Chunk.{Inside, Agrees, scan_bytes-Agrees}

-- As much of a hash as the buffer holds.
abbrev pub in_buffer : Option (List ℕ) → Option (List ℕ)
in_buffer none = none
in_buffer (some h) = some (take auth_buf_size h)

-- Between two chunks the buffer holds the hash so far, or nothing.
abbrev Kept : Scan → List ℕ → Type 0
Kept s buf =
    (is_passwd s.state ≡ true → s.file_passwd ≡ 0)
    × (is_passwd s.state ≡ false → buf ≡ [])
    × (length buf ≤ auth_buf_size)

abbrev Found : Option Scanned → Option (List ℕ) → Type 0
Found result found = (r : Scanned) × (result ≡ some r) × Finds r (in_buffer found)

take_all : (n : ℕ) (xs : List ℕ) → length xs ≤ n → take n xs ≡ xs
take_all zero [] h = refl
take_all (suc n) [] h = refl
take_all zero (x ∷ xs) h = elim h [ ]
take_all (suc n) (x ∷ xs) h = ap (λ t. x ∷ t) (take_all n xs (omega arith))

take_nil : (n : ℕ) → take {A = ℕ} n [] ≡ []
take_nil zero = refl
take_nil (suc n) = refl

take_exact : (n : ℕ) (xs ys : List ℕ) → length xs ≡ n → take n (xs ++ ys) ≡ xs
take_exact n xs ys h = take-append_le n xs ys (omega arith) ∙ take_all n xs (omega arith)

c_string_nul : (xs ys : List ℕ) → c_string (xs ++ 0 ∷ ys) ≡ c_string xs
c_string_nul [] ys = refl
c_string_nul (x ∷ xs) ys = rw (c_string_nul xs ys) refl

-- More bytes of a hash only make it longer.
look-hash : (user h xs : List ℕ) → (ys : List ℕ) × (look user (in_hash h) xs ≡ some (h ++ ys))
unfolding look
look-hash user h [] = ([], ap some (sym (append-nil h)))
look-hash user h (x ∷ xs) = elim (Bool-cases (is_hash_end x)) [
  | inl e ↦ ([], rw (e, look) (ap some (sym (append-nil h))))
  | inr e ↦
      let (ys, eq) = look-hash user (h ++ x ∷ []) xs in
      (x ∷ ys, rw (e, look) (eq ∙ ap some (append_assoc h (x ∷ []) ys)))
]

drop-take : (n i : ℕ) (xs : List ℕ) → n ≤ i → drop n (take i xs) ≡ take (i - n) (drop n xs)
drop-take zero i xs h = let e : i ≡ i - 0 = omega arith in ap (λ k. take k xs) e
drop-take (suc n) zero xs h = elim h [ ]
drop-take (suc n) (suc i) [] h = sym (take_nil (suc i - suc n))
drop-take (suc n) (suc i) (x ∷ xs) h =
    let e : i - n ≡ suc i - suc n = omega arith in
    drop-take n i xs (omega arith) ∙ ap (λ k. take k (drop n xs)) e

hash_at-Finds :
    (s : Scan) (i : ℕ) (buf : List ℕ)
    → s.file_passwd ≤ i
    → i < length buf
    → length buf ≤ auth_buf_size
    → Finds (hash_at s i buf) (in_buffer (some (take (i - s.file_passwd) (drop s.file_passwd buf))))
unfolding hash_at
hash_at-Finds s i buf h h' h'' =
    let hash = take (i - s.file_passwd) (drop s.file_passwd buf) in
    let len : i - s.file_passwd ≡ length hash = omega (
      arith,
      length-take (i - s.file_passwd) (drop s.file_passwd buf),
      length-drop s.file_passwd buf,
    ) in
    let cut : drop s.file_passwd (take i buf ++ 0 ∷ drop (suc i) buf)
        ≡ hash ++ 0 ∷ drop (suc i) buf =
      drop-append_le s.file_passwd (take i buf) (0 ∷ drop (suc i) buf)
        (omega (arith, length-take i buf))
      ∙ ap (λ t. t ++ 0 ∷ drop (suc i) buf) (drop-take s.file_passwd i buf h) in
    let fits : take auth_buf_size hash ≡ hash = take_all auth_buf_size hash (omega arith) in
    rw fits (len, ap c_string cut ∙ c_string_nul hash (drop (suc i) buf))

hash-Finds :
    (user buf rest : List ℕ)
    → length buf ≤ auth_buf_size
    → (length buf ≡ auth_buf_size) ⊎ (rest ≡ [])
    → in_buffer (look user (in_hash buf) rest) ≡ some buf
unfolding look
hash-Finds user buf rest fits (inr e) = rw e (ap some (take_all auth_buf_size buf fits))
hash-Finds user buf rest fits (inl e) =
    let (ys, eq) = look-hash user buf rest in rw eq (ap some (take_exact auth_buf_size buf ys e))

scan_end-Finds :
    (user : List ℕ) (st : SwState) (k fp : ℕ) (buf rest : List ℕ)
    → let s : Scan = record { state = st; login = k; file_passwd = fp } in
      Kept s buf
      → (length buf ≡ auth_buf_size) ⊎ (rest ≡ [])
      → Finds (scan_end s buf) (in_buffer (look user (view s buf) rest))
unfolding scan_end look
scan_end-Finds user sw_login k fp buf rest (_, empty, _) (inr e) = rw e tt
scan_end-Finds user sw_skip k fp buf rest (_, empty, _) (inr e) = rw e tt
scan_end-Finds user sw_login k fp buf rest (_, empty, _) (inl e) =
    absurd (omega (arith, ap length (empty refl)))
scan_end-Finds user sw_skip k fp buf rest (_, empty, _) (inl e) =
    absurd (omega (arith, ap length (empty refl)))
scan_end-Finds user sw_passwd k fp buf rest (start, _, fits) ends =
    rw (start refl, hash-Finds user buf rest fits ends) (omega arith, refl)

abbrev after : (ℕ → ℕ → Read) → List ℕ → ℕ → List ℕ → ℕ → Scan × Option ℕ → Option Scanned
after read user fuel buf offset (s, none) = scan_file read user fuel (rewind s) (keep s buf) offset
after read user fuel buf offset (s, some i) = some (hash_at s i buf)

scan_file-after :
    (read : ℕ → ℕ → Read) (user : List ℕ) (fuel : ℕ) (s : Scan) (buf : List ℕ) (offset b : ℕ)
    (bs : List ℕ)
    → read (auth_buf_size - length buf) offset ≡ read_bytes (b ∷ bs)
    → scan_file read user (suc fuel) s buf offset
      ≡ after read user fuel
          (buf ++ b ∷ bs)
          (offset + length (b ∷ bs))
          (scan_bytes user (length buf) (b ∷ bs) s)
unfolding scan_file
scan_file-after read user fuel s buf offset b bs reads = rw (reads, scan_file) refl

rewind-Kept :
    (st : SwState) (k fp : ℕ) (buf : List ℕ)
    → length buf ≤ auth_buf_size
    → let s : Scan = record { state = st; login = k; file_passwd = fp } in
      Kept (rewind s) (keep s buf) × (view (rewind s) (keep s buf) ≡ view s buf)
rewind-Kept sw_login k fp buf h = ((ground arith, λ _. refl, omega arith), refl)
rewind-Kept sw_passwd k fp buf h =
    ((λ _. refl, ground arith, omega (arith, length-drop fp buf)), refl)
rewind-Kept sw_skip k fp buf h = ((ground arith, λ _. refl, omega arith), refl)

after-Found :
    (read : ℕ → ℕ → Read) (user : List ℕ) (fuel : ℕ) (buf : List ℕ) (offset : ℕ)
    (found : Option (List ℕ)) (rest : List ℕ) (result : Scan × Option ℕ)
    → length buf ≤ auth_buf_size
    → Agrees user found buf rest result
    → ((s : Scan) (buf' : List ℕ)
        → Kept s buf'
        → Found (scan_file read user fuel s buf' offset) (look user (view s buf') rest))
    → Found (after read user fuel buf offset result) found
after-Found read user fuel buf offset found rest (s, some i) fits (is_hash, begins, ends) ih =
    rw is_hash (hash_at s i buf, refl, hash_at-Finds s i buf begins ends fits)
after-Found read user fuel buf offset found rest (s, none) fits (goes_on, inside) ih =
    let (kept, same) = rewind-Kept s.state s.login s.file_passwd buf fits in
    rw goes_on (
      subst
        (λ l. Found (scan_file read user fuel (rewind s) (keep s buf) offset) (look user l rest))
        same (ih (rewind s) (keep s buf) kept))

turn-Found :
    (read : ℕ → ℕ → Read) (user : List ℕ) (fuel : ℕ) (s : Scan) (buf : List ℕ) (offset : ℕ)
    (chunk rest : List ℕ)
    → read (auth_buf_size - length buf) offset ≡ read_bytes chunk
    → length buf + length chunk ≤ auth_buf_size
    → Kept s buf
    → (length chunk ≡ 0 → (length buf ≡ auth_buf_size) ⊎ (rest ≡ []))
    → ((s' : Scan) (buf' : List ℕ)
        → Kept s' buf'
        → 0 < length chunk
        → Found
            (scan_file read user fuel s' buf' (offset + length chunk))
            (look user (view s' buf') rest))
    → Found (scan_file read user (suc fuel) s buf offset) (look user (view s buf) (chunk ++ rest))
unfolding scan_file
turn-Found read user fuel s buf offset [] rest reads fits kept ends ih = (
  scan_end s buf,
  rw (reads, scan_file) refl,
  scan_end-Finds user s.state s.login s.file_passwd buf rest kept (ends refl),
)
turn-Found read user fuel s buf offset (b ∷ bs) rest reads fits kept ends ih =
    let inside : Inside s buf = λ p. omega (arith, kept.0 p) in
    let inside' : length (buf ++ b ∷ bs) ≤ auth_buf_size =
      omega (arith, length-append buf (b ∷ bs)) in
    let buf' = buf ++ b ∷ bs in
    let result = scan_bytes user (length buf) (b ∷ bs) s in
    let agrees : Agrees user (look user (view s buf) (b ∷ bs ++ rest)) buf' rest result =
      scan_bytes-Agrees user s buf (b ∷ bs) rest inside in
    subst (λ t. Found t (look user (view s buf) (b ∷ bs ++ rest)))
      (sym (scan_file-after read user fuel s buf offset b bs reads))
      (after-Found read user fuel buf' (offset + length (b ∷ bs))
        (look user (view s buf) (b ∷ bs ++ rest)) rest result inside' agrees
        (λ s' kept' k. ih s' kept' k (omega arith)))

drop_nil : (n : ℕ) → drop {A = ℕ} n [] ≡ []
drop_nil zero = refl
drop_nil (suc n) = refl

-- nothing is read: the buffer is full, or the file ends here
nothing_read :
    (read : ℕ → ℕ → Read) (file buf : List ℕ) (offset : ℕ) (reads : ReadsFile read file)
    → length buf ≤ auth_buf_size
    → let n = reads.count (auth_buf_size - length buf) offset in
      n ≡ 0 → (length buf ≡ auth_buf_size) ⊎ (drop n (drop offset file) ≡ [])
nothing_read read file buf offset reads fits none_read =
    let n = reads.count (auth_buf_size - length buf) offset in
    elim (Bool-cases (ltb (length buf) auth_buf_size)) [
      | inr e ↦ inl (omega (arith, ltb_false→le (length buf) auth_buf_size e))
      | inl e ↦ elim (Bool-cases (ltb offset (length file))) [
        | inl e' ↦ absurd (
            omega (
              arith,
              none_read,
              reads.progress (auth_buf_size - length buf) offset
                  (omega (arith, ltb→lt (length buf) auth_buf_size e))
                  (ltb→lt offset (length file) e'),
            ))
        | inr e' ↦ inr (
            eq-nil_of_length (drop n (drop offset file)) (
              omega (
                arith,
                length-drop n (drop offset file),
                length-drop offset file,
                ltb_false→le offset (length file) e',
              )))
      ]
    ]

drop-drop : (n m : ℕ) (xs : List ℕ) → drop n (drop m xs) ≡ drop (m + n) xs
drop-drop n zero xs = let e : n ≡ 0 + n = omega arith in ap (λ k. drop k xs) e
drop-drop n (suc m) [] = drop_nil n ∙ sym (drop_nil (suc m + n))
drop-drop n (suc m) (x ∷ xs) =
    let e : suc (m + n) ≡ suc m + n = omega arith in drop-drop n m xs ∙ ap (λ k. drop k (x ∷ xs)) e

file-Found :
    (read : ℕ → ℕ → Read) (file user : List ℕ)
    → ReadsFile read file
    → (fuel : ℕ) (s : Scan) (buf : List ℕ) (offset : ℕ) → Kept s buf
    → length file - offset < fuel
    → Found (scan_file read user fuel s buf offset) (look user (view s buf) (drop offset file))
file-Found read file user reads zero s buf offset kept h = absurd (omega arith)
file-Found read file user reads (suc fuel) s buf offset kept h =
    let size = auth_buf_size - length buf in
    let n = reads.count size offset in
    let chunk = take n (drop offset file) in
    let rest = drop n (drop offset file) in
    let len : length chunk ≡ n = omega (
      arith,
      length-take n (drop offset file),
      length-drop offset file,
      reads.inside size offset,
    ) in
    subst (λ t. Found (scan_file read user (suc fuel) s buf offset) (look user (view s buf) t))
      (take-append-drop n (drop offset file))
      (turn-Found read user fuel s buf offset chunk rest (reads.gives size offset)
        (omega (arith, reads.bounded size offset, kept.2)) kept
        (λ e. nothing_read read file buf offset reads kept.2 (omega (arith, e, len)))
        (λ s' buf' kept' more.
          subst
            (λ t.
              Found (scan_file read user fuel s' buf' (offset + length chunk))
                (look user (view s' buf') t))
            (ap (λ k. drop (offset + k) file) len ∙ sym (drop-drop n offset file))
            (file-Found read file user reads fuel s' buf' (offset + length chunk) kept'
              (omega (arith, len, reads.inside size offset)))))

-- The loop, started on a file that the system reads in chunks of any size, ends: fuel of one more
-- than the size of the file is enough, and a read never fails. It finds what a reader that has the
-- file as one list finds for the user, a hash cut off behind as many bytes as the buffer has.
pub scan_file-Finds :
    (read : ℕ → ℕ → Read) (file user : List ℕ)
    → ReadsFile read file
    → (fuel : ℕ) → length file < fuel
    → (r : Scanned) × (scan_file read user fuel scan_start [] 0 ≡ some r)
      × Finds r (in_buffer (look user (at_login 0) file))
scan_file-Finds read file user reads fuel h =
    file-Found read file user reads fuel scan_start [] 0 (ground arith, λ _. refl, omega arith)
      (omega arith)
