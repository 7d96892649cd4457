-- ===== src/Auth/Reading/Chunk.antt =====
-- One chunk of the password file (`tunnel_auth_check` of src/auth.c).
use ngx_http_tunnel_module.Common.{
  ℕ, suc, ◌+◌, ◌-◌, ◌≤◌, ◌<◌, true, Option, none, some, List, [], ◌∷◌, ◌++◌, length, take, drop,
  ◌≡◌, refl, sym, ap, ◌∙◌, arith, Option-cases, inl, inr, drop-append_le, length-append,
  append_assoc, append-nil, length-drop,
}
use mathlib.Core.Path.{subst}
use ngx_http_tunnel_module.Auth.Scan.{
  Scan, SwState, sw_login, sw_passwd, sw_skip, scan_byte, scan_bytes, login_byte, is_passwd,
}
use ngx_http_tunnel_module.Auth.Reading.{Look, look_next, hash_of, look, view, view_at}

-- The hash begins inside the buffer.
abbrev pub Inside : Scan → List ℕ → Type 0
Inside s buf = is_passwd s.state ≡ true → s.file_passwd ≤ length buf

-- What one turn of the inner loop has to do with the reader's.
abbrev Follows : List ℕ → Scan → List ℕ → ℕ → Option Scan → Type 0
Follows user s pre b none = (look_next user (view s pre) b ≡ none) × (s.state ≡ sw_passwd)
Follows user s pre b (some s') =
    (look_next user (view s pre) b ≡ some (view s' (pre ++ b ∷ []))) × Inside s' (pre ++ b ∷ [])

length-snoc : (pre : List ℕ) (b : ℕ) → length (pre ++ b ∷ []) ≡ length pre + 1
length-snoc pre b = length-append pre (b ∷ [])

drop-snoc : (pre : List ℕ) (b : ℕ) → drop (suc (length pre)) (pre ++ b ∷ []) ≡ []
drop-snoc [] b = refl
drop-snoc (x ∷ xs) b = drop-snoc xs b

drop-snoc_all : (pre : List ℕ) (b : ℕ) → drop (length pre + 1) (pre ++ b ∷ []) ≡ []
drop-snoc_all pre b =
    let e : length pre + 1 ≡ suc (length pre) = omega arith in
    ap (λ n. drop n (pre ++ b ∷ [])) e ∙ drop-snoc pre b

login_byte-Follows :
    (user : List ℕ) (k fp : ℕ) (pre : List ℕ) (b : ℕ)
    → let s : Scan = record { state = sw_login; login = k; file_passwd = fp } in
      Follows user s pre b (some (login_byte user (length pre) b s))
unfolding login_byte
login_byte-Follows user k fp pre b = ground (arith, length-snoc pre b, drop-snoc_all pre b)

scan_byte-Follows :
    (user : List ℕ) (st : SwState) (k fp : ℕ) (pre : List ℕ) (b : ℕ)
    → let s : Scan = record { state = st; login = k; file_passwd = fp } in
      Inside s pre → Follows user s pre b (scan_byte user (length pre) b st s)
unfolding scan_byte
scan_byte-Follows user sw_login k fp pre b h = login_byte-Follows user k fp pre b
scan_byte-Follows user sw_passwd k fp pre b h =
    ground (arith, length-snoc pre b, drop-append_le fp pre (b ∷ []))
scan_byte-Follows user sw_skip k fp pre b h = ground arith

-- What a chunk leaves of a look at `bs ++ rest`: a look at the rest, or the hash between two indices.
abbrev pub Agrees : List ℕ → Option (List ℕ) → List ℕ → List ℕ → Scan × Option ℕ → Type 0
Agrees user found buf rest (s', none) = (found ≡ look user (view s' buf) rest) × Inside s' buf
Agrees user found buf rest (s', some i) =
    (found ≡ some (take (i - s'.file_passwd) (drop s'.file_passwd buf)))
    × (s'.file_passwd ≤ i)
    × (i < length buf)

take-append : (xs ys : List ℕ) → take (length xs) (xs ++ ys) ≡ xs
take-append [] ys = refl
take-append (x ∷ xs) ys = ap (λ t. x ∷ t) (take-append xs ys)

take-drop-append :
    (n : ℕ) (xs ys : List ℕ) → n ≤ length xs → take (length xs - n) (drop n (xs ++ ys)) ≡ drop n xs
take-drop-append n xs ys h = rw (drop-append_le n xs ys h) (
    let e : length xs - n ≡ length (drop n xs) = sym (length-drop n xs) in
    ap (λ k. take k (drop n xs ++ ys)) e ∙ take-append (drop n xs) ys)

hash_end-Agrees :
    (user : List ℕ) (s : Scan) (pre : List ℕ) (b : ℕ) (bs rest : List ℕ)
    → s.state ≡ sw_passwd
    → Inside s pre
    → Agrees user (hash_of (view s pre)) (pre ++ b ∷ bs) rest (s, some (length pre))
hash_end-Agrees user s pre b bs rest passwd inside =
    let within : s.file_passwd ≤ length pre = inside (ap is_passwd passwd) in
    let at_hash : hash_of (view s pre) ≡ some (drop s.file_passwd pre) =
      ap (λ st. hash_of (view_at st s.login s.file_passwd pre)) passwd in
    (
      at_hash ∙ ap some (sym (take-drop-append s.file_passwd pre (b ∷ bs) within)),
      within,
      omega (arith, length-append pre (b ∷ bs)),
    )

scan_bytes_stop :
    (user : List ℕ) (i b : ℕ) (bs : List ℕ) (s : Scan)
    → scan_byte user i b s.state s ≡ none
    → scan_bytes user i (b ∷ bs) s ≡ (s, some i)
unfolding scan_bytes
scan_bytes_stop user i b bs s h = rw (h, scan_bytes) refl

scan_bytes_go :
    (user : List ℕ) (i b : ℕ) (bs : List ℕ) (s s' : Scan)
    → scan_byte user i b s.state s ≡ some s'
    → scan_bytes user i (b ∷ bs) s ≡ scan_bytes user (suc i) bs s'
unfolding scan_bytes
scan_bytes_go user i b bs s s' h = rw (h, scan_bytes) refl

pub look_stop :
    (user : List ℕ) (l : Look) (b : ℕ) (bs : List ℕ)
    → look_next user l b ≡ none
    → look user l (b ∷ bs) ≡ hash_of l
unfolding look
look_stop user l b bs h = rw (h, look) refl

pub look_go :
    (user : List ℕ) (l l' : Look) (b : ℕ) (bs : List ℕ)
    → look_next user l b ≡ some l'
    → look user l (b ∷ bs) ≡ look user l' bs
unfolding look
look_go user l l' b bs h = rw (h, look) refl

pub scan_bytes-Agrees :
    (user : List ℕ) (s : Scan) (pre bs rest : List ℕ)
    → Inside s pre
    → Agrees user
        (look user (view s pre) (bs ++ rest))
        (pre ++ bs)
        rest
        (scan_bytes user (length pre) bs s)
unfolding scan_bytes
scan_bytes-Agrees user s pre [] rest inside = rw (append-nil pre) (refl, inside)
scan_bytes-Agrees user s pre (b ∷ bs) rest inside =
    let follows = scan_byte-Follows user s.state s.login s.file_passwd pre b inside in
    elim (Option-cases (scan_byte user (length pre) b s.state s)) [
      | inl e ↦
          let (stops, passwd) = subst (Follows user s pre b) e follows in
          rw
            (
              scan_bytes_stop user (length pre) b bs s e,
              look_stop user (view s pre) b (bs ++ rest) stops,
            )
            (hash_end-Agrees user s pre b bs rest passwd inside)
      | inr (s', e) ↦
          let (goes, inside') = subst (Follows user s pre b) e follows in
          let ih = scan_bytes-Agrees user s' (pre ++ b ∷ []) bs rest inside' in
          let found = look user (view s' (pre ++ b ∷ [])) (bs ++ rest) in
          let index : length (pre ++ b ∷ []) ≡ suc (length pre) =
            omega (arith, length-snoc pre b) in
          rw
            (
              scan_bytes_go user (length pre) b bs s s' e,
              look_go user (view s pre) (view s' (pre ++ b ∷ [])) b (bs ++ rest) goes,
            )
            (subst (λ n. Agrees user found (pre ++ b ∷ bs) rest (scan_bytes user n bs s')) index
              (subst
                (λ buf. Agrees user found buf rest (scan_bytes user (length (pre ++ b ∷ [])) bs s'))
                (append_assoc pre (b ∷ []) bs) ih))
    ]
