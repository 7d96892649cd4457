-- ===== src/Auth/Lines.antt =====
-- The password file by its lines: what `tunnel_auth_check` (src/auth.c) looks for.
use ngx_http_tunnel_module.Common.{
  ℕ, zero, suc, ◌≤◌, ◌<◌, Bool, true, false, not, ◌||◌, Option, none, some, List, [], ◌∷◌, ◌++◌,
  length, drop, leb, ◌==◌, if◌then◌else◌, ◌≡◌, refl, sym, ap, ◌∙◌, arith, Bool-cases, inl, inr, ◌⊎◌,
  append_assoc, Option-cases, append-nil, lt→leb_false, le→leb, All, ==_iff,
}
use mathlib.Core.Path.{subst}
use ngx_http_tunnel_module.Auth.Scan.{is_hash_end, is_byte_at}
use ngx_http_tunnel_module.Auth.Reading.{Look, at_login, in_hash, skipping, login_next, look}
use ngx_http_tunnel_module.Auth.Reading.Chunk.{look_stop, look_go}

-- The first line and the lines behind it, without their line feeds.
abbrev pub split_lines : List ℕ → List ℕ × List (List ℕ)
split_lines [] = ([], [])
split_lines (b ∷ bs) =
    let (line, lines) = split_lines bs in if b == 10 then ([], line ∷ lines) else (b ∷ line, lines)

abbrev pub lines_of : List ℕ → List (List ℕ)
lines_of file = let (line, lines) = split_lines file in line ∷ lines

abbrev pub is_comment : List ℕ → Bool
is_comment [] = true
is_comment (b ∷ bs) = b == 35 || b == 13

abbrev pub has_colon : List ℕ → Bool
has_colon [] = false
has_colon (b ∷ bs) = b == 58 || has_colon bs

abbrev pub behind : List ℕ → List ℕ → Option (List ℕ)
behind [] line = some line
behind (x ∷ xs) [] = none
behind (x ∷ xs) (b ∷ bs) = let rest = behind xs bs in if b == x then rest else none

abbrev pub hash_part : List ℕ → List ℕ
hash_part [] = []
hash_part (b ∷ bs) = let rest = hash_part bs in if is_hash_end b then [] else b ∷ rest

-- The hash in a line `user:hash`, which may go on behind a second colon.
abbrev pub entry : List ℕ → List ℕ → Option (List ℕ)
entry user line =
    if is_comment line
    then none
    else elim (behind (user ++ 58 ∷ []) line) [ none ↦ none | some rest ↦ some (hash_part rest) ]

-- The first entry of the user.
abbrev pub lookup : List ℕ → List (List ℕ) → Option (List ℕ)
lookup user [] = none
lookup user (line ∷ lines) =
    let rest = lookup user lines in elim (entry user line) [ none ↦ rest | some h ↦ some h ]

-- A line is blank, a comment, or has a colon.
abbrev pub IsLine : List ℕ → Type 0
IsLine line = is_comment line || has_colon line ≡ true

abbrev entry_or : Option (List ℕ) → Option (List ℕ) → Option (List ℕ)
entry_or none rest = rest
entry_or (some line) rest = some (hash_part line)

abbrev expected : List ℕ → Look → List ℕ → List (List ℕ) → Option (List ℕ)
expected user (at_login zero) line lines = lookup user (line ∷ lines)
expected user (at_login (suc k)) line lines =
    entry_or (behind (drop (suc k) user ++ 58 ∷ []) line) (lookup user lines)
expected user (in_hash h) line lines = some (h ++ hash_part line)
expected user skipping line lines = lookup user lines

abbrev Expects : List ℕ → Look → List ℕ → List (List ℕ) → Type 0
Expects user (at_login zero) line lines = IsLine line × All IsLine lines
Expects user (at_login (suc k)) line lines =
    (suc k ≤ length user) × (has_colon line ≡ true) × All IsLine lines
Expects user (in_hash h) line lines = Unit {0}
Expects user skipping line lines = All IsLine lines

-- What `login_next` does with a byte that is neither the first of a comment nor a blank line's end.
abbrev name_next : List ℕ → ℕ → ℕ → Look
name_next user k b =
    if b == 58
    then (if k == length user then in_hash [] else skipping)
    else if leb (length user) k
    then skipping
    else if not (is_byte_at user k b)
    then skipping
    else at_login (suc k)

-- The name is matched to its end, or goes on with a byte that is no colon.
abbrev NameAt : List ℕ → ℕ → ℕ → Type 0
NameAt user k b =
    ((drop k user ≡ []) × (k ≡ length user))
    ⊎ ((c : ℕ) × (drop k user ≡ c ∷ drop (suc k) user)
        × (k < length user)
        × (is_byte_at user k b ≡ (b == c))
        × ((c == 58) ≡ false))

pub or_false : (a b : Bool) → a || b ≡ false → (a ≡ false) × (b ≡ false)
or_false false b h = (refl, h)
or_false true b h = ground arith

or_false_right : (a b : Bool) → a || b ≡ true → a ≡ false → b ≡ true
or_false_right a b h e = subst (λ t. t || b ≡ true) e h

name-NameAt : (user : List ℕ) (k b : ℕ) → k ≤ length user → has_colon user ≡ false → NameAt user k b
name-NameAt [] zero b h plain = inl (refl, refl)
name-NameAt [] (suc k) b h plain = elim h [ ]
name-NameAt (x ∷ xs) zero b h plain =
    inr (x, refl, omega arith, refl, (or_false (x == 58) (has_colon xs) plain).0)
name-NameAt (x ∷ xs) (suc k) b h plain =
    elim (name-NameAt xs k b (omega arith) (or_false (x == 58) (has_colon xs) plain).1) [
      | inl (e, e') ↦ inl (e, omega arith)
      | inr (c, e, h', e', e'') ↦ inr (c, e, omega arith, e', e'')
    ]

name_next-expected :
    (user : List ℕ) (k b : ℕ) (bs line : List ℕ) (lines : List (List ℕ))
    → NameAt user k b
    → has_colon (b ∷ line) ≡ true
    → All IsLine lines
    → ((l : Look) → Expects user l line lines → look user l bs ≡ expected user l line lines)
    → look user (name_next user k b) bs
      ≡ entry_or (behind (drop k user ++ 58 ∷ []) (b ∷ line)) (lookup user lines)
name_next-expected user k b bs line lines (inl (e, at_end)) colon good ih =
    elim (Bool-cases (b == 58)) [
      | inl e' ↦
          let same : (k == length user) ≡ true = (==_iff k (length user)).1 at_end in
          rw (e, e', same) (ih (in_hash []) tt)
      | inr e' ↦
          let past : leb (length user) k ≡ true = le→leb (length user) k (omega arith) in
          rw (e, e', past) (ih skipping good)
    ]
name_next-expected user k b bs line lines (inr (c, e, h, same, plain)) colon good ih =
    let before : leb (length user) k ≡ false = lt→leb_false (length user) k h in
    elim (Bool-cases (b == 58)) [
      | inl e' ↦
          let inside : (k == length user) ≡ false = ground arith in
          let differ : (b == c) ≡ false = ground arith in
          rw (e, e', inside, differ) (ih skipping good)
      | inr e' ↦ elim (Bool-cases (b == c)) [
        | inl e'' ↦
            rw (e, e', before, same, e'')
              (ih (at_login (suc k)) (h, or_false_right (b == 58) (has_colon line) colon e', good))
        | inr e'' ↦ rw (e, e', before, same, e'') (ih skipping good)
      ]
    ]

lookup_comment :
    (user line : List ℕ) (lines : List (List ℕ))
    → is_comment line ≡ true
    → lookup user (line ∷ lines) ≡ lookup user lines
lookup_comment user line lines e = simp (e, lookup, entry)

lookup_entry :
    (user line : List ℕ) (lines : List (List ℕ))
    → is_comment line ≡ false
    → lookup user (line ∷ lines) ≡ entry_or (behind (user ++ 58 ∷ []) line) (lookup user lines)
lookup_entry user line lines e = elim (Option-cases (behind (user ++ 58 ∷ []) line)) [
  | inl e' ↦ simp (e, e', lookup, entry)
  | inr (rest, e') ↦ simp (e, e', lookup, entry)
]

-- The first byte of a line.
first-expected :
    (user : List ℕ) (b : ℕ) (bs line : List ℕ) (lines : List (List ℕ))
    → has_colon user ≡ false
    → (b == 10) ≡ false
    → IsLine (b ∷ line)
    → All IsLine lines
    → ((l : Look) → Expects user l line lines → look user l bs ≡ expected user l line lines)
    → look user (login_next user 0 b) bs ≡ lookup user ((b ∷ line) ∷ lines)
first-expected user b bs line lines plain e is_line good ih =
    elim (Bool-cases (b == 35 || b == 13)) [
      | inl e' ↦ rw (lookup_comment user (b ∷ line) lines e', e') (ih skipping good)
      | inr e' ↦
          let colon : has_colon (b ∷ line) ≡ true =
            or_false_right (b == 35 || b == 13) (has_colon (b ∷ line)) is_line e' in
          rw (lookup_entry user (b ∷ line) lines e', e', e)
            (name_next-expected user 0 b bs line lines (name-NameAt user 0 b (omega arith) plain)
              colon good ih)
    ]

-- The look behind a byte that ends no line.
byte-expected :
    (user : List ℕ) (b : ℕ) (bs line : List ℕ) (lines : List (List ℕ))
    → has_colon user ≡ false
    → (b == 10) ≡ false
    → ((l : Look) → Expects user l line lines → look user l bs ≡ expected user l line lines)
    → (l : Look) → Expects user l (b ∷ line) lines
    → look user l (b ∷ bs) ≡ expected user l (b ∷ line) lines
unfolding look
byte-expected user b bs line lines plain e ih (at_login zero) (is_line, good) =
    first-expected user b bs line lines plain e is_line good ih
byte-expected user b bs line lines plain e ih (at_login (suc k)) (h, colon, good) =
    let nonzero : (suc k == 0) ≡ false = ground arith in
    let eq : login_next user (suc k) b ≡ name_next user (suc k) b = rw nonzero refl in
    ap (λ l. look user l bs) eq
    ∙ name_next-expected user (suc k) b bs line lines (name-NameAt user (suc k) b h plain) colon
        good ih
byte-expected user b bs line lines plain e ih (in_hash hash) h = elim (Bool-cases (is_hash_end b)) [
  | inl e' ↦
      rw (look_stop user (in_hash hash) b bs (rw e' refl), e') (ap some (sym (append-nil hash)))
  | inr e' ↦
      rw (look_go user (in_hash hash) (in_hash (hash ++ b ∷ [])) b bs (rw e' refl), e')
        (ih (in_hash (hash ++ b ∷ [])) tt ∙ ap some (append_assoc hash (b ∷ []) (hash_part line)))
]
byte-expected user b bs line lines plain e ih skipping good =
    rw (look_go user skipping skipping b bs (rw e refl)) (ih skipping good)

-- The look behind a line feed.
feed-expected :
    (user : List ℕ) (b : ℕ) (bs line : List ℕ) (lines : List (List ℕ))
    → (b == 10) ≡ true
    → ((l : Look) → Expects user l line lines → look user l bs ≡ expected user l line lines)
    → (l : Look) → Expects user l [] (line ∷ lines)
    → look user l (b ∷ bs) ≡ expected user l [] (line ∷ lines)
unfolding look
feed-expected user b bs line lines e ih (at_login zero) (_, good) =
    let plain : (b == 35 || b == 13) ≡ false = ground arith in rw (plain, e) (ih (at_login 0) good)
feed-expected user b bs line lines e ih (at_login (suc k)) (h, colon, good) = ground arith
feed-expected user b bs line lines e ih (in_hash hash) h =
    look_stop user (in_hash hash) b bs (rw e refl) ∙ ap some (sym (append-nil hash))
feed-expected user b bs line lines e ih skipping good =
    rw (look_go user skipping (at_login 0) b bs (rw e refl)) (ih (at_login 0) good)

end-expected :
    (user : List ℕ) (l : Look) → Expects user l [] [] → look user l [] ≡ expected user l [] []
unfolding look
end-expected user (at_login zero) h = refl
end-expected user (at_login (suc k)) (_, colon, _) = ground arith
end-expected user (in_hash hash) h = ap some (sym (append-nil hash))
end-expected user skipping h = refl

look-expected :
    (user : List ℕ)
    → has_colon user ≡ false
    → (file : List ℕ) (l : Look) → Expects user l (split_lines file).0 (split_lines file).1
    → look user l file ≡ expected user l (split_lines file).0 (split_lines file).1
look-expected user plain [] l = end-expected user l
look-expected user plain (b ∷ bs) l =
    let line = (split_lines bs).0 in
    let lines = (split_lines bs).1 in
    let ih : (l : Look) → Expects user l line lines → look user l bs ≡ expected user l line lines =
      look-expected user plain bs in
    elim (Bool-cases (b == 10)) [
      | inl e ↦ rw e (feed-expected user b bs line lines e ih l)
      | inr e ↦ rw e (byte-expected user b bs line lines plain e ih l)
    ]

-- From the start of a file whose lines are all well-formed, a look finds the user's first entry.
pub look-lookup :
    (user file : List ℕ)
    → has_colon user ≡ false
    → All IsLine (lines_of file)
    → look user (at_login 0) file ≡ lookup user (lines_of file)
look-lookup user file plain good = look-expected user plain file (at_login 0) good
