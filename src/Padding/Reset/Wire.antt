-- ===== src/Padding/Reset/Wire.antt =====
-- The DATA frame in front of a reset (src/padding.c) as HTTP/2 reads it.
use ngx_http_tunnel_module.Common.{
  ℕ, ◌+◌, ◌-◌, ◌*◌, ◌/◌, ◌%◌, ◌^◌, ◌≤◌, true, Option, none, some, List, [], ◌∷◌, ◌++◌, length, take,
  replicate, ◌==◌, if◌then◌else◌, bit_or, ◌≡◌, refl, arith, length-replicate, leb, le→leb, ==_iff,
}
use ngx_http_tunnel_module.Padding.Reset.{Http2, frame_size, frame_bytes}

-- A frame: its type, its flags, the four bytes of its stream and its payload.
pub record Parsed : Type 0 where
  pub kind : ℕ
  pub flags : ℕ
  pub stream : List ℕ
  pub payload : List ℕ

-- The frame that a list of bytes is, and is no more than.
abbrev pub parse_frame : List ℕ → Option Parsed
parse_frame (a ∷ b ∷ c ∷ kind ∷ flags ∷ s ∷ t ∷ u ∷ v ∷ payload) =
    if length payload == a * 65536 + b * 256 + c
    then some
        (record { kind = kind; flags = flags; stream = s ∷ t ∷ u ∷ v ∷ []; payload = payload })
    else none
parse_frame _ = none

-- The data in a payload whose first byte is the size of the padding at its end.
abbrev pub padded_data : List ℕ → Option (List ℕ)
padded_data [] = none
padded_data (size ∷ rest) =
    if leb size (length rest) then some (take (length rest - size) rest) else none

-- nginx's HTTP/2 writes what RFC 9113 says, and its constants are those.
pub record IsHttp2 (h2 : Http2) : Type 0 where
  pub header : h2.frame_header_size ≡ 9
  pub data_frame : h2.data_frame ≡ 0
  pub flags : bit_or h2.end_stream_flag h2.padded_flag ≡ 9
  pub len_and_type :
      (size kind : ℕ)
      → h2.len_and_type size kind ≡ size / 65536 % 256 ∷ size / 256 % 256 ∷ size % 256 ∷ kind ∷ []
  pub sid : (id : ℕ) → (s t u v : ℕ) × (h2.sid id ≡ s ∷ t ∷ u ∷ v ∷ [])

size_bounds : (h2 : Http2) → IsHttp2 h2 → (39 ≤ frame_size h2) × (frame_size h2 ≤ 63)
size_bounds h2 lawful = (omega (arith, lawful.header), omega (arith, lawful.header))

-- The frame, in HTTP/2's own terms: DATA that ends the stream and is padding only.
abbrev pub IsPaddingOnly : Http2 → ℕ → List ℕ → Type 0
IsPaddingOnly h2 id bytes =
    (payload : List ℕ) × (parse_frame bytes
      ≡ some (record { kind = 0; flags = 9; stream = h2.sid id; payload = payload }))
    × (padded_data payload ≡ some [])
    × (48 ≤ length bytes)
    × (length bytes ≤ 72)

parses :
    (a b c n s t u v : ℕ) (stream : List ℕ)
    → stream ≡ s ∷ t ∷ u ∷ v ∷ []
    → n + 1 ≡ a * 65536 + b * 256 + c
    → parse_frame ((a ∷ b ∷ c ∷ 0 ∷ []) ++ 9 ∷ (stream ++ n ∷ replicate n 0))
      ≡ some (record { kind = 0; flags = 9; stream = stream; payload = n ∷ replicate n 0 })
parses a b c n s t u v stream e e' =
    let len : length (n ∷ replicate n 0) ≡ a * 65536 + b * 256 + c =
      omega (arith, length-replicate {A = ℕ} n 0) in
    let test : (length (n ∷ replicate n 0) == a * 65536 + b * 256 + c) ≡ true =
      (==_iff _ _).1 len in
    rw (e, test) refl

padding_only : (n : ℕ) → padded_data (n ∷ replicate n 0) ≡ some []
padding_only n =
    let len = length-replicate {A = ℕ} n 0 in
    let fits : leb n (length (replicate {A = ℕ} n 0)) ≡ true =
      le→leb n (length (replicate {A = ℕ} n 0)) (omega (arith, len)) in
    let none_left : length (replicate {A = ℕ} n 0) - n ≡ 0 = omega (arith, len) in
    rw (fits, none_left) refl

tail_length :
    (n s t u v : ℕ) (stream : List ℕ)
    → stream ≡ s ∷ t ∷ u ∷ v ∷ []
    → length (stream ++ n ∷ replicate n 0) ≡ n + 5
tail_length n s t u v stream e = rw e (omega (arith, length-replicate {A = ℕ} n 0))

-- The frame that is queued, its header included.
pub frame_bytes-IsPaddingOnly :
    (h2 : Http2) → IsHttp2 h2 → (id : ℕ) → IsPaddingOnly h2 id (frame_bytes h2 id (frame_size h2))
unfolding frame_bytes
frame_bytes-IsPaddingOnly h2 lawful id =
    let n = frame_size h2 in
    let (low, high) = size_bounds h2 lawful in
    let (s, t, u, v, e) = lawful.sid id in
    let fits : (n - 1) % 2 ^ 8 ≡ n - 1 = omega arith in
    rw (lawful.len_and_type n h2.data_frame, lawful.data_frame, lawful.flags, fits)
      (
        (n - 1) ∷ replicate (n - 1) 0,
        parses (n / 65536 % 256) (n / 256 % 256) (n % 256) (n - 1) s t u v (h2.sid id) e
            (omega arith),
        padding_only (n - 1),
        omega (arith, tail_length (n - 1) s t u v (h2.sid id) e),
        omega (arith, tail_length (n - 1) s t u v (h2.sid id) e),
      )

pub length-frame_bytes :
    (h2 : Http2)
    → IsHttp2 h2
    → (id : ℕ) → length (frame_bytes h2 id (frame_size h2)) ≡ 9 + frame_size h2
unfolding frame_bytes
length-frame_bytes h2 lawful id =
    let n = frame_size h2 in
    let (low, high) = size_bounds h2 lawful in
    let (s, t, u, v, e) = lawful.sid id in
    let fits : (n - 1) % 2 ^ 8 ≡ n - 1 = omega arith in
    rw (lawful.len_and_type n h2.data_frame, fits)
      (omega (arith, tail_length (n - 1) s t u v (h2.sid id) e))
