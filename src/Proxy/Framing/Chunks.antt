-- ===== src/Proxy/Framing/Chunks.antt =====
-- The last loop of `onRelayRead`, at a packet and at the beginning of one.
use elastos_carrier_native.Prelude.{
  ℕ, suc, ◌+◌, ◌≤◌, ◌<◌, ◌≡◌, refl, ap, ap₂, ◌∙◌, true, false, ltb, ◌==◌, lt→ltb, Option, none,
  some, List, [], ◌∷◌, ◌++◌, length, take, drop, inl, inr, length-append, append-nil, take-append,
  drop-append, dec_lt, Bool-cases, arith,
}
use elastos_carrier_native.Proxy.Framing.{
  packet_header_bytes, packet_size, packet_view, Frames, frame_loop, IsPacket, IsPartial,
}

pub packet_size-append : (s y : List ℕ) → 2 ≤ length s → packet_size (s ++ y) ≡ packet_size s
packet_size-append [] y h = absurd (omega arith)
packet_size-append (a ∷ []) y h = absurd (omega arith)
packet_size-append (a ∷ b ∷ s) y h = refl

-- The beginning of what is not complete is not complete.
pub IsPartial-prefix : (x y : List ℕ) → IsPartial (x ++ y) → IsPartial x
IsPartial-prefix x y h = elim (dec_lt (length x) packet_header_bytes) [
  | yes short ↦ inl short
  | no long ↦ inr (waits long h)
]
  where
    waits : ¬ (length x < packet_header_bytes) → IsPartial (x ++ y) → length x < packet_size x
    waits long (inl short) = absurd (omega (arith, length-append x y))
    waits long (inr open_end) =
        omega (arith, length-append x y, packet_size-append x y (omega arith))

-- So is a beginning of a packet that is shorter.
pub IsPacket-prefix : (x y : List ℕ) → IsPacket (x ++ y) → length x < length (x ++ y) → IsPartial x
IsPacket-prefix x y h less = elim (dec_lt (length x) packet_header_bytes) [
  | yes short ↦ inl short
  | no long ↦ inr (omega (arith, h.sized, packet_size-append x y (omega arith)))
]

pub length_zero : (x : List ℕ) → (length x == 0) ≡ true → x ≡ []
length_zero [] h = refl
length_zero (a ∷ x) h = absurd (ground arith)

pub frame_loop-IsPartial :
    (rounds : ℕ) (x : List ℕ) → IsPartial x → frame_loop (suc rounds) x ≡ some ([], x)
unfolding frame_loop
frame_loop-IsPartial rounds x h = elim (Bool-cases (length x == 0)) [
  | inl empty ↦ rw (length_zero x empty) refl
  | inr full ↦ elim (Bool-cases (ltb (length x) packet_header_bytes)) [
    | inl short ↦ rw (full, short, frame_loop)
    | inr long ↦ rw (full, long, waits long h, frame_loop)
  ]
]
  where
    waits :
        ltb (length x) packet_header_bytes ≡ false
        → IsPartial x
        → ltb (length x) (packet_size x) ≡ true
    waits long (inl short) = absurd (ground arith)
    waits long (inr open_end) = lt→ltb _ _ open_end

-- The frames with one packet before them.
abbrev pub cons_frame : List ℕ → Option Frames → Option Frames
cons_frame p r = elim r [ none ↦ none | some (packets, sticky) ↦ some (p ∷ packets, sticky) ]

pub take_exactly : (x y : List ℕ) (n : ℕ) → n ≡ length x → take n (x ++ y) ≡ x
take_exactly x y n e =
    let more : n ≡ length x + 0 = omega arith in
    ap (λ k. take k (x ++ y)) more ∙ take-append x y 0 ∙ append-nil x

pub drop_exactly : (x y : List ℕ) (n : ℕ) → n ≡ length x → drop n (x ++ y) ≡ y
drop_exactly x y n e =
    let more : n ≡ length x + 0 = omega arith in ap (λ k. drop k (x ++ y)) more ∙ drop-append x y 0

packet_view-IsPacket :
    (p rest : List ℕ)
    → IsPacket p
    → packet_size (p ++ rest) ≡ length p
    → packet_view (p ++ rest) ≡ p
packet_view-IsPacket p rest h size =
    let whole : ltb (packet_size (p ++ rest)) packet_header_bytes ≡ false =
      ground (arith, size, h.header) in
    rw whole (take_exactly p rest _ size)

pub frame_loop-IsPacket :
    (rounds : ℕ) (p rest : List ℕ)
    → IsPacket p
    → frame_loop (suc rounds) (p ++ rest) ≡ cons_frame p (frame_loop rounds rest)
unfolding frame_loop
frame_loop-IsPacket rounds p rest h =
    let total = length-append p rest in
    let size : packet_size (p ++ rest) ≡ length p =
      packet_size-append p rest (omega (arith, h.header)) ∙ h.sized in
    let full : (length (p ++ rest) == 0) ≡ false = ground (arith, h.header) in
    let long : ltb (length (p ++ rest)) packet_header_bytes ≡ false = ground (arith, h.header) in
    let complete : ltb (length (p ++ rest)) (packet_size (p ++ rest)) ≡ false =
      ground (arith, size) in
    rw (full, long, complete, frame_loop)
      (ap₂ (λ a b. cons_frame a (frame_loop rounds b)) (packet_view-IsPacket p rest h size)
        (drop_exactly p rest _ size))
