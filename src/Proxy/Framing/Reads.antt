-- ===== src/Proxy/Framing/Reads.antt =====
-- `onRelayRead` on the beginning of a packet, and on the rest of one.
use elastos_carrier_native.Prelude.{
  ℕ, suc, ◌-◌, ◌≤◌, ◌≡◌, ap, ap₂, ◌∙◌, true, false, ltb, ◌==◌, lt→ltb, Option, some, List, [], ◌++◌,
  length, take, drop, inl, inr, length-append, append_assoc, take-drop, length-take,
  take-append_within, drop-append_within, Bool-cases, arith,
}
use elastos_carrier_native.Proxy.Framing.{
  packet_header_bytes, packet_size, Frames, frame_loop, complete_sticky, frame_read, IsPacket,
  IsPartial,
}
use elastos_carrier_native.Proxy.Framing.Chunks.{
  packet_size-append, length_zero, frame_loop-IsPartial, take_exactly, drop_exactly, cons_frame,
}

complete_sticky-IsPartial :
    (rounds : ℕ) (s c : List ℕ)
    → packet_header_bytes ≤ length s
    → IsPartial (s ++ c)
    → complete_sticky rounds s c ≡ some ([], s ++ c)
unfolding complete_sticky
complete_sticky-IsPartial rounds s c h part = elim (Bool-cases (ltb (packet_size s) (length s))) [
  | inl under ↦ rw (under, complete_sticky)
  | inr over ↦ rw (over, waits part, complete_sticky)
]
  where
    waits : IsPartial (s ++ c) → ltb (length c) (packet_size s - length s) ≡ true
    waits (inl short) = absurd (omega (arith, length-append s c))
    waits (inr open_end) =
        lt→ltb _ _ (omega (arith, length-append s c, packet_size-append s c (omega arith)))

complete_sticky-IsPacket :
    (rounds : ℕ) (s q rest : List ℕ)
    → packet_header_bytes ≤ length s
    → IsPacket (s ++ q)
    → complete_sticky rounds s (q ++ rest) ≡ cons_frame (s ++ q) (frame_loop rounds rest)
unfolding complete_sticky
complete_sticky-IsPacket rounds s q rest h ok =
    let sized = packet_size-append s q (omega arith) in
    let missing : packet_size s - length s ≡ length q =
      omega (arith, ok.sized, length-append s q, sized) in
    let over : ltb (packet_size s) (length s) ≡ false =
      ground (arith, ok.sized, length-append s q, sized) in
    let there : ltb (length (q ++ rest)) (packet_size s - length s) ≡ false =
      ground (arith, missing, length-append q rest) in
    rw (over, there, complete_sticky)
      (ap₂ (λ a b. cons_frame (s ++ a) (frame_loop rounds b)) (take_exactly q rest _ missing)
        (drop_exactly q rest _ missing))

-- A read that does not complete a packet.
pub frame_read-IsPartial :
    (rounds : ℕ) (s c : List ℕ)
    → IsPartial (s ++ c)
    → frame_read (suc rounds) s c ≡ some ([], s ++ c)
unfolding frame_read
frame_read-IsPartial rounds s c part = elim (Bool-cases (length s == 0)) [
  | inl empty ↦ let e = length_zero s empty in rw e (frame_loop-IsPartial rounds c (rw e at part))
  | inr full ↦ elim (Bool-cases (ltb (length s) packet_header_bytes)) [
    | inr long ↦
        rw (full, long, frame_read)
          (complete_sticky-IsPartial (suc rounds) s c (ground (arith, long)) part)
    | inl short ↦ elim (Bool-cases (ltb (length c) (packet_header_bytes - length s))) [
      | inl few ↦ rw (full, short, few, frame_read)
      | inr more ↦
          let n : ℕ = packet_header_bytes - length s in
          let whole : (s ++ take n c) ++ drop n c ≡ s ++ c =
            append_assoc s (take n c) (drop n c) ∙ ap (λ r. s ++ r) (take-drop n c) in
          let header : packet_header_bytes ≤ length (s ++ take n c) =
            ground (arith, length-append s (take n c), length-take n c, more) in
          rw (full, short, more, frame_read)
            (complete_sticky-IsPartial (suc rounds) (s ++ take n c) (drop n c) header
                (rw whole part)
              ∙ ap (λ (r : List ℕ). let found : Option Frames = some ([], r) in found) whole)
    ]
  ]
]

-- A read that completes the packet of which the buffer has the beginning.
pub frame_read-IsPacket :
    (rounds : ℕ) (s q rest : List ℕ)
    → (length s == 0) ≡ false
    → IsPacket (s ++ q)
    → frame_read rounds s (q ++ rest) ≡ cons_frame (s ++ q) (frame_loop rounds rest)
unfolding frame_read
frame_read-IsPacket rounds s q rest full ok =
    elim (Bool-cases (ltb (length s) packet_header_bytes)) [
      | inr long ↦
          rw (full, long, frame_read)
            (complete_sticky-IsPacket rounds s q rest (ground (arith, long)) ok)
      | inl short ↦
          let n : ℕ = packet_header_bytes - length s in
          let inside : n ≤ length q = ground (arith, ok.header, length-append s q, short) in
          let there : ltb (length (q ++ rest)) n ≡ false =
            ground (arith, inside, length-append q rest) in
          let whole : (s ++ take n q) ++ drop n q ≡ s ++ q =
            append_assoc s (take n q) (drop n q) ∙ ap (λ r. s ++ r) (take-drop n q) in
          let header : packet_header_bytes ≤ length (s ++ take n q) =
            ground (arith, length-append s (take n q), length-take n q, inside) in
          rw
            (
              full,
              short,
              there,
              take-append_within n q rest inside,
              drop-append_within n q rest inside,
              frame_read,
            )
            (complete_sticky-IsPacket rounds (s ++ take n q) (drop n q) rest header (rw whole ok)
              ∙ ap (λ p. cons_frame p (frame_loop rounds rest)) whole)
    ]
