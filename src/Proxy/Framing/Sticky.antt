-- ===== src/Proxy/Framing/Sticky.antt =====
-- How the packets of a stream depend on the reads in which its bytes come.
use elastos_carrier_native.Prelude.{
  ℕ, zero, suc, ◌≤◌, ◌<◌, ◌≡◌, refl, sym, ap, ◌∙◌, false, ◌==◌, Option, some, List, [], ◌∷◌, ◌++◌,
  length, flatten, inl, inr, All, length-append, append_assoc, append-nil, cut, dec_lt, arith,
}
use elastos_carrier_native.Proxy.Framing.{
  Frames, frame_loop, frame_read, receive, IsPacket, IsPartial,
}
use elastos_carrier_native.Proxy.Framing.Chunks.{
  IsPartial-prefix, IsPacket-prefix, frame_loop-IsPartial, frame_loop-IsPacket, cons_frame,
}
use elastos_carrier_native.Proxy.Framing.Reads.{frame_read-IsPartial, frame_read-IsPacket}

-- What is left of a stream after the first bytes of it: the packets that they complete, and the
-- beginning of the next.
record Splits (ps : List (List ℕ)) (t y : List ℕ) (r : Option Frames) : Type 0 where
  done : List (List ℕ)
  ahead : List (List ℕ)
  sticky : List ℕ
  result : r ≡ some (done, sticky)
  packets : ps ≡ done ++ ahead
  waiting : IsPartial sticky
  tail : sticky ++ y ≡ flatten ahead ++ t

Splits-none :
    (ps : List (List ℕ)) (t x y : List ℕ) (r : Option Frames)
    → r ≡ some ([], x)
    → IsPartial x
    → x ++ y ≡ flatten ps ++ t
    → Splits ps t y r
Splits-none ps t x y r e part stream = record {
  done = [];
  ahead = ps;
  sticky = x;
  result = e;
  packets = refl;
  waiting = part;
  tail = stream;
}

Splits-cons :
    (p : List ℕ) (ps : List (List ℕ)) (t y : List ℕ) (r : Option Frames)
    → Splits ps t y r
    → Splits (p ∷ ps) t y (cons_frame p r)
Splits-cons p ps t y r h = record {
  done = p ∷ h.done;
  ahead = h.ahead;
  sticky = h.sticky;
  result = ap (cons_frame p) h.result;
  packets = ap (λ rest. p ∷ rest) h.packets;
  waiting = h.waiting;
  tail = h.tail;
}

frame_loop-Splits :
    (rounds : ℕ) (ps : List (List ℕ)) (t x y : List ℕ)
    → All IsPacket ps
    → IsPartial t
    → x ++ y ≡ flatten ps ++ t
    → length x < rounds
    → Splits ps t y (frame_loop rounds x)
frame_loop-Splits zero ps t x y ok part stream enough = absurd (omega arith)
frame_loop-Splits (suc rounds) [] t x y ok part stream enough =
    let waiting = IsPartial-prefix x y (rw stream part) in
    Splits-none [] t x y _ (frame_loop-IsPartial rounds x waiting) waiting stream
frame_loop-Splits (suc rounds) (p ∷ ps) t x y ok part stream enough =
    let whole : x ++ y ≡ p ++ (flatten ps ++ t) = stream ∙ append_assoc p (flatten ps) t in
    elim (dec_lt (length x) (length p)) [
      | yes short ↦
          let (more, e, rest) = cut x y p (flatten ps ++ t) whole (omega arith) in
          let waiting = IsPacket-prefix x more (rw e at ok.0) (rw e at short) in
          Splits-none (p ∷ ps) t x y _ (frame_loop-IsPartial rounds x waiting) waiting stream
      | no long ↦
          let (more, e, rest) = cut p (flatten ps ++ t) x y (sym whole) (omega arith) in
          let size = length-append p more in
          rw (e, frame_loop-IsPacket rounds p more ok.0)
            (Splits-cons p ps t y _ (
              frame_loop-Splits rounds ps t more y ok.1 part (sym rest)
                (omega (arith, (ok.0).header, ap length e, size))))
    ]

-- A packet is complete.
not_both : (p w : List ℕ) → IsPacket p → ¬ IsPartial (p ++ w)
not_both p w ok part = clash (IsPartial-prefix p w part)
  where
    clash : ¬ IsPartial p
    clash (inl short) = absurd (omega (arith, ok.header))
    clash (inr open_end) = absurd (omega (arith, ok.sized))

-- The bytes that wait do not reach behind the first packet.
within_packet :
    (s p more c : List ℕ) → IsPartial s → IsPacket p → s ++ c ≡ p ++ more → length s ≤ length p
within_packet s p more c before ok e = elim (dec_lt (length p) (length s)) [
  | no inside ↦ omega arith
  | yes beyond ↦
      let (w, longer, rest) = cut p more s c (sym e) (omega arith) in
      absurd (not_both p w ok (rw longer at before))
]

-- The read that begins with the rest of a packet.
frame_read-Splits_full :
    (rounds : ℕ) (ps : List (List ℕ)) (t s c y : List ℕ)
    → All IsPacket ps
    → IsPartial t
    → IsPartial s
    → (length s == 0) ≡ false
    → (s ++ c) ++ y ≡ flatten ps ++ t
    → length c < suc rounds
    → Splits ps t y (frame_read (suc rounds) s c)
frame_read-Splits_full rounds [] t s c y ok part before full stream enough =
    let waiting = IsPartial-prefix (s ++ c) y (rw stream part) in
    Splits-none [] t (s ++ c) y _ (frame_read-IsPartial rounds s c waiting) waiting stream
frame_read-Splits_full rounds (p ∷ ps) t s c y ok part before full stream enough =
    let whole : (s ++ c) ++ y ≡ p ++ (flatten ps ++ t) = stream ∙ append_assoc p (flatten ps) t in
    elim (dec_lt (length (s ++ c)) (length p)) [
      | yes short ↦
          let (more, e, rest) = cut (s ++ c) y p (flatten ps ++ t) whole (omega arith) in
          let waiting = IsPacket-prefix (s ++ c) more (rw e at ok.0) (rw e at short) in
          Splits-none (p ∷ ps) t (s ++ c) y _ (frame_read-IsPartial rounds s c waiting) waiting
            stream
      | no long ↦
          let (more, e, rest) = cut p (flatten ps ++ t) (s ++ c) y (sym whole) (omega arith) in
          let (q, begun, left) = cut s c p more e (within_packet s p more c before ok.0 e) in
          let first : IsPacket (s ++ q) = rw begun at ok.0 in
          let size = length-append q more in
          rw (left, begun, frame_read-IsPacket (suc rounds) s q more full first)
            (Splits-cons (s ++ q) ps t y _ (
              frame_loop-Splits (suc rounds) ps t more y ok.1 part (sym rest)
                (omega (arith, ap length left, size))))
    ]

frame_read-Splits :
    (rounds : ℕ) (ps : List (List ℕ)) (t s c y : List ℕ)
    → All IsPacket ps
    → IsPartial t
    → IsPartial s
    → (s ++ c) ++ y ≡ flatten ps ++ t
    → length c < suc rounds
    → Splits ps t y (frame_read (suc rounds) s c)
unfolding frame_read
frame_read-Splits rounds ps t [] c y ok part before stream enough =
    frame_loop-Splits (suc rounds) ps t c y ok part stream enough
frame_read-Splits rounds ps t (b ∷ s) c y ok part before stream enough =
    frame_read-Splits_full rounds ps t (b ∷ s) c y ok part before (ground arith) stream enough

All-behind : (xs ys : List (List ℕ)) → All IsPacket (xs ++ ys) → All IsPacket ys
All-behind [] ys h = h
All-behind (x ∷ xs) ys h = All-behind xs ys h.1

receive-chunk :
    (s c : List ℕ) (chunks : List (List ℕ)) (now sticky : List ℕ) (done more : List (List ℕ))
    → frame_read (suc (length c)) s c ≡ some (done, sticky)
    → receive sticky chunks ≡ some (more, now)
    → receive s (c ∷ chunks) ≡ some (done ++ more, now)
unfolding receive
receive-chunk s c chunks now sticky done more first rest = rw (first, rest, receive) refl

-- `receive` on what is left of a stream.
receive-packets_from :
    (ps : List (List ℕ)) (t s : List ℕ) (chunks : List (List ℕ))
    → All IsPacket ps
    → IsPartial t
    → IsPartial s
    → s ++ flatten chunks ≡ flatten ps ++ t
    → receive s chunks ≡ some (ps, t)
unfolding receive
receive-packets_from [] t s [] ok part before stream =
    let found : List ℕ → Option Frames = λ (r : List ℕ). some ([], r) in
    ap found (sym (append-nil s) ∙ stream)
receive-packets_from (p ∷ ps) t s [] ok part before stream =
    let whole = sym (append_assoc p (flatten ps) t) ∙ sym stream ∙ append-nil s in
    absurd (not_both p (flatten ps ++ t) ok.0 (rw (sym whole) at before))
receive-packets_from ps t s (c ∷ chunks) ok part before stream =
    let r =
      frame_read-Splits (length c) ps t s c (flatten chunks) ok part before
        (append_assoc s c (flatten chunks) ∙ stream) (omega arith) in
    let rest =
      receive-packets_from r.ahead t r.sticky chunks
        (All-behind r.done r.ahead (rw r.packets at ok)) part r.waiting r.tail in
    let found : List (List ℕ) → Option Frames = λ (done : List (List ℕ)). some (done, t) in
    receive-chunk s c chunks t r.sticky r.done r.ahead r.result rest ∙ ap found (sym r.packets)

-- The packets that `onRelayRead` hands on do not depend on how their bytes are cut into reads: if
-- the reads together are complete packets and then a beginning of one, it hands on these packets
-- in order and keeps that beginning. A packet has its header and a right size field.
pub receive-packets :
    (ps : List (List ℕ)) (t : List ℕ) (chunks : List (List ℕ))
    → All IsPacket ps
    → IsPartial t
    → flatten chunks ≡ flatten ps ++ t
    → receive [] chunks ≡ some (ps, t)
receive-packets ps t chunks ok part stream =
    receive-packets_from ps t [] chunks ok part (inl (omega arith)) stream
