-- ===== src/Proxy/Framing/Stuck.antt =====
-- A packet that claims size 0.
use elastos_carrier_native.Prelude.{
  ℕ, zero, suc, ◌≤◌, ◌≡◌, refl, false, ltb, ◌==◌, none, List, length, arith,
}
use elastos_carrier_native.Proxy.Framing.{packet_header_bytes, packet_size, frame_loop}

-- The loop of `onRelayRead` ends within no number of rounds when a packet with a header claims the
-- size 0.
pub frame_loop-none :
    (rounds : ℕ) (bytes : List ℕ)
    → packet_header_bytes ≤ length bytes
    → packet_size bytes ≡ 0
    → frame_loop rounds bytes ≡ none
unfolding frame_loop
frame_loop-none zero bytes h e = refl
frame_loop-none (suc rounds) bytes h e =
    let some_bytes : (length bytes == 0) ≡ false = ground arith in
    let header : ltb (length bytes) packet_header_bytes ≡ false = ground arith in
    let fits : ltb (length bytes) (packet_size bytes) ≡ false = ground (arith, e) in
    rw (some_bytes, header, fits, e, frame_loop-none rounds bytes h e, frame_loop)
