-- ===== src/Tests/Packets.antt =====
-- Laws of the active proxy's packets at concrete inputs.
use elastos_carrier_native.Prelude.{ℕ, ◌-◌, ◌<◌, ◌≡◌, refl, none, some, List, [], ◌∷◌, inl, arith}
use elastos_carrier_native.Proxy.PacketType.{disconnect_ack, value, value_of}
use elastos_carrier_native.Proxy.PacketType.RoundTrip.{value_of-value, received}
use elastos_carrier_native.Proxy.Framing.{frame_loop, receive, IsPacket}
use elastos_carrier_native.Proxy.Framing.Sticky.{receive-packets}
use elastos_carrier_native.Proxy.Framing.Stuck.{frame_loop-none}

-- A generator that yields the largest value.
abbrev largest : ℕ → ℕ
largest bound = bound - 1

largest-bounded : (bound : ℕ) → 0 < bound → largest bound < bound
largest-bounded bound h = omega arith

value_of-value_example : value_of (value largest disconnect_ack) ≡ received disconnect_ack
value_of-value_example = value_of-value largest disconnect_ack largest-bounded

-- Two packets and the beginning of a third, in three reads; the first read ends within a header.
abbrev small : List ℕ
small = 0 ∷ 4 ∷ 16 ∷ 9 ∷ []

abbrev large : List ℕ
large = 0 ∷ 5 ∷ 64 ∷ 1 ∷ 2 ∷ []

small-IsPacket : IsPacket small
small-IsPacket = record { header = omega arith; sized = refl }

large-IsPacket : IsPacket large
large-IsPacket = record { header = omega arith; sized = refl }

receive-packets_example :
    receive [] ((0 ∷ 4 ∷ []) ∷ (16 ∷ 9 ∷ 0 ∷ 5 ∷ 64 ∷ 1 ∷ []) ∷ (2 ∷ 0 ∷ []) ∷ [])
    ≡ some (small ∷ large ∷ [], 0 ∷ [])
receive-packets_example =
    receive-packets (small ∷ large ∷ []) (0 ∷ [])
      ((0 ∷ 4 ∷ []) ∷ (16 ∷ 9 ∷ 0 ∷ 5 ∷ 64 ∷ 1 ∷ []) ∷ (2 ∷ 0 ∷ []) ∷ [])
      (small-IsPacket, (large-IsPacket, tt)) (inl (omega arith)) refl

frame_loop-none_example : frame_loop 8 (0 ∷ 0 ∷ 0 ∷ []) ≡ none
frame_loop-none_example = frame_loop-none 8 (0 ∷ 0 ∷ 0 ∷ []) (omega arith) refl
