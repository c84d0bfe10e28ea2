-- ===== src/Proxy/Framing.antt =====
-- `onRelayRead` of addons/activeproxy/connection.cc: how the bytes that a relay server sends are cut
-- into packets. A packet begins with its size in two bytes, most significant first, and the bytes of
-- a packet that is not complete wait in `stickyBuffer`. Processing a packet does not touch the
-- buffer, so the packets of one read are listed, in the order in which they are processed.
pub mod Chunks
pub mod Reads
pub mod Sticky
pub mod Stuck
use elastos_carrier_native.Prelude.{
  ℕ, zero, suc, ◌+◌, ◌-◌, ◌*◌, ◌≤◌, ◌<◌, ◌≡◌, Bool, true, false, ◌&&◌, ltb, ◌==◌, if◌then◌else◌,
  Option, none, some, List, [], ◌∷◌, ◌++◌, length, take, drop, flatten, ◌⊎◌, All,
}
use elastos_carrier_native.Id.{byte_at}

abbrev pub packet_header_bytes : ℕ
packet_header_bytes = 3

-- `ntohs(*(uint16_t *)ptr)`.
abbrev pub packet_size : List ℕ → ℕ
packet_size bytes = byte_at bytes 0 * 256 + byte_at bytes 1

-- What `processRelayPacket` reads at a packet: the packet, and its type also where the size field says
-- 1 or 2. The loop goes on with at least `packet_header_bytes` bytes, so that the type is then a byte
-- of the next packet.
abbrev pub packet_view : List ℕ → List ℕ
packet_view bytes =
    let seen =
      if ltb (packet_size bytes) packet_header_bytes
      then packet_header_bytes
      else packet_size bytes in
    take seen bytes

-- What a read leaves: the packets as they are read, and the new buffer.
abbrev pub Frames : Type 0
Frames = List (List ℕ) × List ℕ

-- The last loop. `none`: the rounds ran out.
unfoldable pub frame_loop : ℕ → List ℕ → Option Frames
frame_loop zero bytes = none
frame_loop (suc rounds) bytes = elim (length bytes == 0) [
  | true ↦ some ([], [])
  | false ↦ elim (ltb (length bytes) packet_header_bytes) [
    | true ↦ some ([], bytes)
    | false ↦ elim (ltb (length bytes) (packet_size bytes)) [
      | true ↦ some ([], bytes)
      | false ↦ elim (frame_loop rounds (drop (packet_size bytes) bytes)) [
        | none ↦ none
        | some (packets, sticky) ↦ some (packet_view bytes ∷ packets, sticky)
      ]
    ]
  ]
]

-- The part behind the header: the buffer holds `packet_header_bytes` bytes at least. `rs` is an
-- `int`; a negative one is converted to a `size_t` that is larger than any `remaining`.
unfoldable pub complete_sticky : ℕ → List ℕ → List ℕ → Option Frames
unfolding frame_loop
complete_sticky rounds sticky bytes =
    let rs = packet_size sticky - length sticky in
    elim (ltb (packet_size sticky) (length sticky)) [
      | true ↦ some ([], sticky ++ bytes)
      | false ↦ elim (ltb (length bytes) rs) [
        | true ↦ some ([], sticky ++ bytes)
        | false ↦ elim (frame_loop rounds (drop rs bytes)) [
          | none ↦ none
          | some (packets, rest) ↦ some ((sticky ++ take rs bytes) ∷ packets, rest)
        ]
      ]
    ]

unfoldable pub frame_read : ℕ → List ℕ → List ℕ → Option Frames
unfolding complete_sticky
frame_read rounds sticky bytes = elim (length sticky == 0) [
  | true ↦ frame_loop rounds bytes
  | false ↦ elim (ltb (length sticky) packet_header_bytes) [
    | false ↦ complete_sticky rounds sticky bytes
    | true ↦
        let rs = packet_header_bytes - length sticky in
        elim (ltb (length bytes) rs) [
          | true ↦ some ([], sticky ++ bytes)
          | false ↦ complete_sticky rounds (sticky ++ take rs bytes) (drop rs bytes)
        ]
  ]
]

-- The bytes come in chunks, each read at once; a round for each byte and one more.
unfoldable pub receive : List ℕ → List (List ℕ) → Option Frames
receive sticky [] = some ([], sticky)
receive sticky (chunk ∷ chunks) = elim (frame_read (suc (length chunk)) sticky chunk) [
  | none ↦ none
  | some (packets, sticky') ↦ elim (receive sticky' chunks) [
    | none ↦ none
    | some (more, last) ↦ some (packets ++ more, last)
  ]
]

-- A packet whose size field is right.
pub record IsPacket (bytes : List ℕ) : Type 0 where
  pub header : packet_header_bytes ≤ length bytes
  pub sized : packet_size bytes ≡ length bytes

-- The beginning of a packet, which is not complete.
abbrev pub IsPartial : List ℕ → Type 0
IsPartial bytes = (length bytes < packet_header_bytes) ⊎ (length bytes < packet_size bytes)
