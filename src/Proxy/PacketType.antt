-- ===== src/Proxy/PacketType.antt =====
-- addons/activeproxy/packettype.h: the type byte of a packet. A type has a range of bytes, of which
-- a random one is sent; bit 0x80 says that the packet is an acknowledgement.
pub mod RoundTrip
use elastos_carrier_native.Prelude.{
  ℕ, ◌+◌, ◌-◌, ◌/◌, ◌^◌, bit_and, bit_or, Bool, true, false, leb, ◌==◌, not, if◌then◌else◌, Option,
  none, some,
}

pub data PacketType : Type 0 where
  auth : PacketType
  auth_ack : PacketType
  attach : PacketType
  attach_ack : PacketType
  ping : PacketType
  ping_ack : PacketType
  connect : PacketType
  connect_ack : PacketType
  disconnect : PacketType
  disconnect_ack : PacketType
  packet_data : PacketType
  packet_error : PacketType

abbrev pub ack_mask : ℕ
ack_mask = 0x80

abbrev pub type_mask : ℕ
type_mask = 0x7f

-- `random(min, max)`; `random` is `Random::uint8(max - min + 1)`.
abbrev pub random_in : (ℕ → ℕ) → ℕ → ℕ → ℕ
random_in random min max = random (max - min + 1) + min

unfoldable pub value : (ℕ → ℕ) → PacketType → ℕ
value random auth = random_in random 0x00 0x07
value random auth_ack = bit_or (random_in random 0x00 0x07) ack_mask
value random attach = random_in random 0x08 0x0f
value random attach_ack = bit_or (random_in random 0x08 0x0f) ack_mask
value random ping = random_in random 0x10 0x1f
value random ping_ack = bit_or (random_in random 0x10 0x1f) ack_mask
value random connect = random_in random 0x20 0x2f
value random connect_ack = bit_or (random_in random 0x20 0x2f) ack_mask
value random disconnect = random_in random 0x30 0x3f
value random disconnect_ack = bit_or (random_in random 0x30 0x3f) ack_mask
value random packet_data = random_in random 0x40 0x6f
value random packet_error = bit_or (random_in random 0x70 0x7f) ack_mask

-- `none` is the exception.
unfoldable pub value_of : ℕ → Option PacketType
value_of byte =
    let ack = not (bit_and byte ack_mask == 0) in
    let type = bit_and byte type_mask in
    let high = type / 2 ^ 4 in
    if high == 0
    then if leb type 0x07
      then some (if ack then auth_ack else auth)
      else some (if ack then attach_ack else attach)
    else if high == 1
    then some (if ack then ping_ack else ping)
    else if high == 2
    then some (if ack then connect_ack else connect)
    else if high == 3
    then some (if ack then disconnect_ack else disconnect)
    else if leb high 6
    then (if ack then none else some packet_data)
    else if high == 7
    then (if ack then none else some packet_error)
    else none
