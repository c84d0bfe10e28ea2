-- ===== src/Proxy/PacketType/RoundTrip.antt =====
-- What `valueOf` makes of the byte that `value` gives.
use elastos_carrier_native.Prelude.{
  ℕ, ◌<◌, ◌≡◌, refl, sym, ap, ◌∙◌, true, ◌==◌, ==→≡, Option, none, some, List, [], ◌∷◌, get_or,
  arith,
}
use elastos_carrier_native.Bits.Table.{table_of_truth, true_below}
use elastos_carrier_native.Proxy.PacketType.{
  PacketType, auth, auth_ack, attach, attach_ack, ping, ping_ack, connect, connect_ack, disconnect,
  disconnect_ack, packet_data, packet_error, value, value_of,
}

-- A number for each result of `valueOf`, and back.
code : Option PacketType → ℕ
code none = 0
code (some auth) = 1
code (some auth_ack) = 2
code (some attach) = 3
code (some attach_ack) = 4
code (some ping) = 5
code (some ping_ack) = 6
code (some connect) = 7
code (some connect_ack) = 8
code (some disconnect) = 9
code (some disconnect_ack) = 10
code (some packet_data) = 11
code (some packet_error) = 12

types : List (Option PacketType)
types =
    none
    ∷ some auth
    ∷ some auth_ack
    ∷ some attach
    ∷ some attach_ack
    ∷ some ping
    ∷ some ping_ack
    ∷ some connect
    ∷ some connect_ack
    ∷ some disconnect
    ∷ some disconnect_ack
    ∷ some packet_data
    ∷ some packet_error
    ∷ []

decode-code : (t : Option PacketType) → get_or types (code t) none ≡ t
unfolding types code
decode-code none = refl
decode-code (some auth) = refl
decode-code (some auth_ack) = refl
decode-code (some attach) = refl
decode-code (some attach_ack) = refl
decode-code (some ping) = refl
decode-code (some ping_ack) = refl
decode-code (some connect) = refl
decode-code (some connect_ack) = refl
decode-code (some disconnect) = refl
decode-code (some disconnect_ack) = refl
decode-code (some packet_data) = refl
decode-code (some packet_error) = refl

code_injective : (t u : Option PacketType) → code t ≡ code u → t ≡ u
code_injective t u e = sym (decode-code t) ∙ ap (λ n. get_or types n none) e ∙ decode-code u

-- The type that a peer with the same code reads.
abbrev pub received : PacketType → Option PacketType
received packet_error = none
received t = some t

-- The number of bytes of a type.
abbrev width : PacketType → ℕ
width auth = 8
width auth_ack = 8
width attach = 8
width attach_ack = 8
width ping = 16
width ping_ack = 16
width connect = 16
width connect_ack = 16
width disconnect = 16
width disconnect_ack = 16
width packet_data = 48
width packet_error = 16

row :
    (t : PacketType)
    → table_of_truth (width t) (λ r. code (value_of (value (λ _. r) t)) == code (received t)) ≡ true
unfolding table_of_truth value value_of code
row auth = refl
row auth_ack = refl
row attach = refl
row attach_ack = refl
row ping = refl
row ping_ack = refl
row connect = refl
row connect_ack = refl
row disconnect = refl
row disconnect_ack = refl
row packet_data = refl
row packet_error = refl

every : (t : PacketType) (r : ℕ) → r < width t → value_of (value (λ _. r) t) ≡ received t
every t r h = code_injective _ _ (==→≡ _ _ (true_below (width t) _ r (row t) h))

-- For any random generator that keeps its bound, `valueOf` of the byte that `value` makes of a
-- type is that type; for ERROR, it throws.
pub value_of-value :
    (random : ℕ → ℕ) (t : PacketType)
    → ((bound : ℕ) → 0 < bound → random bound < bound)
    → value_of (value random t) ≡ received t
unfolding value
value_of-value random auth small = every auth (random 8) (small 8 (omega arith))
value_of-value random auth_ack small = every auth_ack (random 8) (small 8 (omega arith))
value_of-value random attach small = every attach (random 8) (small 8 (omega arith))
value_of-value random attach_ack small = every attach_ack (random 8) (small 8 (omega arith))
value_of-value random ping small = every ping (random 16) (small 16 (omega arith))
value_of-value random ping_ack small = every ping_ack (random 16) (small 16 (omega arith))
value_of-value random connect small = every connect (random 16) (small 16 (omega arith))
value_of-value random connect_ack small = every connect_ack (random 16) (small 16 (omega arith))
value_of-value random disconnect small = every disconnect (random 16) (small 16 (omega arith))
value_of-value random disconnect_ack small =
    every disconnect_ack (random 16) (small 16 (omega arith))
value_of-value random packet_data small = every packet_data (random 48) (small 48 (omega arith))
value_of-value random packet_error small = every packet_error (random 16) (small 16 (omega arith))
