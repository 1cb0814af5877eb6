-- ===== src/Stack/Tests.antt =====
-- The hash at concrete flows.
use net_hive.Netip.{ip4, AddrPort}
use net_hive.Stack.{rol32, Words, net4_words, ports, be_uint32}
use net_hive.Stack.Mix.{IsWords}
use net_hive.Stack.Flow.{IsV4, IsEnd, mix_flow-injective}
use net_hive.Prelude.{◌≡◌, refl, some, [], ◌∷◌, arith}

rol32_carries : rol32 0x8000_0001 4 ≡ 0x18
unfolding rol32
rol32_carries = refl

abbrev client : AddrPort
client = record { addr = ip4 (192 ∷ 168 ∷ 168 ∷ 1 ∷ []); port = 40000 }

abbrev server : AddrPort
server = record { addr = ip4 (192 ∷ 168 ∷ 168 ∷ 7 ∷ []); port = 443 }

abbrev words : Words
words = record { a = 0xc0a8_a801; b = 0xc0a8_a807; c = 0x9c40_01bb }

net4_words-client : net4_words client server ≡ some words
unfolding net4_words ports be_uint32
net4_words-client = refl

words-IsWords : IsWords words
words-IsWords = omega arith

client-IsV4 : IsV4 client (192 ∷ 168 ∷ 168 ∷ 1 ∷ [])
client-IsV4 = record { is_v4 = refl; size = refl; small = omega arith; port_lt = omega arith }

server-IsV4 : IsV4 server (192 ∷ 168 ∷ 168 ∷ 7 ∷ [])
server-IsV4 = record { is_v4 = refl; size = refl; small = omega arith; port_lt = omega arith }

client-IsEnd : IsEnd client
client-IsEnd = record { small = omega arith; port_lt = omega arith }

server-IsEnd : IsEnd server
server-IsEnd = record { small = omega arith; port_lt = omega arith }

mix_flow-injective_example : (client ≡ client) × (server ≡ server)
mix_flow-injective_example =
    mix_flow-injective client-IsV4 server-IsV4 client-IsV4 server-IsV4 net4_words-client
      net4_words-client refl
