-- ===== src/Config/Key/Text.antt =====
-- A private key written as text is read back.
use net_hive.Config.Key.{PrivateKey, unmarshal_text, marshal_text}
use net_hive.Config.Key.Hex.{hex_decode-hex_encode}
use net_hive.Prelude.{◌<◌, ◌≡◌, All, ok}

-- `UnmarshalText` of what `MarshalText` wrote for a key of bytes gives the same key, whatever key
-- the receiver held.
pub unmarshal_text-marshal_text :
    (p q : PrivateKey) → All (λ b. b < 256) q.key → unmarshal_text p (marshal_text q) ≡ ok q
unfolding unmarshal_text marshal_text
unmarshal_text-marshal_text p q h = rw (hex_decode-hex_encode q.key h, unmarshal_text)
