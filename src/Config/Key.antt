-- ===== src/Config/Key.antt =====
-- core/config/pk.go: the private key as hexadecimal text. The keys themselves are those of libp2p's
-- `crypto`.
pub mod Hex
pub mod Text
use Hex.{hex_encode, hex_decode, HexError}
use net_hive.Prelude.{◌-◌, ◌≡◌, Bytes, Result, ok, err}

-- `PrivateKey`
pub record PrivateKey : Type 0 where
  pub key : Bytes

-- What the code takes from libp2p: keys, their generation from a source of randomness, their
-- serialisation, which can be read back, and the peer ID of a key.
pub record Crypto : Type 1 where
  pub Key : Type 0
  pub Random : Type 0
  pub Error : Type 0
  pub generate : Random → Result Error Key
  pub marshal : Key → Result Error Bytes
  pub unmarshal : Bytes → Result Error Key
  pub id_from_private_key : Key → Result Error Bytes
  pub unmarshal-marshal : (k : Key) (b : Bytes) → marshal k ≡ ok b → unmarshal b ≡ ok k

-- `UnmarshalText`: the receiver keeps its key on an error.
pub unmarshal_text : PrivateKey → Bytes → Result HexError PrivateKey
unmarshal_text p text = elim (hex_decode text) [ ok b ↦ ok (record p { key = b }) | err x ↦ err x ]

-- `MarshalText`, which never fails.
pub marshal_text : PrivateKey → Bytes
marshal_text p = hex_encode p.key

module _ (C : Crypto) where
  open C use {Key, Random, Error, generate, marshal, unmarshal}

  abbrev wrap_key : Result Error Bytes → Result Error PrivateKey
  wrap_key (ok b) = ok (record { key = b })
  wrap_key (err x) = err x

  -- `NewPrivateKey`
  unfoldable pub new_private_key : Random → Result Error PrivateKey
  new_private_key rand = elim (generate rand) [ err x ↦ err x | ok k ↦ wrap_key (marshal k) ]

  -- `PrivKey`
  unfoldable pub priv_key : PrivateKey → Result Error Key
  priv_key p = unmarshal p.key
