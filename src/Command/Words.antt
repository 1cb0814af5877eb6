-- ===== src/Command/Words.antt =====
-- What the shell is told.
use net_hive.Prelude.{ℕ, ◌≤◌, ◌<◌, ◌≡◌, refl, ap, ◌∙◌, some, [], ◌∷◌, ◌++◌, arith, Bytes, All}
use net_hive.Netip.{Prefix, ip4}
use net_hive.Netip.Text.{prefix_text}
use net_hive.Netip.Text.Split.{split, cons_first, Free, split-Free, split-append}
use net_hive.Netip.Text.Read.{read_prefix, prefix_text-Free, read_prefix-prefix_text}
use net_hive.Command.{
  ip4_addr, add_text, flush_text, dev_text, Shell, bash_path, bash_flag, add_addr_command,
  flush_addr_command, bash, only_error, ip4_add_addr, ip4_flush_addr, bash_result,
}

abbrev pub space : ℕ
space = 32

-- "ip", "-4", "addr", "add", "flush" and "dev"
abbrev pub ip_word : Bytes
ip_word = b'i' ∷ b'p' ∷ []

abbrev pub v4_word : Bytes
v4_word = b'-' ∷ b'4' ∷ []

abbrev pub addr_word : Bytes
addr_word = b'a' ∷ b'd' ∷ b'd' ∷ b'r' ∷ []

abbrev pub add_word : Bytes
add_word = b'a' ∷ b'd' ∷ b'd' ∷ []

abbrev pub flush_word : Bytes
flush_word = b'f' ∷ b'l' ∷ b'u' ∷ b's' ∷ b'h' ∷ []

abbrev pub dev_word : Bytes
dev_word = b'd' ∷ b'e' ∷ b'v' ∷ []

-- The fixed words, before whatever follows.
split-add :
    (rest : Bytes)
    → split space (ip4_addr ++ (add_text ++ rest))
      ≡ ip_word ∷ v4_word ∷ addr_word ∷ add_word ∷ split space rest
unfolding split cons_first
split-add rest = refl

split-flush :
    (rest : Bytes)
    → split space (ip4_addr ++ (flush_text ++ rest))
      ≡ ip_word ∷ v4_word ∷ addr_word ∷ flush_word ∷ dev_word ∷ split space rest
unfolding split cons_first
split-flush rest = refl

split-dev : (dev : Bytes) → split space (b'd' ∷ b'e' ∷ b'v' ∷ 32 ∷ dev) ≡ dev_word ∷ split space dev
unfolding split cons_first
split-dev dev = refl

module _ (S : Shell) (a b c d bits : ℕ) (dev : Bytes) where
  abbrev pub prefix : Prefix
  prefix = record { addr = ip4 (a ∷ b ∷ c ∷ d ∷ []); bits = bits }

  -- `IP4AddAddr` of an IPv4 prefix and a device whose name has no space, and `IP4FlushAddr`, each
  -- run bash once, and return its error. The command, cut at its spaces, is `ip -4 addr add` with
  -- the prefix and the device, and `ip -4 addr flush` with the device; and the word for the prefix,
  -- read again, is that prefix.
  pub ip4_addr_lem :
      All (λ n. n < 256) (a ∷ b ∷ c ∷ d ∷ [])
      → bits ≤ 32
      → Free space dev
      → (add flush word : Bytes) × ((w : S.World)
          → ip4_add_addr S prefix dev w
            ≡ only_error S (bash_result S (S.output bash_path (bash_flag ∷ add ∷ []) w)))
        × (split space add ≡ ip_word ∷ v4_word ∷ addr_word ∷ add_word ∷ word ∷ dev_word ∷ dev ∷ [])
        × (read_prefix word ≡ some (a ∷ b ∷ c ∷ d ∷ [], bits))
        × ((w : S.World)
            → ip4_flush_addr S dev w
              ≡ only_error S (bash_result S (S.output bash_path (bash_flag ∷ flush ∷ []) w)))
        × (split space flush ≡ ip_word ∷ v4_word ∷ addr_word ∷ flush_word ∷ dev_word ∷ dev ∷ [])
  unfolding ip4_add_addr ip4_flush_addr bash add_addr_command flush_addr_command
  ip4_addr_lem bytes small free = (
    add_addr_command prefix dev,
    flush_addr_command dev,
    prefix_text prefix,
    (λ w. refl),
    split-add (prefix_text prefix ++ (dev_text ++ dev))
        ∙ ap (λ l. ip_word ∷ v4_word ∷ addr_word ∷ add_word ∷ l)
            (split-append space (prefix_text prefix) (b'd' ∷ b'e' ∷ b'v' ∷ 32 ∷ dev) (
                prefix_text-Free a b c d bits space (omega arith) (λ e. omega (arith, e))
                  (λ e. omega (arith, e)))
              ∙ ap (λ l. prefix_text prefix ∷ l)
                  (split-dev dev ∙ ap (λ l. dev_word ∷ l) (split-Free space dev free))),
    read_prefix-prefix_text a b c d bits bytes small,
    (λ w. refl),
    split-flush dev
        ∙ ap (λ l. ip_word ∷ v4_word ∷ addr_word ∷ flush_word ∷ dev_word ∷ l)
            (split-Free space dev free),
  )
