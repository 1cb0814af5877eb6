-- ===== src/Command/Tests.antt =====
-- The address of a device.
use net_hive.Prelude.{ℕ, ◌≡◌, refl, some, List, [], ◌∷◌, ◌++◌, arith, Bytes, bytes_eq, ok}
use net_hive.Prelude.Int.{pos}
use net_hive.Netip.Text.{
  prefix_text, addr_text, text4, append_decimal, join, text6, append_hex, hex_digit, groups, zeros,
  zero_run,
}
use net_hive.Netip.{ip6}
use net_hive.Netip.Text.Split.{split}
use net_hive.Netip.Text.Read.{read_prefix}
use net_hive.Command.{
  Shell, bash_path, bash_flag, only_error, bash_result, ip4_add_addr, ip4_flush_addr,
}
use net_hive.Command.Words.{
  ip4_addr_lem, prefix, space, ip_word, v4_word, addr_word, add_word, flush_word, dev_word,
}

-- A shell that keeps what it was told.
abbrev shell : Shell
shell = record {
  World = List Bytes;
  Error = ℕ;
  output = λ path args w. ((pos 0, ok []), path ∷ (args ++ w));
}

abbrev hive0 : Bytes
hive0 = b'h' ∷ b'i' ∷ b'v' ∷ b'e' ∷ b'0' ∷ []

-- 192.168.168.1/24
text_of_prefix :
    prefix_text (prefix shell 192 168 168 1 24 hive0)
    ≡ b'1' ∷ b'9' ∷ b'2' ∷ b'.' ∷ b'1' ∷ b'6' ∷ b'8' ∷ b'.' ∷ b'1' ∷ b'6' ∷ b'8' ∷ b'.' ∷ b'1'
      ∷ b'/' ∷ b'2' ∷ b'4' ∷ []
unfolding prefix_text addr_text text4 append_decimal join
text_of_prefix = refl

-- fd00::1:0:0:2, where the second of the runs is as long as the rest allows, and the first is
-- longer.
text_of_ip6 :
    addr_text (ip6 (0xfd ∷ 0 ∷ 0 ∷ 0 ∷ 0 ∷ 0 ∷ 0 ∷ 0 ∷ 0 ∷ 1 ∷ 0 ∷ 0 ∷ 0 ∷ 0 ∷ 0 ∷ 2 ∷ []) [])
    ≡ b'f' ∷ b'd' ∷ b'0' ∷ b'0' ∷ b':' ∷ b':' ∷ b'1' ∷ b':' ∷ b'0' ∷ b':' ∷ b'0' ∷ b':' ∷ b'2' ∷ []
unfolding addr_text text6 append_hex hex_digit groups zeros zero_run join bytes_eq
text_of_ip6 = refl

ip4_addr_lem_example :
    (add flush word : Bytes) × ((w : List Bytes)
      → ip4_add_addr shell (prefix shell 192 168 168 1 24 hive0) hive0 w
        ≡ only_error shell (bash_result shell (shell.output bash_path (bash_flag ∷ add ∷ []) w)))
    × (split space add ≡ ip_word ∷ v4_word ∷ addr_word ∷ add_word ∷ word ∷ dev_word ∷ hive0 ∷ [])
    × (read_prefix word ≡ some (192 ∷ 168 ∷ 168 ∷ 1 ∷ [], 24))
    × ((w : List Bytes)
        → ip4_flush_addr shell hive0 w
          ≡ only_error shell
              (bash_result shell (shell.output bash_path (bash_flag ∷ flush ∷ []) w)))
    × (split space flush ≡ ip_word ∷ v4_word ∷ addr_word ∷ flush_word ∷ dev_word ∷ hive0 ∷ [])
ip4_addr_lem_example =
    ip4_addr_lem shell 192 168 168 1 24 hive0
      (omega arith, (omega arith, (omega arith, (omega arith, tt)))) (omega arith)
      (
        (λ e. omega (arith, e)),
        (
          (λ e. omega (arith, e)),
          ((λ e. omega (arith, e)), ((λ e. omega (arith, e)), ((λ e. omega (arith, e)), tt))),
        ),
      )
