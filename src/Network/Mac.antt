-- ===== src/Network/Mac.antt =====
-- GenerateMACForHostToDpu of pkg/network/network.go. The hash is any function from texts to bytes.
use dpu_simulator.Base.{
  ℕ, ◌+◌, ◌-◌, ◌/◌, ◌%◌, ◌<◌, ◌≡◌, ◌↔◌, ap, refl, [], ◌∷◌, ◌++◌, if◌then◌else◌, ltb, arith,
  get_elem?, some,
}
use dpu_simulator.Base.Text.{Bytes, codes}

-- A hexadecimal digit, as a byte.
unfoldable pub hex_digit : ℕ → ℕ
hex_digit d = if ltb d 10 then b'0' + d else b'a' + (d - 10)

-- `%02x` of a byte.
unfoldable pub hex_byte : ℕ → Bytes
unfolding hex_digit
hex_byte n = hex_digit (n / 16) ∷ hex_digit (n % 16) ∷ []

abbrev pub mac_oui : Bytes
mac_oui = codes "52:54:00"

-- `\x00`.
abbrev hashed_text : Bytes → Bytes → Bytes
hashed_text node_name role = node_name ++ 0 ∷ role

module _ (sha256 : Bytes → ℕ → ℕ) where
  -- The first two bytes of the hash, and the last byte of the index.
  unfoldable pub generate_mac_for_host_to_dpu : Bytes → Bytes → ℕ → Bytes
  unfolding hex_byte
  generate_mac_for_host_to_dpu node_name role index =
      let h = sha256 (hashed_text node_name role) in
      mac_oui
      ++ (b':' ∷ hex_byte (h 0))
      ++ (b':' ∷ hex_byte (h 1))
      ++ (b':' ∷ hex_byte (index % 256))

hex_digit_inj : (m n : ℕ) → m < 16 → n < 16 → hex_digit m ≡ hex_digit n → m ≡ n
unfolding hex_digit
hex_digit_inj m n hm hn e = ground arith

some_inj : {m n : ℕ} → some m ≡ some n → m ≡ n
some_inj e = cc

-- Two interfaces of one end have the same MAC address exactly where their indices agree modulo 256: from
-- 257 pairs on, addresses repeat.
pub generate_mac_for_host_to_dpu-mod :
    (sha256 : Bytes → ℕ → ℕ) (node_name role : Bytes) (i j : ℕ)
    → (generate_mac_for_host_to_dpu sha256 node_name role i
        ≡ generate_mac_for_host_to_dpu sha256 node_name role j)
      ↔ (i % 256 ≡ j % 256)
unfolding generate_mac_for_host_to_dpu
generate_mac_for_host_to_dpu-mod sha256 node_name role i j = (
  λ e.
      let high =
        hex_digit_inj (i % 256 / 16) (j % 256 / 16) (omega arith) (omega arith)
          (some_inj (ap (λ l. get_elem? l 15) e)) in
      let low =
        hex_digit_inj (i % 256 % 16) (j % 256 % 16) (omega arith) (omega arith)
          (some_inj (ap (λ l. get_elem? l 16) e)) in
      omega arith,
  λ e. rw e refl,
)
