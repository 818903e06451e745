-- ===== src/Build/Frames.antt =====
-- The two headers of a packet that is built, appended one after the other.
use tcp_fuzz.Prelude.{
  ℕ, ◌+◌, ◌*◌, ◌/◌, ◌%◌, ◌^◌, ◌≤◌, ◌<◌, ◌&&◌, ◌≡◌, refl, ap, ◌∙◌, true, false, arith, be16,
}
use tcp_fuzz.Prelude.{
  Option, List, [], ◌∷◌, length, replicate, length-append, length-replicate, some, le→ltb, ltb,
}
use tcp_fuzz.Prelude.Fail.{◌>>=◌}
use tcp_fuzz.Packet.{Direction, Packet, HeaderType, packet_new, packet_append_header}
use tcp_fuzz.Packet.Layout.{header_at}
use tcp_fuzz.Build.{
  Family, TcpSpec, Built, ip_header_min_len, set_packet_ip_header, append_layer4, option_bytes,
  tcp_bytes, is_tcp_flags_spec_valid, no_check, is_inbound, is_none, finish_tcp, new_tcp_packet,
  built,
}

-- The two headers of a packet that was built over the bytes, without its pointers.
abbrev pub framed : List ℕ → HeaderType → ℕ → ℕ → HeaderType → ℕ → ℕ → Direction → Packet
framed bytes ip ip_header_bytes total type header_bytes layer4_bytes direction =
    record (packet_new bytes) {
      ip_bytes = total;
      direction = direction;
      headers =
          header_at ip ip_header_bytes total 0
          ∷ header_at type header_bytes layer4_bytes ip_header_bytes
          ∷ [];
    }

pub with_ip4 :
    (bytes : List ℕ)
    → 20 ≤ length bytes
    → packet_append_header (record (packet_new bytes) { ipv4 = some 0 }) HeaderType.ipv4 20
      ≡ some (record (packet_new bytes) {
        ip_bytes = 20;
        headers = header_at HeaderType.ipv4 20 0 0 ∷ [];
        ipv4 = some 0;
      })
unfolding packet_append_header
with_ip4 bytes l = ground arith

pub append4_lem :
    (bytes : List ℕ) (type : HeaderType) (header_bytes payload total : ℕ) (direction : Direction)
    → length bytes ≡ total
    → total ≡ 20 + header_bytes + payload
    → total < 2 ^ 30
    → append_layer4 20 type header_bytes payload total direction (record (packet_new bytes) {
      ip_bytes = 20;
      headers = header_at HeaderType.ipv4 20 0 0 ∷ [];
      ipv4 = some 0;
    })
      ≡ some
          (record (framed bytes HeaderType.ipv4 20 total type header_bytes
            (header_bytes + payload)
            direction) { ipv4 = some 0 })
unfolding packet_append_header append_layer4
append4_lem bytes type header_bytes payload total direction l t small = ground arith

pub with_ip6 :
    (bytes : List ℕ)
    → 40 ≤ length bytes
    → packet_append_header (record (packet_new bytes) { ipv6 = some 0 }) HeaderType.ipv6 40
      ≡ some (record (packet_new bytes) {
        ip_bytes = 40;
        headers = header_at HeaderType.ipv6 40 0 0 ∷ [];
        ipv6 = some 0;
      })
unfolding packet_append_header
with_ip6 bytes l = ground arith

pub append6_lem :
    (bytes : List ℕ) (type : HeaderType) (header_bytes payload total : ℕ) (direction : Direction)
    → length bytes ≡ total
    → total ≡ 40 + header_bytes + payload
    → total < 2 ^ 30
    → append_layer4 40 type header_bytes payload total direction (record (packet_new bytes) {
      ip_bytes = 40;
      headers = header_at HeaderType.ipv6 40 0 0 ∷ [];
      ipv6 = some 0;
    })
      ≡ some
          (record (framed bytes HeaderType.ipv6 40 total type header_bytes
            (header_bytes + payload)
            direction) { ipv6 = some 0 })
unfolding packet_append_header append_layer4
append6_lem bytes type header_bytes payload total direction l t small = ground arith

pub bind_two :
    {A B : Type 0} (m : Option A) (g : A → Option A) (k : A → B) (p q : A)
    → m ≡ some p
    → g p ≡ some q
    → (m >>= λ x. g x >>= λ y. some (k y)) ≡ some (k q)
bind_two m g k p q e f =
    ap (λ o. o >>= λ x. g x >>= λ y. some (k y)) e ∙ ap (λ o. o >>= λ y. some (k y)) f

pub length-tcp_bytes :
    (spec : TcpSpec)
    → length (tcp_bytes spec) ≡ 20 + length (option_bytes spec.tcp_options) + spec.tcp_payload_bytes
unfolding tcp_bytes
length-tcp_bytes spec =
    let options = option_bytes spec.tcp_options in
    omega (
      arith,
      length-append {A = ℕ} options (replicate spec.tcp_payload_bytes 0),
      length-replicate {A = ℕ} spec.tcp_payload_bytes 0,
    )

-- The length field of the header, and the data offset.
pub be16_lem : (n : ℕ) → n < 2 ^ 16 → be16 (n / 256 % 256) (n % 256) ≡ n
be16_lem n h = omega arith

pub offset_lem : (n : ℕ) → n % 4 ≡ 0 → n / 4 * 16 / 16 * 4 ≡ n
offset_lem n h = omega arith

-- What new_tcp_packet tests of the words of the script.
pub record IsTcpSpec (spec : TcpSpec) : Type 0 where
  pub padded : length (option_bytes spec.tcp_options) % 4 ≡ 0
  pub fits : length (option_bytes spec.tcp_options) ≤ 40
  pub valid : is_tcp_flags_spec_valid spec.flags ≡ true
  pub window : (no_check spec.window && is_inbound spec.direction) ≡ false

abbrev pub tcp_total : Family → TcpSpec → ℕ
tcp_total family spec =
    ip_header_min_len family
    + (20 + length (option_bytes spec.tcp_options))
    + spec.tcp_payload_bytes

-- The packet behind the guards.
pub accepted_lem :
    (family : Family) (spec : TcpSpec)
    → IsTcpSpec spec
    → tcp_total family spec < 2 ^ 16
    → new_tcp_packet family spec ≡ (
        set_packet_ip_header family (tcp_total family spec) spec.ip_info 6 (tcp_bytes spec)
        >>= λ packet.
            append_layer4
              (ip_header_min_len family)
              HeaderType.tcp
              (20 + length (option_bytes spec.tcp_options))
              spec.tcp_payload_bytes
              (tcp_total family spec)
              spec.direction
              packet
            >>= λ packet'. some (finish_tcp spec (ip_header_min_len family) packet'))
unfolding new_tcp_packet
accepted_lem family spec h small =
    let n = length (option_bytes spec.tcp_options) in
    let wide : ltb 60 (20 + n) ≡ false = le→ltb _ _ (omega (arith, h.fits)) in
    let large : ltb (64 * 1024) (tcp_total family spec) ≡ false = le→ltb _ _ (omega arith) in
    rw (h.padded, wide, large, h.valid) refl

abbrev pub tcp_length : TcpSpec → ℕ
tcp_length spec = 20 + length (option_bytes spec.tcp_options)

abbrev pub built_of : TcpSpec → Packet → Built
built_of spec packet = record {
  packet = packet;
  win_nocheck = no_check spec.window;
  options_nocheck = is_none spec.tcp_options;
  tos_chk = spec.ip_info.tos_check;
}

pub finish_lem :
    (spec : TcpSpec) (ip_header_bytes : ℕ) (packet : Packet)
    → (no_check spec.window && is_inbound spec.direction) ≡ false
    → finish_tcp spec ip_header_bytes packet
      ≡ built (built_of spec (record packet { tcp = some ip_header_bytes }))
finish_lem spec ip_header_bytes packet h = rw (h) refl
