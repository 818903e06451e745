-- ===== src/Build.antt =====
-- tcp_packet.c, udp_packet.c and ip_packet.c: the packets of a script, built from its words. A packet is
-- built of its bytes: the buffer is zeroed first, so the payload is. Only the two address families
-- that do not fail an assert are modelled.

pub mod Layer3
pub mod Layer4
pub mod Frames
pub mod Ipv4
pub mod Ipv6
pub mod RoundTrip
pub mod Udp
use tcp_fuzz.Prelude.{
  ℕ, zero, suc, ◌+◌, ◌-◌, ◌*◌, ◌/◌, ◌%◌, ◌^◌, ◌==◌, ◌&&◌, ◌||◌, not, if◌then◌else◌, ltb, Bool, true,
}
use tcp_fuzz.Prelude.{false, Option, none, some, List, [], ◌∷◌, ◌++◌, length, replicate, add32}
use tcp_fuzz.Prelude.Int.{ℤ, pos, negsuc}
use tcp_fuzz.Prelude.Fail.{◌>>=◌}
use tcp_fuzz.Packet.{
  Direction, HeaderType, Header, Packet, packet_new, packet_append_header, set_total_bytes,
}
use tcp_fuzz.Packet.Layout.{header_at}
use tcp_fuzz.Verify.{TosCheck}

pub data Family : Type 0 where
  inet inet6 : Family

-- `struct ip_info`
pub record IpInfo : Type 0 where
  pub tos_check : TosCheck
  pub tos_value : ℕ
  pub flow_label : ℕ
  pub ttl : ℕ

abbrev pub ip_header_min_len : Family → ℕ
ip_header_min_len Family.inet = 20
ip_header_min_len Family.inet6 = 40

-- The two bytes of a field, of which `htons` takes 16 bits.
abbrev pub half : ℕ → List ℕ → List ℕ
half n rest = n / 256 % 256 ∷ n % 256 ∷ rest

abbrev pub full : ℕ → List ℕ → List ℕ
full n rest = half (n / 2 ^ 16) (half n rest)

-- 0 stands for TTL_CHECK_NONE.
abbrev pub ttl_or_none : ℕ → ℕ
ttl_or_none ttl = if ttl == 0 then 255 else ttl

-- In front of the bytes of layer 4.
unfoldable pub set_ipv4_header : ℕ → ℕ → ℕ → ℕ → List ℕ → List ℕ
set_ipv4_header ip_bytes tos ttl protocol rest =
    0x45
    ∷ tos
    ∷ half ip_bytes
        (0 ∷ 0 ∷ 0 ∷ 0 ∷ ttl_or_none ttl ∷ protocol ∷ 0 ∷ 0 ∷ 0 ∷ 0 ∷ 0 ∷ 0 ∷ 0 ∷ 0 ∷ 0 ∷ 0 ∷ rest)

abbrev pub zeros : List ℕ → List ℕ
zeros rest = 0 ∷ 0 ∷ 0 ∷ 0 ∷ 0 ∷ 0 ∷ 0 ∷ 0 ∷ rest

unfoldable pub set_ipv6_header : ℕ → ℕ → ℕ → ℕ → ℕ → List ℕ → List ℕ
set_ipv6_header ip_bytes tos flow_label hop_limit protocol rest =
    (0x60 + tos / 16 % 16)
    ∷ (tos % 16 * 16 + flow_label / 2 ^ 16 % 16)
    ∷ half flow_label (
        half (ip_bytes - 40)
          (protocol ∷ ttl_or_none hop_limit ∷ zeros (zeros (zeros (zeros rest)))))

-- The arguments are the bytes of layer 4; a pointer to a header that was not appended is not tested.
unfoldable pub set_packet_ip_header : Family → ℕ → IpInfo → ℕ → List ℕ → Option Packet
unfolding set_ipv4_header set_ipv6_header packet_append_header
set_packet_ip_header Family.inet ip_bytes ip_info protocol rest =
    let packet =
      packet_new (set_ipv4_header ip_bytes ip_info.tos_value ip_info.ttl protocol rest) in
    packet_append_header (record packet { ipv4 = some 0 }) HeaderType.ipv4 20
set_packet_ip_header Family.inet6 ip_bytes ip_info protocol rest =
    let packet =
      packet_new
        (set_ipv6_header ip_bytes ip_info.tos_value ip_info.flow_label ip_info.ttl protocol rest) in
    packet_append_header (record packet { ipv6 = some 0 }) HeaderType.ipv6 40

-- A character of the flags, as a number.
abbrev pub has_char : ℕ → List ℕ → Bool
has_char c [] = false
has_char c (d ∷ flags) = (d == c) || has_char c flags

abbrev pub is_tcp_flag_set : ℕ → List ℕ → ℕ
is_tcp_flag_set c flags = if has_char c flags then 1 else 0

-- "FSRP.EWCU"
abbrev pub valid_tcp_flags : List ℕ
valid_tcp_flags = 70 ∷ 83 ∷ 82 ∷ 80 ∷ 46 ∷ 69 ∷ 87 ∷ 67 ∷ 85 ∷ []

unfoldable pub is_tcp_flags_spec_valid : List ℕ → Bool
is_tcp_flags_spec_valid [] = true
is_tcp_flags_spec_valid (c ∷ flags) = has_char c valid_tcp_flags && is_tcp_flags_spec_valid flags

-- The byte of the flags, from `cwr` down to `fin`: the characters are W, E, U, '.', P, R, S and F.
unfoldable pub flag_byte : List ℕ → ℕ
flag_byte flags =
    is_tcp_flag_set 87 flags * 128
    + is_tcp_flag_set 69 flags * 64
    + is_tcp_flag_set 85 flags * 32
    + is_tcp_flag_set 46 flags * 16
    + is_tcp_flag_set 80 flags * 8
    + is_tcp_flag_set 82 flags * 4
    + is_tcp_flag_set 83 flags * 2
    + is_tcp_flag_set 70 flags

-- The words of a script's TCP packet. No options is `none`, and the window may be -1.
pub record TcpSpec : Type 0 where
  pub direction : Direction
  pub ip_info : IpInfo
  pub src_port : ℕ
  pub dst_port : ℕ
  pub flags : List ℕ
  pub start_sequence : ℕ
  pub tcp_payload_bytes : ℕ
  pub ack_sequence : ℕ
  pub window : ℤ
  pub urg_ptr : ℕ
  pub tcp_options : Option (List ℕ)

-- A packet with its flags FLAG_WIN_NOCHECK and FLAG_OPTIONS_NOCHECK.
pub record Built : Type 0 where
  pub packet : Packet
  pub win_nocheck : Bool
  pub options_nocheck : Bool
  pub tos_chk : TosCheck

-- The reasons for which no packet is built.
pub data BuildError : Type 0 where
  options_not_padded header_too_large too_large invalid_flag no_window : BuildError

pub data Result : Type 0 where
  refused : BuildError → Result
  built : Built → Result

abbrev pub option_bytes : Option (List ℕ) → List ℕ
option_bytes none = []
option_bytes (some options) = options

abbrev pub is_none : Option (List ℕ) → Bool
is_none none = true
is_none (some options) = false

-- -1 is the window that is not to be checked; `htons` takes 16 bits of any other.
abbrev pub no_check : ℤ → Bool
no_check (pos n) = false
no_check (negsuc n) = n == 0

abbrev pub window_bits : ℤ → ℕ
window_bits (pos n) = n % 2 ^ 16
window_bits (negsuc n) = if n == 0 then 0 else 2 ^ 16 - 1 - n % 2 ^ 16

unfoldable pub tcp_bytes : TcpSpec → List ℕ
unfolding flag_byte
tcp_bytes spec =
    let options = option_bytes spec.tcp_options in
    half spec.src_port (
      half spec.dst_port (
        full spec.start_sequence (
          full spec.ack_sequence (
            (20 + length options) / 4 * 16
            ∷ flag_byte spec.flags
            ∷ half (window_bits spec.window)
                (0 ∷ 0 ∷ half spec.urg_ptr (options ++ replicate spec.tcp_payload_bytes 0))))))

abbrev pub is_inbound : Direction → Bool
is_inbound Direction.inbound = true
is_inbound _ = false

-- The layer 4 header behind the IP header, of the type and size, and `ip_bytes` at the end.
unfoldable pub append_layer4 : ℕ → HeaderType → ℕ → ℕ → ℕ → Direction → Packet → Option Packet
unfolding packet_append_header
append_layer4 ip_header_bytes type header_bytes payload_bytes ip_bytes direction packet =
    packet_append_header (set_total_bytes packet ip_bytes) type header_bytes >>= λ appended.
    some (record (set_total_bytes appended (header_bytes + payload_bytes)) {
      ip_bytes = ip_bytes;
      direction = direction;
    })

abbrev pub finish_tcp : TcpSpec → ℕ → Packet → Result
finish_tcp spec ip_header_bytes packet =
    if no_check spec.window && is_inbound spec.direction
    then refused BuildError.no_window
    else built (record {
      packet = record packet { tcp = some ip_header_bytes };
      win_nocheck = no_check spec.window;
      options_nocheck = is_none spec.tcp_options;
      tos_chk = spec.ip_info.tos_check;
    })

-- `none` is a NULL pointer that is read.
unfoldable pub new_tcp_packet : Family → TcpSpec → Option Result
unfolding set_packet_ip_header tcp_bytes append_layer4 is_tcp_flags_spec_valid
new_tcp_packet family spec =
    let tcp_option_bytes = length (option_bytes spec.tcp_options) in
    let ip_header_bytes = ip_header_min_len family in
    let tcp_header_bytes = 20 + tcp_option_bytes in
    let ip_bytes = ip_header_bytes + tcp_header_bytes + spec.tcp_payload_bytes in
    if not (tcp_option_bytes % 4 == 0)
    then some (refused BuildError.options_not_padded)
    else if ltb 60 tcp_header_bytes
    then some (refused BuildError.header_too_large)
    else if ltb (64 * 1024) ip_bytes
    then some (refused BuildError.too_large)
    else if not (is_tcp_flags_spec_valid spec.flags)
    then some (refused BuildError.invalid_flag)
    else (set_packet_ip_header family ip_bytes spec.ip_info 6 (tcp_bytes spec) >>= λ packet.
        append_layer4 ip_header_bytes HeaderType.tcp tcp_header_bytes spec.tcp_payload_bytes
          ip_bytes spec.direction packet
        >>= λ packet'. some (finish_tcp spec ip_header_bytes packet'))

unfoldable pub udp_bytes : ℕ → ℕ → ℕ → List ℕ
udp_bytes src_port dst_port udp_payload_bytes =
    half src_port
      (half dst_port (half (8 + udp_payload_bytes) (0 ∷ 0 ∷ replicate udp_payload_bytes 0)))

unfoldable pub new_udp_packet : Family → Direction → IpInfo → ℕ → ℕ → ℕ → Option Result
unfolding set_packet_ip_header udp_bytes append_layer4
new_udp_packet family direction ip_info udp_payload_bytes src_port dst_port =
    let ip_header_bytes = ip_header_min_len family in
    let ip_bytes = ip_header_bytes + 8 + udp_payload_bytes in
    if ltb (64 * 1024) ip_bytes
    then some (refused BuildError.too_large)
    else (set_packet_ip_header family ip_bytes ip_info 17
          (udp_bytes src_port dst_port udp_payload_bytes)
        >>= λ packet.
            append_layer4 ip_header_bytes HeaderType.udp 8 udp_payload_bytes ip_bytes direction
              packet
            >>= λ packet'. some (
                built (record {
                  packet = record packet' { udp = some ip_header_bytes };
                  win_nocheck = false;
                  options_nocheck = false;
                  tos_chk = ip_info.tos_check;
                })))
