-- ===== src/Verify.antt =====
-- run_packet.c: whether the packet that the stack sent is the one that the script expects, on the fields
-- of the headers, as numbers in the order of the host. A test of the code that answers STATUS_OK or
-- STATUS_ERR is a Bool here, `true` for STATUS_OK; the messages are left out. `none` is a failed assert
-- or a NULL pointer that is read.
pub mod Headers
pub mod Agreement
pub mod Gre
pub mod Equivalence
pub mod FlowLabel
pub mod Fragments
use tcp_fuzz.Prelude.{
  ℕ, ◌+◌, ◌-◌, ◌*◌, Bool, true, false, ◌||◌, Option, none, some, List, [], ◌∷◌, if◌then◌else◌,
}

-- `enum tos_chk_t`
pub data TosCheck : Type 0 where
  check_none check_ecn check_tos : TosCheck

pub record Ipv4Header : Type 0 where
  pub version : ℕ
  pub protocol : ℕ
  pub ihl : ℕ
  pub tot_len : ℕ
  pub tos : ℕ
  pub ttl : ℕ

pub record Ipv6Header : Type 0 where
  pub version : ℕ
  pub payload_len : ℕ
  pub next_header : ℕ
  pub traffic_class : ℕ
  pub flow_label : ℕ
  pub hop_limit : ℕ

-- A flag is 0 or 1.
pub record TcpHeader : Type 0 where
  pub seq : ℕ
  pub ack_seq : ℕ
  pub doff : ℕ
  pub res1 : ℕ
  pub fin : ℕ
  pub syn : ℕ
  pub rst : ℕ
  pub psh : ℕ
  pub ack : ℕ
  pub urg : ℕ
  pub ece : ℕ
  pub cwr : ℕ
  pub window : ℕ
  pub urg_ptr : ℕ

-- What `calloc` leaves.
abbrev pub no_tcp_header : TcpHeader
no_tcp_header = record {
  seq = 0;
  ack_seq = 0;
  doff = 0;
  res1 = 0;
  fin = 0;
  syn = 0;
  rst = 0;
  psh = 0;
  ack = 0;
  urg = 0;
  ece = 0;
  cwr = 0;
  window = 0;
  urg_ptr = 0;
}

-- The two bytes of the flags and the version. `words` are the words behind the fixed part: a header holds
-- as many as its flags announce.
pub record GreHeader : Type 0 where
  pub flags : ℕ
  pub version : ℕ
  pub proto : ℕ
  pub words : List ℕ

-- `enum header_t`, each with what is verified of the header: for UDP the length, for MPLS the entries
-- of the stack, for ICMP the type and the code.
pub data HeaderFields : Type 0 where
  ipv4 : Ipv4Header → HeaderFields
  ipv6 : Ipv6Header → HeaderFields
  gre : GreHeader → HeaderFields
  mpls : List ℕ → HeaderFields
  tcp : TcpHeader → HeaderFields
  udp : ℕ → HeaderFields
  icmpv4 icmpv6 : ℕ → ℕ → HeaderFields

-- What is verified of a packet. The two flags are FLAG_OPTIONS_NOCHECK and FLAG_WIN_NOCHECK.
pub record PacketFields : Type 0 where
  pub headers : List HeaderFields
  pub payload_len : ℕ
  pub options_nocheck : Bool
  pub win_nocheck : Bool
  pub tos_chk : TosCheck

-- `packet->tcp`: a packet has one layer 4 header at most.
unfoldable pub find_tcp : List HeaderFields → Option TcpHeader
find_tcp [] = none
find_tcp (tcp header ∷ headers) = some header
find_tcp (_ ∷ headers) = find_tcp headers

-- `packet->ipv4 != NULL || packet->ipv6 != NULL`
unfoldable pub has_ip : List HeaderFields → Bool
has_ip [] = false
has_ip (ipv4 header ∷ headers) = true
has_ip (ipv6 header ∷ headers) = true
has_ip (_ ∷ headers) = has_ip headers

-- `packet->tcp != NULL` or one of the others of layer 4.
unfoldable pub has_layer4 : List HeaderFields → Bool
has_layer4 [] = false
has_layer4 (tcp header ∷ headers) = true
has_layer4 (udp len ∷ headers) = true
has_layer4 (icmpv4 type code ∷ headers) = true
has_layer4 (icmpv6 type code ∷ headers) = true
has_layer4 (_ ∷ headers) = has_layer4 headers

-- The length of the options of a packet, if it has a TCP header, which is then 20 bytes long or longer.
unfoldable pub packet_tcp_options_len : PacketFields → Option ℕ
unfolding find_tcp
packet_tcp_options_len packet = elim (find_tcp packet.headers) [
  | none ↦ none
  | some header ↦ some (header.doff * 4 - 20)
]

unfoldable pub tcp_options_allowance : PacketFields → PacketFields → Option ℕ
unfolding packet_tcp_options_len
tcp_options_allowance actual_packet script_packet =
    if script_packet.options_nocheck then packet_tcp_options_len actual_packet else some 0
