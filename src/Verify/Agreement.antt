-- ===== src/Verify/Agreement.antt =====
-- What it means that a packet of the stack agrees with one of the script, field by field, and the
-- functions of `Headers` against it.
use tcp_fuzz.Prelude.{ℕ, ◌+◌, ◌/◌, ◌%◌, Bool, true, some, ◌≡◌}
use tcp_fuzz.Prelude.{◌↔◌, ◌⊎◌, arith}
use tcp_fuzz.Verify.{TosCheck, Ipv4Header, Ipv6Header, TcpHeader}
use tcp_fuzz.Verify.Headers.{
  verify_outbound_live_tos, verify_outbound_live_ttl_or_hl, check_length, verify_ipv4, verify_ipv6,
  verify_tcp,
}

-- The bits 0 and 1 of the byte are those of the congestion notification; 4 stands for "1 or 2".
pub TosAgrees : TosCheck → ℕ → ℕ → Type 0
TosAgrees TosCheck.check_none actual script = Unit {0}
TosAgrees TosCheck.check_ecn actual script =
    (actual % 4 ≡ script) ⊎ ((script ≡ 4) × ((actual % 4 ≡ 1) ⊎ (actual % 4 ≡ 2)))
TosAgrees TosCheck.check_tos actual script = actual ≡ script

-- 255 in the script stands for any value.
abbrev pub TtlAgrees : ℕ → ℕ → Type 0
TtlAgrees actual script = (script ≡ 255) ⊎ (actual ≡ script)

pub record Ipv4Agrees (extra : ℕ) (tos_chk : TosCheck) (actual script : Ipv4Header) : Type 0 where
  pub same_version : actual.version ≡ script.version
  pub same_protocol : actual.protocol ≡ script.protocol
  pub same_ihl : actual.ihl ≡ script.ihl
  pub longer : actual.tot_len ≡ script.tot_len + extra
  pub tos : TosAgrees tos_chk actual.tos script.tos
  pub ttl : TtlAgrees actual.ttl script.ttl

pub record Ipv6Agrees (extra : ℕ) (tos_chk : TosCheck) (actual script : Ipv6Header) : Type 0 where
  pub same_version : actual.version ≡ script.version
  pub longer : actual.payload_len ≡ script.payload_len + extra
  pub same_next_header : actual.next_header ≡ script.next_header
  pub tos : TosAgrees tos_chk actual.traffic_class script.traffic_class
  pub ttl : TtlAgrees actual.hop_limit script.hop_limit

tos_iff :
    (check : TosCheck) (a s : ℕ) → (verify_outbound_live_tos check a s ≡ true) ↔ TosAgrees check a s
unfolding verify_outbound_live_tos TosAgrees
tos_iff TosCheck.check_none a s = ground arith
tos_iff TosCheck.check_ecn a s = ground arith
tos_iff TosCheck.check_tos a s = ground arith

ttl_iff : (a s : ℕ) → (verify_outbound_live_ttl_or_hl a s ≡ true) ↔ TtlAgrees a s
unfolding verify_outbound_live_ttl_or_hl
ttl_iff a s = ground arith

pub ipv4_iff :
    (extra : ℕ) (tos_chk : TosCheck) (a s : Ipv4Header)
    → (verify_ipv4 (some extra) tos_chk true a s ≡ some true) ↔ Ipv4Agrees extra tos_chk a s
unfolding verify_ipv4 check_length
ipv4_iff extra tos_chk a s = ground (arith, tos_iff tos_chk a.tos s.tos, ttl_iff a.ttl s.ttl)

pub ipv6_iff :
    (extra : ℕ) (tos_chk : TosCheck) (a s : Ipv6Header)
    → (verify_ipv6 (some extra) tos_chk true a s ≡ some true) ↔ Ipv6Agrees extra tos_chk a s
unfolding verify_ipv6 check_length
ipv6_iff extra tos_chk a s =
    ground (arith, tos_iff tos_chk a.traffic_class s.traffic_class, ttl_iff a.hop_limit s.hop_limit)

-- The window may be left unchecked.
pub record TcpAgrees (extra : ℕ) (win_nocheck : Bool) (actual script : TcpHeader) : Type 0 where
  pub longer : actual.doff ≡ script.doff + extra / 4
  pub same_seq : actual.seq ≡ script.seq
  pub same_ack_seq : actual.ack_seq ≡ script.ack_seq
  pub same_res1 : actual.res1 ≡ script.res1
  pub same_fin : actual.fin ≡ script.fin
  pub same_syn : actual.syn ≡ script.syn
  pub same_rst : actual.rst ≡ script.rst
  pub same_psh : actual.psh ≡ script.psh
  pub same_ack : actual.ack ≡ script.ack
  pub same_urg : actual.urg ≡ script.urg
  pub same_ece : actual.ece ≡ script.ece
  pub same_cwr : actual.cwr ≡ script.cwr
  pub same_window : (win_nocheck ≡ true) ⊎ (actual.window ≡ script.window)
  pub same_urg_ptr : actual.urg_ptr ≡ script.urg_ptr

pub tcp_iff :
    (extra payload_len : ℕ) (win_nocheck : Bool) (a s : TcpHeader)
    → (verify_tcp (some extra) payload_len win_nocheck true a s ≡ some true)
      ↔ TcpAgrees extra win_nocheck a s
unfolding verify_tcp
tcp_iff extra payload_len win_nocheck a s = ground arith
