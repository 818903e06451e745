-- ===== src/Verify/Equivalence.antt =====
-- verify_outbound_live_headers in its strict mode against the agreement of all headers.
use tcp_fuzz.Prelude.{
  ℕ, ◌-◌, ◌*◌, Bool, true, false, Option, none, some, List, [], ◌∷◌, ◌≡◌, ◌≢◌, ◌↔◌, ◌⊎◌, length,
}
use tcp_fuzz.Prelude.{arith, Option-cases, inl, inr, sym, ap, ◌∙◌}
use mathlib.Core.Option.{none-ne-some}
use tcp_fuzz.Verify.{
  TosCheck, Ipv4Header, Ipv6Header, TcpHeader, HeaderFields, PacketFields, find_tcp, has_ip,
}
use tcp_fuzz.Verify.{has_layer4, packet_tcp_options_len, tcp_options_allowance}
use tcp_fuzz.Verify.Headers.{
  verify_ipv4, verify_ipv6, verify_tcp, verify_udp, verify_icmp, verify_header, verify_layers,
  verify_outbound_live_headers, check_length,
}
use tcp_fuzz.Verify.Agreement.{Ipv4Agrees, Ipv6Agrees, TcpAgrees, ipv4_iff, ipv6_iff, tcp_iff}
use tcp_fuzz.Verify.Gre.{GreAgrees, gre_iff, mpls_iff}

-- By how many bytes of TCP options the packet sent may be longer than that of the script: by none, or
-- if the script leaves them open by as many as it has.
pub Extra : PacketFields → PacketFields → ℕ → Type 0
Extra actual script extra =
    ((script.options_nocheck ≡ false) × (extra ≡ 0))
    ⊎ ((script.options_nocheck ≡ true)
        × ((header : TcpHeader) × (find_tcp actual.headers ≡ some header)
            × (extra ≡ header.doff * 4 - 20)))

Extra-iff :
    (actual script : PacketFields) (extra : ℕ)
    → (tcp_options_allowance actual script ≡ some extra) ↔ Extra actual script extra
unfolding tcp_options_allowance packet_tcp_options_len Extra
Extra-iff actual script extra = ground arith

pub HeaderAgrees : PacketFields → PacketFields → HeaderFields → HeaderFields → Type 0
HeaderAgrees actual script (HeaderFields.ipv4 a) (HeaderFields.ipv4 s) =
    (extra : ℕ) × Extra actual script extra × Ipv4Agrees extra script.tos_chk a s
HeaderAgrees actual script (HeaderFields.ipv6 a) (HeaderFields.ipv6 s) =
    (extra : ℕ) × Extra actual script extra × Ipv6Agrees extra script.tos_chk a s
HeaderAgrees actual script (HeaderFields.tcp a) (HeaderFields.tcp s) =
    (extra : ℕ) × Extra actual script extra × TcpAgrees extra script.win_nocheck a s
HeaderAgrees actual script (HeaderFields.gre a) (HeaderFields.gre s) = GreAgrees a s
HeaderAgrees actual script (HeaderFields.mpls a) (HeaderFields.mpls s) = a ≡ s
HeaderAgrees actual script (HeaderFields.udp a) (HeaderFields.udp s) = a ≡ s
HeaderAgrees actual script (HeaderFields.icmpv4 a b) (HeaderFields.icmpv4 s t) = (a ≡ s) × (b ≡ t)
HeaderAgrees actual script (HeaderFields.icmpv6 a b) (HeaderFields.icmpv6 s t) = (a ≡ s) × (b ≡ t)
HeaderAgrees actual script _ _ = true ≡ false

-- Where the allowance is wanted, only a known one is of use.
allowed_iff :
    (actual script : PacketFields) (f : Option ℕ → Option Bool) (Agrees : ℕ → Type 0)
    → f none ≢ some true
    → ((extra : ℕ) → (f (some extra) ≡ some true) ↔ Agrees extra)
    → (f (tcp_options_allowance actual script) ≡ some true)
      ↔ ((extra : ℕ) × Extra actual script extra × Agrees extra)
allowed_iff actual script f Agrees refused known = (
  λ h. elim (Option-cases (tcp_options_allowance actual script)) [
    | inl e ↦ absurd (refused (rw⁻¹ (e) h))
    | inr (extra, e) ↦
        (extra, (Extra-iff actual script extra).0 e, (known extra).0 (ap f (sym e) ∙ h))
  ],
  λ h.
      let (extra, allowed, agrees) = h in
      ap f ((Extra-iff actual script extra).1 allowed) ∙ (known extra).1 agrees,
)

ipv4_refused :
    (tos_chk : TosCheck) (a s : Ipv4Header) → verify_ipv4 none tos_chk true a s ≢ some true
unfolding verify_ipv4 check_length
ipv4_refused tos_chk a s h = ground arith

ipv6_refused :
    (tos_chk : TosCheck) (a s : Ipv6Header) → verify_ipv6 none tos_chk true a s ≢ some true
unfolding verify_ipv6 check_length
ipv6_refused tos_chk a s h = ground arith

tcp_refused :
    (payload_len : ℕ) (win_nocheck : Bool) (a s : TcpHeader)
    → verify_tcp none payload_len win_nocheck true a s ≢ some true
unfolding verify_tcp
tcp_refused payload_len win_nocheck a s h = none-ne-some true h

header_iff :
    (actual script : PacketFields) (a s : HeaderFields)
    → (verify_header actual script true a s ≡ some true) ↔ HeaderAgrees actual script a s
unfolding verify_header HeaderAgrees verify_udp verify_icmp
header_iff actual script (HeaderFields.ipv4 a) (HeaderFields.ipv4 s) =
    allowed_iff actual script (λ o. verify_ipv4 o script.tos_chk true a s)
      (λ n. Ipv4Agrees n script.tos_chk a s) (ipv4_refused script.tos_chk a s)
      (λ n. ipv4_iff n script.tos_chk a s)
header_iff actual script (HeaderFields.ipv6 a) (HeaderFields.ipv6 s) =
    allowed_iff actual script (λ o. verify_ipv6 o script.tos_chk true a s)
      (λ n. Ipv6Agrees n script.tos_chk a s) (ipv6_refused script.tos_chk a s)
      (λ n. ipv6_iff n script.tos_chk a s)
header_iff actual script (HeaderFields.tcp a) (HeaderFields.tcp s) =
    allowed_iff actual script (λ o. verify_tcp o script.payload_len script.win_nocheck true a s)
      (λ n. TcpAgrees n script.win_nocheck a s)
      (tcp_refused script.payload_len script.win_nocheck a s)
      (λ n. tcp_iff n script.payload_len script.win_nocheck a s)
header_iff actual script (HeaderFields.gre a) (HeaderFields.gre s) = gre_iff a s
header_iff actual script (HeaderFields.mpls a) (HeaderFields.mpls s) = ground (arith, mpls_iff a s)
header_iff actual script (HeaderFields.udp a) (HeaderFields.udp s) = ground arith
header_iff actual script (HeaderFields.icmpv4 a b) (HeaderFields.icmpv4 s t) = ground arith
header_iff actual script (HeaderFields.icmpv6 a b) (HeaderFields.icmpv6 s t) = ground arith
header_iff actual script _ _ = ground arith

-- Layer by layer, on as many layers.
pub LayersAgree : PacketFields → PacketFields → List HeaderFields → List HeaderFields → Type 0
LayersAgree actual script [] [] = Unit {0}
LayersAgree actual script (a ∷ rest) (s ∷ ss) =
    HeaderAgrees actual script a s × LayersAgree actual script rest ss
LayersAgree actual script _ _ = true ≡ false

layers_iff :
    (actual script : PacketFields) (a s : List HeaderFields)
    → ((length a ≡ length s) × (verify_layers actual script true a s ≡ some true))
      ↔ LayersAgree actual script a s
unfolding verify_layers LayersAgree
layers_iff actual script [] [] = ground arith
layers_iff actual script [] (s ∷ ss) = ground arith
layers_iff actual script (a ∷ rest) [] = ground arith
layers_iff actual script (a ∷ rest) (s ∷ ss) =
    ground (arith, header_iff actual script a s, layers_iff actual script rest ss)

-- verify_outbound_live_headers, strict, answers STATUS_OK if and only if the packet sent has an IP header
-- and a layer 4 header and its headers agree with those of the script, one by one and field by field.
pub verify_headers_iff :
    (actual script : PacketFields)
    → (verify_outbound_live_headers actual script true ≡ some true) ↔ (
        (has_ip actual.headers ≡ true)
        × (has_layer4 actual.headers ≡ true)
        × LayersAgree actual script actual.headers script.headers)
unfolding verify_outbound_live_headers
verify_headers_iff actual script =
    ground (arith, layers_iff actual script actual.headers script.headers)
