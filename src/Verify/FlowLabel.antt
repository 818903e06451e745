-- ===== src/Verify/FlowLabel.antt =====
-- run_packet.c: verify_outbound_live_ipv6_flowlabel, and the packets of a flow one after the other.
use tcp_fuzz.Prelude.{
  ℕ, ◌==◌, if◌then◌else◌, Bool, true, false, List, [], ◌∷◌, ◌≡◌, ◌≢◌, ◌↔◌, arith,
}

-- `flowlabel_map` of a socket; 0 is no label.
pub record FlowlabelMap : Type 0 where
  pub flowlabel_script : ℕ
  pub flowlabel_live : ℕ

-- The labels of a packet of the script and of the packet sent.
pub record Labels : Type 0 where
  pub script : ℕ
  pub live : ℕ

-- Whether the answer is STATUS_OK, and the map of the socket afterwards.
unfoldable pub verify_outbound_live_ipv6_flowlabel : FlowlabelMap → Labels → Bool × FlowlabelMap
verify_outbound_live_ipv6_flowlabel known labels =
    let updated : FlowlabelMap = record {
      flowlabel_script = labels.script;
      flowlabel_live = labels.live;
    } in
    if labels.script == 0
    then (true, known)
    else if labels.live == 0
    then (false, known)
    else if known.flowlabel_script == 0
    then (true, updated)
    else if labels.script == known.flowlabel_script
    then (if labels.live == known.flowlabel_live then (true, known) else (false, known))
    else if labels.live == known.flowlabel_live
    then (false, known)
    else (true, updated)

-- Packets until the first that is refused: whether none is.
unfoldable pub verify_flow : FlowlabelMap → List Labels → Bool
unfolding verify_outbound_live_ipv6_flowlabel
verify_flow known [] = true
verify_flow known (labels ∷ rest) =
    let (ok, known') = verify_outbound_live_ipv6_flowlabel known labels in
    let accepted = verify_flow known' rest in if ok then accepted else false

-- The label changes on the wire when it does in the script.
abbrev pub Follows : Labels → Labels → Type 0
Follows a b = (b.script ≡ a.script) ↔ (b.live ≡ a.live)

-- Labels of the script and of the wire that change together, behind those of the packet before.
pub InStep : Labels → List Labels → Type 0
InStep before [] = Unit {0}
InStep before (labels ∷ rest) = (labels.live ≢ 0) × Follows before labels × InStep labels rest

-- The first packet of a flow has any label.
pub IsFlow : List Labels → Type 0
IsFlow [] = Unit {0}
IsFlow (labels ∷ rest) = (labels.live ≢ 0) × InStep labels rest

unfoldable pub Marked : List Labels → Type 0
Marked [] = Unit {0}
Marked (labels ∷ rest) = (labels.script ≢ 0) × Marked rest

InStep-iff :
    (before : Labels) (flow : List Labels)
    → before.script ≢ 0
    → Marked flow
    → (verify_flow (record { flowlabel_script = before.script; flowlabel_live = before.live }) flow
        ≡ true)
      ↔ InStep before flow
unfolding verify_flow verify_outbound_live_ipv6_flowlabel InStep Marked
InStep-iff before [] h marked = ground arith
InStep-iff before (labels ∷ rest) h marked =
    ground (arith, InStep-iff labels rest marked.0 marked.1)

-- On a socket that has seen no flow label, packets whose labels the script gives are all accepted by
-- verify_outbound_live_ipv6_flowlabel if and only if each of the packets sent has a label, which changes
-- from a packet to the next exactly where the label of the script does.
pub verify_flow_iff :
    (flow : List Labels)
    → Marked flow
    → (verify_flow (record { flowlabel_script = 0; flowlabel_live = 0 }) flow ≡ true) ↔ IsFlow flow
unfolding verify_flow verify_outbound_live_ipv6_flowlabel IsFlow Marked
verify_flow_iff [] marked = ground arith
verify_flow_iff (labels ∷ rest) marked = ground (arith, InStep-iff labels rest marked.0 marked.1)
