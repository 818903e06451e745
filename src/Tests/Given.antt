-- ===== src/Tests/Given.antt =====
-- What the packet runner is given in the tests: comparisons that hold and a device that takes every packet.
use tcp_fuzz.Prelude.{true, false, [], ◌∷◌}
use tcp_fuzz.Verify.{TosCheck, PacketFields}
use tcp_fuzz.Socket.Runner.{Outside}

abbrev no_fields : PacketFields
no_fields = record {
  headers = [];
  payload_len = 0;
  options_nocheck = false;
  win_nocheck = false;
  tos_chk = TosCheck.check_none;
}

abbrev pub outside : Outside
outside = record {
  verify_outbound_live_checksums = λ live. true;
  read_options = λ packet. true;
  verify_outbound_live_ipv6_flowlabel = λ actual script. true;
  verify_outbound_live_tcp_options = λ actual script. true;
  verify_outbound_live_payload = λ actual script. true;
  verify_time = λ live. true;
  aggregate_packets = λ packets. elim packets [ [] ↦ no_fields | last ∷ earlier ↦ last ];
  overwritten = λ packet header. header;
  netdev_send = λ packet. true;
}
