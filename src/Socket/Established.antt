-- ===== src/Socket/Established.antt =====
-- The ACK that completes a passive connection, and the connection from the SYNACK on.
use tcp_fuzz.Prelude.{Option, some, List, [], ◌∷◌, ◌≡◌}
use tcp_fuzz.Prelude.{ap}
use mathlib.Core.Option.{some-injective}
use tcp_fuzz.Verify.{TcpHeader, HeaderFields, find_tcp}
use tcp_fuzz.Socket.{SocketPhase, Socket}
use tcp_fuzz.Socket.Inbound.{update_tcp}

pub find_tcp-update :
    (f : TcpHeader → TcpHeader) (headers : List HeaderFields) (header : TcpHeader)
    → find_tcp headers ≡ some header
    → find_tcp (update_tcp f headers) ≡ some (f header)
unfolding find_tcp update_tcp
find_tcp-update f [] header e = cc
find_tcp-update f (HeaderFields.tcp h ∷ headers) header e =
    ap some (ap f (some-injective h header e))
find_tcp-update f (HeaderFields.ipv4 h ∷ headers) header e = find_tcp-update f headers header e
find_tcp-update f (HeaderFields.ipv6 h ∷ headers) header e = find_tcp-update f headers header e
find_tcp-update f (HeaderFields.gre h ∷ headers) header e = find_tcp-update f headers header e
find_tcp-update f (HeaderFields.mpls h ∷ headers) header e = find_tcp-update f headers header e
find_tcp-update f (HeaderFields.udp h ∷ headers) header e = find_tcp-update f headers header e
find_tcp-update f (HeaderFields.icmpv4 a b ∷ headers) header e = find_tcp-update f headers header e
find_tcp-update f (HeaderFields.icmpv6 a b ∷ headers) header e = find_tcp-update f headers header e

-- What an ACK leaves of a socket: only the addresses and what was injected may change with it.
abbrev Keeps : Socket → SocketPhase → Socket → Type 0
Keeps socket phase socket' =
    (socket'.phase ≡ phase)
    × (socket'.script.local_isn ≡ socket.script.local_isn)
    × (socket'.live.local_isn ≡ socket.live.local_isn)
