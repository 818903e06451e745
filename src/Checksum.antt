-- ===== src/Checksum.antt =====
-- checksum.c: the Internet checksum of IPv4, TCP, UDP and ICMP, on a little-endian host, and
-- packet_checksum.c, which fills it in.
pub mod Sum
pub mod Fold
pub mod Fill
pub mod Filled
