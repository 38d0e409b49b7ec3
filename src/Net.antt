-- ===== src/Net.antt =====
-- src/kernel/net: TCP, the Unix sockets, ARP and UDP.
pub mod Tcp
pub mod Unix
pub mod Arp
pub mod Udp
