-- ===== src/Dns.antt =====
-- cmd/eqt-dns/main.go: the name server of the devices' own domains.
pub mod Store
pub mod Address
pub mod Server
