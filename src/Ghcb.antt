-- ===== src/Ghcb.antt =====
-- common/snp-types/src/ghcb: the protocol between an SEV-SNP guest and the hypervisor.
pub mod MsrProtocol
mod Tests
