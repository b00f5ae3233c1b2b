-- ===== src/Mvzk.antt =====
-- emp-zk/mvzk: proofs to `n` verifiers, who hold authenticated additive shares.
pub mod Share
pub mod Mesh
pub mod Verifier
