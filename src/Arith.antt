-- ===== src/Arith.antt =====
-- emp-zk/emp-zk-arith: two-party proofs over F_p.
pub mod Wire
pub mod Engine
pub mod Exec
pub mod Program
pub mod Poly
pub mod Batch
