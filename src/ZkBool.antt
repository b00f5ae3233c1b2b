-- ===== src/ZkBool.antt =====
-- The Boolean proof engine of emp-zk/emp-zk-bool: bits authenticated in GF(2^128).
pub mod Block
pub mod Outside
pub mod Check
pub mod Engine
pub mod Program
pub mod Poly
pub mod Cot
pub mod Vector
pub mod F2k
pub mod Prdt
pub mod Perm
