-- ===== src/Arith/Exec.antt =====
-- The gates of `ZKFpExecPrv` (zk_fp_exec_prover.h) and `ZKFpExecVer` (zk_fp_exec_verifier.h) that
-- send nothing. The other gates are calls of the engine.
pub mod Prv
pub mod Ver
pub mod Laws
