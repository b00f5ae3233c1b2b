-- ===== src/Lib.antt =====
-- vole-zk proves statements in zero knowledge from VOLE correlations. Four parts are modelled.
--
-- The two-party arithmetic proofs of emp-zk/emp-zk-arith. A wire is a value and a MAC at the
-- prover, and a key at the verifier (Arith/Wire.antt). The engine `FpOSTriple` of ostriple.h shares
-- inputs, multiplies, and buffers the triples of multiplications until `CHECK_SZ` of them are
-- checked together (Arith/Engine.antt). `*_send` is what the prover does, with the messages that it
-- sends; `*_recv` is what the verifier does with the messages that it gets. The gates of
-- zk_fp_exec_prover.h and zk_fp_exec_verifier.h are in Arith/Exec, the batched calls at the prover
-- in Arith/Batch.antt, and a program over `IntFp` (int_fp.h), from the constructor of the engine to
-- its destructor and the digest of triple_auth.h, in Arith/Program.antt. Arith/Poly.antt is
-- `FpPolyProof` of polynomial.h.
--
-- The background VOLE of the same directory. Pipe.antt is the ring of correlation_pipe.h, each of
-- whose operations holds the mutex; Pipe/System.antt has the steps of the producer's thread, of
-- `draw_vole_` and of the destructor, in any interleaving. A notification is a step after the section
-- under the mutex, and a thread whose predicate does not hold sleeps until it is notified.
-- Pipe/Sleep.antt says when a thread may sleep, Pipe/Progress.antt what every run comes to. Wake-ups
-- without a notification only test the predicate again, and are left out; the vole library's `next_n`
-- is taken to return.
--
-- The two-party Boolean proofs of emp-zk/emp-zk-bool. A block is an element of GF(2^128), a `Field`
-- where the sum is the XOR of the bits, whose last bit is at the prover the bit that it
-- authenticates (ZkBool/Block.antt). ZkBool/Engine.antt has the state of `ZKBoolBase`
-- (zk_bool_base.h), Engine/Prv.antt and Engine/Ver.antt the operations of zk_bool_prover.h and
-- zk_bool_verifier.h, ZkBool/Check.antt the batched check of ANDs over workers and chunks,
-- ZkBool/Vector.antt the vectorized AND, ZkBool/Program.antt a circuit from the constructors to the
-- destructors, ZkBool/Poly.antt the `PolyProof` of polynomial.h. In those files a correlation is
-- the next element of a stream; ZkBool/Cot.antt is how the engine gets it, from a buffer that it
-- refills or from the slots of the background producer. ZkBool/F2k.antt has the wires that carry
-- elements of GF(2^128), with their inputs, products and check, and ZkBool/Prdt.antt the products
-- of 3 to 5 of them (`RamPolyPrdt` of zk_perm_proof.h); ZkBool/Perm.antt has the lists of
-- `ZKPermProof` of that file, their compression and the last comparison. The code of emp-tool is a
-- parameter (ZkBool/Outside.antt): the inner product before and after reduction, and the packing of
-- 128 blocks. Messages are single bits or blocks, in the order in which they are sent.
--
-- The multi-verifier proofs of emp-zk/mvzk. Fp59.antt and its children are fields/fp59.h, on words
-- of 64 bits with their wrap-around, Fp59/Lanes.antt and Fp59/Pair.antt fields/fp59x2.h;
-- Fp59/Ring.antt makes its residues a `Field`. Mvzk/Share.antt has the authenticated shares that
-- each verifier computes alone (zk/utils.h, int_fp.h, zk/verifier.h), Mvzk/Mesh.antt the sums over
-- the others (mesh.h), Mvzk/Verifier.antt the checks of zk/verifier.h.
--
-- The protocol code is written over the interface `Field` (Field.antt), a commutative ring with a
-- test for equality, as the source is over the vole library's F_p or the template parameter T. `a -
-- b` of the source, written `a + (PR - b)`, is the sum with the opposite. Parameters, with what the
-- code relies on, are: the correlations of VOLE, a stream `vole i`; the coefficients `chi` that AES
-- expands from a seed, any function of the check; the hash of the digests, any function; the inner
-- product and the 128-bit product of the vole library, records with their law. Arrays are functions
-- of the index, and messages are lists of field elements; a receive from an empty list waits. An
-- error that ends the verifier is `abort`.
--
-- Fuel: the loop of the inverse takes `a + 1`, the vectorized multiplication and the vectorized AND
-- one more than the gates, the draw of n correlations n + 1, and all are proved to end within it;
-- the rejection sampling ends when a word is accepted.
--
-- Not modelled: the evaluation of the permutation proof at its challenge, memory and sets on it,
-- the conversion between bits and field elements, the polynomials and the compression argument of
-- the multi-verifier proof, and the sockets, sessions and thread pools, which only move data.
pub mod Common
pub mod Field
pub mod Arith
pub mod Pipe
pub mod ZkBool
pub mod Fp59
pub mod Mvzk
pub mod Examples
