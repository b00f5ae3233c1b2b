-- ===== src/Fp59/Ring.antt =====
-- The operations of fp59.h on residues make up a `Field`, the interface that the generic protocol
-- code takes.
use vole_zk.Common.{ℕ, ◌+◌, ◌*◌, ◌/◌, ◌%◌, ◌<◌, ◌==◌, ==_iff, ◌≡◌, sym, ap, ◌∙◌, arith}
use native.Mathlib.Nat.{mul_comm, mul_assoc, mul-add, add-mod, mod-add-div, add-mul-mod_self_left}
use Prim.Native.Nat.{Fin}
use native.Mathlib.Fin.{val_path}
use vole_zk.Field.{Field}
use vole_zk.Fp59.{pr, add_mod, negate, mult_mod, Mul64}
use vole_zk.Fp59.Reduce.{add_mod_lem, negate_lem}
use vole_zk.Fp59.Product.{mult_mod_lem}

residue_bound : (n : ℕ) → n % pr < pr
residue_bound n = omega arith

pub add_bound : (a b : ℕ) → a < pr → b < pr → add_mod a b < pr
add_bound a b ha hb = rw (add_mod_lem a b ha (omega arith)) (residue_bound (a + b))

pub negate_bound : (a : ℕ) → a < pr → negate a < pr
unfolding negate
negate_bound a h = ground arith

pub mul_bound : (m : Mul64) (a b : ℕ) → a < pr → b < pr → mult_mod m a b < pr
mul_bound m a b ha hb = rw (mult_mod_lem m a b ha hb) (residue_bound (a * b))

-- A residue may be taken of either factor first.
mul_residue : (n a b : ℕ) → a % n * b % n ≡ a * b % n
mul_residue n a b =
    sym (add-mul-mod_self_left (a % n * b) n (a / n * b))
    ∙ ap (λ t. t % n) (regroup ∙ ap (λ t. t * b) (mod-add-div a n))
  where
    regroup : a % n * b + n * (a / n * b) ≡ (a % n + n * (a / n)) * b
    regroup = grind arith

residue_mul : (n a b : ℕ) → a * (b % n) % n ≡ a * b % n
residue_mul n a b =
    ap (λ t. t % n) (mul_comm a (b % n)) ∙ mul_residue n b a ∙ ap (λ t. t % n) (mul_comm b a)

pub add_mod_assoc :
    (a b c : ℕ) → a < pr → b < pr → c < pr → add_mod (add_mod a b) c ≡ add_mod a (add_mod b c)
add_mod_assoc a b c ha hb hc =
    rw
      (
        add_mod_lem (add_mod a b) c (add_bound a b ha hb) (omega arith),
        add_mod_lem a (add_mod b c) ha (omega (arith, add_bound b c hb hc)),
        add_mod_lem a b ha (omega arith),
        add_mod_lem b c hb (omega arith),
      )
      (omega arith)

pub add_mod_comm : (a b : ℕ) → a < pr → b < pr → add_mod a b ≡ add_mod b a
add_mod_comm a b ha hb =
    rw (add_mod_lem a b ha (omega arith), add_mod_lem b a hb (omega arith)) (omega arith)

pub add_mod-zero : (a : ℕ) → a < pr → add_mod a 0 ≡ a
add_mod-zero a ha = rw (add_mod_lem a 0 ha (omega arith)) (omega arith)

pub add_mod-negate : (a : ℕ) → a < pr → add_mod a (negate a) ≡ 0
add_mod-negate a ha =
    add_mod_lem a (negate a) ha (omega (arith, negate_bound a ha)) ∙ negate_lem a ha

module _ (m : Mul64) where
  pub mult_mod_assoc :
      (a b c : ℕ)
      → a < pr
      → b < pr
      → c < pr
      → mult_mod m (mult_mod m a b) c ≡ mult_mod m a (mult_mod m b c)
  mult_mod_assoc a b c ha hb hc =
      rw
        (
          mult_mod_lem m (mult_mod m a b) c (mul_bound m a b ha hb) hc,
          mult_mod_lem m a (mult_mod m b c) ha (mul_bound m b c hb hc),
          mult_mod_lem m a b ha hb,
          mult_mod_lem m b c hb hc,
        )
        (mul_residue pr (a * b) c
          ∙ ap (λ t. t % pr) (mul_assoc a b c)
          ∙ sym (residue_mul pr a (b * c)))

  pub mult_mod_comm : (a b : ℕ) → a < pr → b < pr → mult_mod m a b ≡ mult_mod m b a
  mult_mod_comm a b ha hb =
      rw (mult_mod_lem m a b ha hb, mult_mod_lem m b a hb ha) (ap (λ t. t % pr) (mul_comm a b))

  pub mult_mod-one : (a : ℕ) → a < pr → mult_mod m a 1 ≡ a
  mult_mod-one a ha = rw (mult_mod_lem m a 1 ha (omega arith)) (omega arith)

  pub mult_mod-add :
      (a b c : ℕ)
      → a < pr
      → b < pr
      → c < pr
      → mult_mod m a (add_mod b c) ≡ add_mod (mult_mod m a b) (mult_mod m a c)
  mult_mod-add a b c ha hb hc =
      rw
        (
          mult_mod_lem m a (add_mod b c) ha (add_bound b c hb hc),
          add_mod_lem (mult_mod m a b) (mult_mod m a c) (mul_bound m a b ha hb)
              (omega (arith, mul_bound m a c ha hc)),
          add_mod_lem b c hb (omega arith),
          mult_mod_lem m a b ha hb,
          mult_mod_lem m a c ha hc,
        )
        (residue_mul pr a (b + c) ∙ ap (λ t. t % pr) (mul-add a b c) ∙ add-mod (a * b) (a * c) pr)

-- The words below p, with the sums, products and opposites of fp59.h, are a commutative ring in
-- which the test for equality decides equality.
unfoldable pub fp59_field : Mul64 → Field (Fin pr)
fp59_field m = record {
  zero = (0, omega arith);
  one = (1, omega arith);
  add = λ a b. (add_mod a.0 b.0, add_bound a.0 b.0 a.1 b.1);
  mul = λ a b. (mult_mod m a.0 b.0, mul_bound m a.0 b.0 a.1 b.1);
  neg = λ a. (negate a.0, negate_bound a.0 a.1);
  beq = λ a b. a.0 == b.0;
  add_assoc = λ a b c. val_path (add_mod_assoc a.0 b.0 c.0 a.1 b.1 c.1);
  add_comm = λ a b. val_path (add_mod_comm a.0 b.0 a.1 b.1);
  add-zero = λ a. val_path (add_mod-zero a.0 a.1);
  add-neg = λ a. val_path (add_mod-negate a.0 a.1);
  mul_assoc = λ a b c. val_path (mult_mod_assoc m a.0 b.0 c.0 a.1 b.1 c.1);
  mul_comm = λ a b. val_path (mult_mod_comm m a.0 b.0 a.1 b.1);
  mul-one = λ a. val_path (mult_mod-one m a.0 a.1);
  mul-add = λ a b c. val_path (mult_mod-add m a.0 b.0 c.0 a.1 b.1 c.1);
  beq_iff =
      λ a b. (λ e. val_path ((==_iff a.0 b.0).0 e), λ e. (==_iff a.0 b.0).1 (ap (λ x. x.0) e));
}
