-- ===== src/Fp59/Inverse/Laws.antt =====
-- The loop of `mod_inv` (mvzk/fields/fp59.h): its invariant, its end, and its result.
use native.Mathlib.Nat.{div-mul-le_self, mod-eq-sub-div-mul, mod-lt}
use vole_zk.Common.{
  ℕ, zero, suc, ◌+◌, ◌-◌, ◌*◌, ◌/◌, ◌%◌, ◌≤◌, ◌<◌, Option, some, ◌==◌, Bool-cases, false, ◌≡◌, inl,
  inr, refl, ap, arith,
}
use vole_zk.Common.Int.{ℤ, pos, negsuc, pos_part, neg_part, ◌-ℤ◌, scale}
use vole_zk.Fp59.{pr}
use vole_zk.Fp59.Inverse.{Euclid, euclid_step, euclid, euclid_start, lift_negative, mod_inv}

-- `k a ≡ r` modulo p, with the two multiples of p written out.
abbrev pub Bezout : ℕ → ℤ → ℕ → Type 0
Bezout a k r = (x : ℕ) × (y : ℕ) × (pos_part k * a + x * pr ≡ r + neg_part k * a + y * pr)

abbrev pub size : ℤ → ℕ
size k = pos_part k + neg_part k

-- The invariant of the loop: both pairs are combinations of `a`, whose sizes the
-- remainders bound.
pub record Inv (a : ℕ) (s : Euclid) : Type 0 where
  pub old : Bezout a s.k s.r
  pub new : Bezout a s.new_k s.new_r
  pub decreasing : s.new_r < s.r
  pub within : s.r ≤ pr
  pub balance : size s.k * s.new_r + size s.new_k * s.r ≤ pr
  pub half : 2 * size s.k ≤ pr

pub start-Inv : (a : ℕ) → 0 < a → a < pr → Inv a (euclid_start a)
unfolding euclid_start
start-Inv a pos_a h = record {
  old = (1, 0, omega arith);
  new = (0, 0, omega arith);
  decreasing = h;
  within = omega arith;
  balance = omega arith;
  half = omega arith;
}

sub_parts :
    (k n : ℤ) (q : ℕ)
    → pos_part (k -ℤ scale q n) + neg_part k + q * pos_part n
      ≡ neg_part (k -ℤ scale q n) + pos_part k + q * neg_part n
unfolding ◌-ℤ◌ scale
sub_parts k n q = ground arith

pub size-sub : (k n : ℤ) (q : ℕ) → size (k -ℤ scale q n) ≤ size k + q * size n
unfolding ◌-ℤ◌ scale
size-sub k n q = ground arith

-- One round: `k a ≡ r` and `n a ≡ m` give `(k - q n) a ≡ r - q m`.
step-Bezout :
    (a q r m : ℕ) (k n : ℤ)
    → q * m ≤ r
    → Bezout a k r
    → Bezout a n m
    → Bezout a (k -ℤ scale q n) (r - q * m)
step-Bezout a q r m k n le (x, y, e) (x', y', e') = (
  x + q * y',
  y + q * x',
  omega (arith, ap (λ (t : ℕ). t * a) (sub_parts k n q), ap (λ (t : ℕ). q * t) e'),
)

pub quotient : (r m : ℕ) → 0 < m → (r / m * m ≤ r) × (r - r / m * m < m)
quotient r m h = (div-mul-le_self r m, rw (← mod-eq-sub-div-mul r m) (mod-lt r h))

pub mul_mono : (a b c : ℕ) → a ≤ b → a * c ≤ b * c
mul_mono a b c h = grind arith

step-balance :
    (u w v r m q : ℕ)
    → q * m ≤ r
    → w ≤ u + q * v
    → u * m + v * r ≤ pr
    → v * (r - q * m) + w * m ≤ pr
step-balance u w v r m q le hw h =
    omega (arith, mul_mono w (u + q * v) m hw, ap (λ (t : ℕ). v * t) (rest q m r le))
  where
    rest : (q m r : ℕ) → q * m ≤ r → r - q * m + q * m ≡ r
    rest q m r le = omega arith

half_bound : (v r m u : ℕ) → 0 < m → m < r → u * m + v * r ≤ pr → 2 * v ≤ pr
half_bound v r m u h lt b = omega (arith, mul_mono 2 r v (omega arith))

pub euclid_step-Inv : {a : ℕ} {s : Euclid} → Inv a s → 0 < s.new_r → Inv a (euclid_step s)
unfolding euclid_step
euclid_step-Inv {a} {s} v h =
    let q = quotient s.r s.new_r h in
    record {
      old = v.new;
      new = step-Bezout a (s.r / s.new_r) s.r s.new_r s.k s.new_k q.0 v.old v.new;
      decreasing = q.1;
      within = omega (arith, v.decreasing, v.within);
      balance =
          step-balance (size s.k) _ (size s.new_k) s.r s.new_r (s.r / s.new_r) q.0
            (size-sub s.k s.new_k (s.r / s.new_r)) v.balance;
      half = half_bound (size s.new_k) s.r s.new_r (size s.k) h v.decreasing v.balance;
    }

-- The end of the loop, `r` being a common divisor of the two remainders it began with.
record Ended (a : ℕ) (s : Euclid) (answer : Option Euclid) : Type 0 where
  last : Euclid
  answered : answer ≡ some last
  valid : Inv a s → (Bezout a last.k last.r) × (2 * size last.k ≤ pr)
  divides_r : (u : ℕ) × (s.r ≡ u * last.r)
  divides_new : (u : ℕ) × (s.new_r ≡ u * last.r)

common_divisor : (r m q g u w : ℕ) → q * m ≤ r → m ≡ u * g → r - q * m ≡ w * g → r ≡ (w + q * u) * g
common_divisor r m q g u w le e e' = omega (arith, ap (λ (t : ℕ). q * t) e)

euclid_lem : (fuel a : ℕ) (s : Euclid) → s.new_r < fuel → s.new_r < s.r → Ended a s (euclid fuel s)
unfolding euclid euclid_step
euclid_lem zero a s h lt = absurd (omega arith)
euclid_lem (suc fuel) a s h lt = elim (Bool-cases (s.new_r == 0)) [
  | inl stop ↦ rw stop (record {
    last = s;
    answered = refl;
    valid = λ v. (v.old, v.half);
    divides_r = (1, omega arith);
    divides_new = (0, ground arith);
  })
  | inr more ↦
      let q = quotient s.r s.new_r (ground arith) in
      let ih = euclid_lem fuel a (euclid_step s) (omega arith) q.1 in
      rw more (record {
        last = ih.last;
        answered = ih.answered;
        valid = λ v. ih.valid (euclid_step-Inv v (ground arith));
        divides_r = (
          _,
          common_divisor s.r s.new_r (s.r / s.new_r) (ih.last).r (ih.divides_r).0 (ih.divides_new).0
              q.0 (ih.divides_r).1 (ih.divides_new).1,
        );
        divides_new = ih.divides_r;
      })
]

mod_one : (t x y : ℕ) → t + x * pr ≡ 1 + y * pr → t % pr ≡ 1
mod_one t x y h = omega arith

lift_negative_lem :
    (a : ℕ) (k : ℤ)
    → Bezout a k 1
    → 2 * size k ≤ pr
    → (lift_negative k < pr) × (lift_negative k * a % pr ≡ 1)
unfolding lift_negative
lift_negative_lem a (pos n) (x, y, e) h = (omega arith, mod_one (n * a) x y (omega arith))
lift_negative_lem a (negsuc n) (x, y, e) h =
    (omega arith, mod_one ((pr - suc n) * a) x (a + y) (omega (arith, ap (λ (t : ℕ). t * a) whole)))
  where
    whole : pr - suc n + suc n ≡ pr
    whole = omega arith

-- For 0 < a < p with no divisor but 1 in common with p, the loop of the inverse ends within the
-- fuel `a + 1` of the model, and the result is a residue `b` with `b a = 1` modulo p.
pub mod_inv_lem :
    (a : ℕ)
    → 0 < a
    → a < pr
    → ((g u v : ℕ) → a ≡ u * g → pr ≡ v * g → g ≡ 1)
    → (b : ℕ) × (mod_inv a ≡ some b) × (b < pr) × (b * a % pr ≡ 1)
unfolding mod_inv
mod_inv_lem a pos_a h coprime =
    let ended =
      euclid_lem (suc a) a (euclid_start a) (unfold euclid_start in omega arith)
        (unfold euclid_start in h) in
    let s = ended.last in
    let one : s.r ≡ 1 =
      coprime s.r (ended.divides_new).0 (ended.divides_r).0
        (unfold euclid_start in (ended.divides_new).1)
        (unfold euclid_start in (ended.divides_r).1) in
    let bounds = ended.valid (start-Inv a pos_a h) in
    let lifted = lift_negative_lem a s.k (rw one at bounds.0) bounds.1 in
    (lift_negative s.k, rw (nonzero, ended.answered), lifted.0, lifted.1)
  where
    nonzero : (a == 0) ≡ false
    nonzero = ground arith
