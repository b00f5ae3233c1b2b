-- ===== src/ZkBool/Vector/Verifier.antt =====
-- A vectorized AND at the verifier is the single ANDs, one after the other.
use vole_zk.Common.{
  ℕ, suc, ◌+◌, ◌≤◌, ◌<◌, ◌==◌, Bool-cases, List, [], ◌∷◌, length, ◌≡◌, refl, sym, ap, ◌∙◌, inl, inr,
  arith,
}
use vole_zk.Field.{Field}
use vole_zk.Arith.Engine.{Result, done, abort, waiting, ◌>>=◌}
use vole_zk.ZkBool.Block.{Blocks}
use vole_zk.ZkBool.Check.{Message, bit, block, recv_bit}
use vole_zk.ZkBool.Engine.{Engine, Setup}
use vole_zk.ZkBool.Engine.Ver.{check_recv, room_recv, slot_recv, auth_compute_and, and_block}
use vole_zk.ZkBool.Vector.{and_blocks_recv, each_recv, blocks_recv}
use vole_zk.ZkBool.Vector.Waves.{>>=_assoc, >>=_congr, after, vector_recv_lem}

module _ {ℓ} {A W : Type ℓ} ⦃f : Field A⦄ ⦃b : Blocks A⦄ (c : Setup A W) (cot : ℕ → A)
    (delta : A) where
  -- The count of gates has no part in a gate.
  abbrev counted : ℕ → Engine A × List (Message A) × A → Result (Engine A × List (Message A) × A)
  counted g (s, rest, wire) = done (record s { gid = g }, rest, wire)

  slot_apart :
      (s : Engine A) (g : ℕ) (l r : A) (inbox : List (Message A))
      → slot_recv delta c cot (record s { gid = g }) l r inbox
        ≡ (slot_recv delta c cot s l r inbox >>= counted g)
  unfolding slot_recv recv_bit
  slot_apart s g l r [] = refl
  slot_apart s g l r (bit d ∷ inbox) = refl
  slot_apart s g l r (block x ∷ inbox) = refl

  -- The three steps of a gate that a check comes before.
  abbrev counted_check : Engine A → List (Message A) → Result (Engine A × List (Message A))
  counted_check s rest = done (record s { cots = s.cots + 128; checks = s.checks + 1 }, rest)

  abbrev reset : Engine A × List (Message A) → Result (Engine A × List (Message A))
  reset (s, rest) = done (record s { check_cnt = 0 }, rest)

  abbrev gate : A → A → Engine A × List (Message A) → Result (Engine A × List (Message A) × A)
  gate l r (s, rest) = slot_recv delta c cot s l r rest

  -- The same for such a gate, `m` the answer of the exchange.
  checked_apart :
      (s : Engine A) (g : ℕ) (l r : A) (m : Result (List (Message A)))
      → (((m >>= counted_check (record s { gid = g })) >>= reset) >>= gate l r)
        ≡ ((((m >>= counted_check s) >>= reset) >>= gate l r) >>= counted g)
  checked_apart s g l r (done rest) = slot_apart _ g l r rest
  checked_apart s g l r abort = refl
  checked_apart s g l r waiting = refl

  gid_apart :
      (s : Engine A) (g : ℕ) (l r : A) (inbox : List (Message A))
      → auth_compute_and delta c cot (record s { gid = g }) l r inbox
        ≡ (auth_compute_and delta c cot s l r inbox >>= counted g)
  unfolding auth_compute_and room_recv check_recv
  gid_apart s g l r inbox = elim (Bool-cases (s.check_cnt == c.check_sz)) [
    | inr free ↦ rw free (slot_apart s g l r inbox)
    | inl full ↦ rw full (checked_apart s g l r _)
  ]

  blocks_lem :
      (gates : List (A × A)) (s : Engine A) (inbox : List (Message A))
      → blocks_recv c cot delta s gates inbox
        ≡ each_recv c cot delta (record s { gid = s.gid + length gates }) gates inbox
  unfolding blocks_recv each_recv and_block
  blocks_lem [] s inbox = ap (λ g. done (record s { gid = g }, inbox, [])) (omega arith)
  blocks_lem ((l, r) ∷ gates) s inbox =
      rw (gid_apart s (s.gid + 1) l r inbox, gid_apart s (s.gid + suc (length gates)) l r inbox)
        (>>=_assoc (auth_compute_and delta c cot s l r inbox) _ _
          ∙ >>=_congr (auth_compute_and delta c cot s l r inbox) (λ o _.
            (ap (after c cot delta (o.2 ∷ [])) (
              blocks_lem gates (record o.0 { gid = s.gid + 1 }) o.1
              ∙ ap (λ g. each_recv c cot delta (record o.0 { gid = g }) gates o.1)
                  {x = s.gid + 1 + length gates} {y = s.gid + suc (length gates)} (omega arith))))
          ∙ sym (>>=_assoc (auth_compute_and delta c cot s l r inbox) _ _))

  -- On buffers of a slot or more that are not overfull, and on any messages, a vectorized AND gives
  -- the answer of the single ANDs, one after the other: the same state, wires and rest of the
  -- messages, or the same failure.
  pub and_blocks_recv_lem :
      (s : Engine A) (gates : List (A × A)) (inbox : List (Message A))
      → 0 < c.check_sz
      → s.check_cnt ≤ c.check_sz
      → and_blocks_recv c cot delta s gates inbox ≡ blocks_recv c cot delta s gates inbox
  unfolding and_blocks_recv
  and_blocks_recv_lem s gates inbox size fits =
      vector_recv_lem c cot delta (length gates + 1) (record s { gid = s.gid + length gates }) gates
        inbox size fits (omega arith)
      ∙ sym (blocks_lem gates s inbox)
