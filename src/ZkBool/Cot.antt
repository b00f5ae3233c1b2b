-- ===== src/ZkBool/Cot.antt =====
-- The correlations that the engine of emp-zk-bool draws (zk_bool_base.h): from a buffer that is
-- refilled in bulk, or from the rounds that the background producer puts into the pipe.
pub mod Laws
pub mod Modes
use vole_zk.Common.{
  ℕ, zero, suc, ◌+◌, ◌-◌, ◌*◌, ◌/◌, ◌≤◌, ◌<◌, ltb, leb, ◌==◌, ◌&&◌, if◌then◌else◌, min, Bool, true,
  false, Option, none, some, ◌≡◌,
}
use vole_zk.Arith.Engine.{Result, done, abort, waiting, ◌>>=◌}

-- What both modes offer to the two draws: `ready` gets more if nothing is left, `avail` is how
-- many can be copied at once, and `advance` moves past what was copied.
pub record Source {ℓ} (S A : Type ℓ) : Type ℓ where
  pub ready : S → Result S
  pub avail : S → ℕ
  pub read : S → ℕ → A
  pub advance : ℕ → S → S

module _ {ℓ} {S A : Type ℓ} (src : Source S A) where
  unfoldable pub draw_one_cot : S → Result (A × S)
  draw_one_cot s = src.ready s >>= λ s'. done (src.read s' 0, src.advance 1 s')

  -- `memcpy(out + got, ..., take)`
  abbrev pub copied : (ℕ → A) → ℕ → ℕ → (ℕ → A) → ℕ → A
  copied out got take block j = if leb got j && ltb j (got + take) then block (j - got) else out j

  -- The loop of `draw_cot_` on fuel, `got` of the `n` drawn; without fuel it is still `waiting`.
  unfoldable pub draw_loop : ℕ → ℕ → ℕ → (ℕ → A) → S → Result ((ℕ → A) × S)
  draw_loop zero n got out s = waiting
  draw_loop (suc fuel) n got out s =
      let round = src.ready s >>= λ s'.
      let take = min (n - got) (src.avail s') in
      draw_loop fuel n (got + take) (copied out got take (src.read s')) (src.advance take s') in
      if ltb got n then round else done (out, s)

  unfoldable pub draw_cot : (ℕ → A) → ℕ → S → Result ((ℕ → A) × S)
  unfolding draw_loop
  draw_cot out n s = draw_loop (n + 1) n 0 out s

-- The prefetch buffer. `produced` counts what the Ferret has given, the `i`-th of it `ferret i`.
pub record Prefetch {ℓ} (A : Type ℓ) : Type ℓ where
  pub buf : ℕ → A
  pub pos : ℕ
  pub have : ℕ
  pub produced : ℕ

module _ {ℓ} {A : Type ℓ} (ferret : ℕ → A) (chunk size : ℕ) where
  -- `cot_refill_`: as many whole chunks as fit.
  unfoldable pub cot_refill : Prefetch A → Prefetch A
  cot_refill s =
      let nch = size / chunk in
      record {
        buf = λ i. if ltb i (nch * chunk) then ferret (s.produced + i) else s.buf i;
        pos = 0;
        have = nch * chunk;
        produced = s.produced + nch * chunk;
      }

  abbrev pub prefetch : Source (Prefetch A) A
  prefetch = record {
    ready = λ s. done (if s.pos == s.have then cot_refill s else s);
    avail = λ s. s.have - s.pos;
    read = λ s i. s.buf (s.pos + i);
    advance = λ m s. record s { pos = s.pos + m };
  }

-- The slot of the pipe that is drained, if one is held; `taken` counts the slots acquired.
pub record Background {ℓ} (A : Type ℓ) : Type ℓ where
  pub slot : ℕ → A
  pub held : Bool
  pub off : ℕ
  pub taken : ℕ

-- `acquire r` is what `acquire_ready` gives the `r`-th time, nothing when the pipe was closed.
module _ {ℓ} {A : Type ℓ} (acquire : ℕ → Option (ℕ → A)) (batch : ℕ) where
  unfoldable pub bg_next_slot : Background A → Result (Background A)
  bg_next_slot s = elim (acquire s.taken) [
    | none ↦ abort
    | some round ↦ done (record { slot = round; held = true; off = 0; taken = s.taken + 1 })
  ]

  -- A slot that was drained is released.
  unfoldable pub bg_advance : ℕ → Background A → Background A
  bg_advance m s =
      if s.off + m == batch
      then record s { off = s.off + m; held = false }
      else record s { off = s.off + m }

  abbrev pub background : Source (Background A) A
  background = record {
    ready = λ s. if s.held then done s else bg_next_slot s;
    avail = λ s. batch - s.off;
    read = λ s i. s.slot (s.off + i);
    advance = bg_advance;
  }
