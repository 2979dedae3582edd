-- ===== src/EvMgr/Narrowing.antt =====
-- A step of the slice of time that src/sandbox/ev-mgr.c makes for its timers.
use rp_lib_utils.Common.{
  ℕ, ◌+◌, ◌<◌, ◌≤◌, ◌^◌, ◌≡◌, refl, arith, Bool-cases, ◌⊎◌, inl, inr, ltb, leb,
}
use rp_lib_utils.EvMgr.Timers.{Slice, narrowed}

pub record Fits (s : Slice) : Type 0 where
  pub ordered : s.lower ≤ s.upper
  pub small : s.lower + s.upper < 2 ^ 64

-- What a timer from `lo` to `up` makes of a slice.
pub record Cut (s : Slice) (lo up : ℕ) (s' : Slice) : Type 0 where
  pub fits : Fits s'
  pub less : s'.upper ≤ s.upper
  pub served : s'.upper ≤ up
  pub started : 0 < s'.lower
  pub from : (s'.lower ≡ s.lower) ⊎ (s'.lower ≡ lo)

cut :
    {s : Slice} {lo up : ℕ} (s' : Slice)
    → s'.lower ≤ s'.upper
    → s'.lower + s'.upper < 2 ^ 64
    → s'.upper ≤ s.upper
    → s'.upper ≤ up
    → 0 < s'.lower
    → (s'.lower ≡ s.lower) ⊎ (s'.lower ≡ lo)
    → Cut s lo up s'
cut s' ordered small less served started from = record {
  fits = record { ordered = ordered; small = small };
  less = less;
  served = served;
  started = started;
  from = from;
}

pub narrowed-Cut :
    (s : Slice) (lo up : ℕ)
    → Fits s
    → 0 < lo
    → lo ≤ up
    → up < 2 ^ 63
    → lo ≤ s.upper
    → Cut s lo up (narrowed s lo up)
unfolding narrowed
narrowed-Cut s lo up f z o b h = elim (Bool-cases (leb up s.lower)) [
  | inl t ↦
      rw t (cut _ o (omega (arith, o, b)) (ground (arith, t, f.ordered)) (omega arith) z (inr refl))
  | inr t ↦ rw t (elim (Bool-cases (ltb s.lower lo)) [
    | inl l ↦ rw l (elim (Bool-cases (ltb up s.upper)) [
      | inl u ↦ rw u (cut _ o (omega (arith, o, b)) (ground (arith, u)) (omega arith) z (inr refl))
      | inr u ↦
          rw u (cut _ h (ground (arith, h, o, b, u)) (omega arith) (ground (arith, u)) z (inr refl))
    ])
    | inr l ↦ rw l (elim (Bool-cases (ltb up s.upper)) [
      | inl u ↦ rw u (
          cut _ (ground (arith, t)) (ground (arith, t, b)) (ground (arith, u)) (omega arith)
            (ground (arith, z, l)) (inl refl))
      | inr u ↦ rw u (
          cut _ f.ordered f.small (omega arith) (ground (arith, u)) (ground (arith, z, l))
            (inl refl))
    ])
  ])
]
