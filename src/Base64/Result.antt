-- ===== src/Base64/Result.antt =====
-- The status codes of src/misc/rp-base64.h, with what the output parameters receive.
-- `fault` and `stuck` are no C values: a read behind the end of the input, and an exhausted fuel.
pub data Result {ℓ} (A : Type ℓ) : Type ℓ where
  ok : A → Result A
  nomem invalid fault stuck : Result A

infixl 5 ◌>>=◌
abbrev pub ◌>>=◌ {ℓ κ} : {A : Type ℓ} {B : Type κ} → Result A → (A → Result B) → Result B
ok a >>= f = f a
nomem >>= f = nomem
invalid >>= f = invalid
fault >>= f = fault
stuck >>= f = stuck
