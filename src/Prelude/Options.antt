-- ===== src/Prelude/Options.antt =====
-- Steps that can fail, for do blocks.
use test.Prelude.{Option, none, some}

infixl 55 ◌>>=◌
abbrev pub ◌>>=◌ {ℓ κ} : {A : Type ℓ} {B : Type κ} → Option A → (A → Option B) → Option B
none >>= f = none
some a >>= f = f a
