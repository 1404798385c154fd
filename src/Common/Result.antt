-- ===== src/Common/Result.antt =====
-- The exceptions of the code as values.
use Prim.Native.Nat.{ℕ}

-- One constructor for each exception class that the code throws; `failed_assertion` is an `assert`.
pub data Error : Type 0 where
  system_error runtime_error invalid_argument out_of_range deadlock failed_assertion : Error

pub data Result {ℓ} (A : Type ℓ) : Type ℓ where
  ok : A → Result A
  err : Error → Result A

-- The outcome of one `pwrite`, which the operating system chooses.
pub data Io : Type 0 where
  done failed : Io
  short : ℕ → Io

infixl 5 ◌>>=◌ ◌>>◌
abbrev pub ◌>>=◌ {ℓ κ} : {A : Type ℓ} {B : Type κ} → Result A → (A → Result B) → Result B
err e >>= k = err e
ok a >>= k = k a

abbrev pub ◌>>◌ {ℓ} : {B : Type ℓ} → Result (Unit {0}) → Result B → Result B
r >> next = r >>= λ _. next
