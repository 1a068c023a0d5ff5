-- ===== src/Ports.antt =====
-- kernel/arch/x86_64/io.h: the port instructions.
-- What the devices behind the ports do is not code of the repository, so the bus is a parameter: a
-- type of states with the operations below.
use revinix_os.Base.{ℕ}

-- `inb d p` is the byte that a read gives and `inb_next d p` the bus after it; `insw` and `outsw` move
-- 256 words, which `insw d p i` numbers.
pub record Bus (D : Type 0) : Type 0 where
  pub inb : D → ℕ → ℕ
  pub inb_next : D → ℕ → D
  pub outb : D → ℕ → ℕ → D
  pub insw : D → ℕ → ℕ → ℕ
  pub insw_next : D → ℕ → D
  pub outsw : D → ℕ → (ℕ → ℕ) → D
