-- ===== src/Sched/Ring.antt =====
-- The run queue as a list: each task links to the next one, the last to the first.
use revinix_os.Base.{ℕ, ◌≡◌, sym, ◌≢◌, List, [], ◌∷◌, ==_ne, update}
use revinix_os.Sched.{Task}

abbrev pub head_or : List ℕ → ℕ → ℕ
head_or [] d = d
head_or (x ∷ xs) d = x

-- From the first task of the list on, the links run through the list and then lead to `q`.
abbrev pub Linked : (ℕ → Task) → List ℕ → ℕ → Type 0
Linked m [] q = Unit {0}
Linked m (x ∷ xs) q = ((m x).next ≡ head_or xs q) × Linked m xs q

abbrev pub Absent : ℕ → List ℕ → Type 0
Absent y [] = Unit {0}
Absent y (x ∷ xs) = (y ≢ x) × Absent y xs

abbrev pub Distinct : List ℕ → Type 0
Distinct [] = Unit {0}
Distinct (x ∷ xs) = Absent x xs × Distinct xs

-- The tasks of a ring that starts at `x`: no NULL, no task twice.
pub record IsRing (m : ℕ → Task) (x : ℕ) (xs : List ℕ) : Type 0 where
  pub linked : Linked m (x ∷ xs) x
  pub distinct : Distinct (x ∷ xs)
  pub live : Absent 0 (x ∷ xs)

-- A write to a task that is not in the list keeps the links.
pub Linked-frame :
    (m : ℕ → Task) (xs : List ℕ) (q t : ℕ) (v : Task)
    → Absent t xs
    → Linked m xs q
    → Linked (update m t v) xs q
unfolding update
Linked-frame m [] q t v out h = tt
Linked-frame m (x ∷ xs) q t v (ne, out) (e, h) =
    (rw (==_ne x t (λ c. ne (sym c))) e, Linked-frame m xs q t v out h)
