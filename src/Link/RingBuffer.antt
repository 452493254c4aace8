-- ===== src/Link/RingBuffer.antt =====
-- RingBufCPP, the third-party queue of src/LoLaLinkInfo.h and
-- src/Services/Link/LoLaLinkLatencyMeter.h. Its operations are parameters; a law states what its
-- documentation promises.
use lo_la.Prelude.{ℕ, ◌+◌, ◌-◌, ◌≤◌, ◌<◌, min, Bool, ◌≡◌, ◌⊎◌, ◌==◌}

pub record RingBuffer (B : Type 0) : Type 0 where
  pub is_empty : B → Bool
  pub num_elements : B → ℕ
  pub peek : B → ℕ → ℕ
  pub pull : B → B
  -- Drops the oldest element when the queue is full.
  pub add_force : ℕ → B → B

pub record IsLawful {B : Type 0} (size : ℕ) (r : RingBuffer B) : Type 0 where
  pub is_empty-num_elements : (b : B) → r.is_empty b ≡ (r.num_elements b == 0)
  pub num_elements-le : (b : B) → r.num_elements b ≤ size
  pub num_elements-pull : (b : B) → r.num_elements (r.pull b) ≡ r.num_elements b - 1
  pub num_elements-add_force :
      (x : ℕ) (b : B) → r.num_elements (r.add_force x b) ≡ min size (r.num_elements b + 1)
  pub peek-add_force :
      (x : ℕ) (b : B) (i : ℕ)
      → i < r.num_elements (r.add_force x b)
      → (r.peek (r.add_force x b) i ≡ x)
        ⊎ ((j : ℕ) × (j < r.num_elements b) × (r.peek (r.add_force x b) i ≡ r.peek b j))
