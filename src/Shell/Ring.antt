-- ===== src/Shell/Ring.antt =====
-- 312552017_np_project2/shell/util.hpp: `circular_buffer`, which holds the numbered pipes.
pub mod Turn
use nycu_np.Prelude.{ℕ, ◌+◌, ◌%◌, ◌^◌, ◌==◌, if◌then◌else◌}

abbrev pub circular_buffer_size : ℕ
circular_buffer_size = 1024

-- `size_t` has 64 bits.
abbrev pub size_t_mod : ℕ
size_t_mod = 2 ^ 64

-- The array is a function of the index; an index is always reduced below the size.
pub record CircularBuffer {ℓ} (A : Type ℓ) : Type ℓ where
  pub head : ℕ
  pub buffer : ℕ → A

module _ {ℓ} {A : Type ℓ} where
  abbrev pub slot : CircularBuffer A → ℕ → ℕ
  slot r n = (r.head + n) % size_t_mod % circular_buffer_size

  -- Every element of a fresh buffer is the default-constructed item.
  unfoldable pub empty_buffer : A → CircularBuffer A
  empty_buffer item = record { head = 0; buffer = λ _. item }

  unfoldable pub set : CircularBuffer A → ℕ → A → CircularBuffer A
  set r n item = record r { buffer = λ i. if i == slot r n then item else r.buffer i }

  unfoldable pub get : CircularBuffer A → ℕ → A
  get r n = r.buffer (slot r n)

  unfoldable pub front : CircularBuffer A → A
  front r = r.buffer (r.head % circular_buffer_size)

  unfoldable pub next : CircularBuffer A → CircularBuffer A
  next r = record r { head = (r.head + 1) % size_t_mod % circular_buffer_size }
