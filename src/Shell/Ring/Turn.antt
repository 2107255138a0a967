-- ===== src/Shell/Ring/Turn.antt =====
-- What a slot of the circular buffer holds when the head has moved on.
use nycu_np.Prelude.{
  ℕ, zero, suc, ◌+◌, ◌%◌, ◌==◌, if◌then◌else◌, ◌≡◌, refl, ◌∙◌, ap, arith, ap₂, true,
}
use nycu_np.Shell.Ring.{CircularBuffer, slot, circular_buffer_size, set, get, front, next}

module _ {ℓ} {A : Type ℓ} where
  -- `k` calls of `next`, one for each command line that the shell starts.
  abbrev pub advance : ℕ → CircularBuffer A → CircularBuffer A
  advance zero r = r
  advance (suc k) r = advance k (next r)

  slot_test :
      (r : CircularBuffer A) (n m : ℕ)
      → (slot r m == slot r n) ≡ (n % circular_buffer_size == m % circular_buffer_size)
  slot_test r n m = ground arith

  -- An item that is set `n` places ahead is read back there, and at every place that differs from
  -- `n` by a multiple of the size; every other place keeps its item.
  pub get-set :
      (r : CircularBuffer A) (n m : ℕ) (item : A)
      → get (set r n item) m
        ≡ (if n % circular_buffer_size == m % circular_buffer_size then item else get r m)
  unfolding get set
  get-set r n m item = rw (slot_test r n m)

  advance-head :
      (k : ℕ) (r : CircularBuffer A)
      → (advance k r).head % circular_buffer_size ≡ (r.head + k) % circular_buffer_size
  unfolding next
  advance-head zero r = omega arith
  advance-head (suc k) r = omega (arith, advance-head k (next r))

  advance-buffer : (k : ℕ) (r : CircularBuffer A) → (advance k r).buffer ≡ r.buffer
  unfolding next
  advance-buffer zero r = refl
  advance-buffer (suc k) r = advance-buffer k (next r)

  front-advance_lem :
      (k : ℕ) (r : CircularBuffer A)
      → front (advance k r) ≡ r.buffer ((r.head + k) % circular_buffer_size)
  unfolding front
  front-advance_lem k r = ap₂ (λ f i. f i) (advance-buffer k r) (advance-head k r)

  set_hit :
      (r : CircularBuffer A) (n : ℕ) → ((r.head + n) % circular_buffer_size == slot r n) ≡ true
  set_hit r n = ground arith

  -- The item that is set `n` places ahead is at the front after `n` calls of `next`.
  front-advance-set :
      (n : ℕ) (r : CircularBuffer A) (item : A) → front (advance n (set r n item)) ≡ item
  unfolding set
  front-advance-set n r item = front-advance_lem n (set r n item) ∙ rw (set_hit r n)

  -- After as many calls of `next` as the buffer has places the same item is at the front again:
  -- `next` takes nothing out.
  pub front-advance-size : (r : CircularBuffer A) → front (advance circular_buffer_size r) ≡ front r
  unfolding front
  front-advance-size r = front-advance_lem circular_buffer_size r ∙ ap r.buffer (omega arith)
