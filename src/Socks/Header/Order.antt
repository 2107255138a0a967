-- ===== src/Socks/Header/Order.antt =====
-- The header on the wire is in network order.
use nycu_np.Prelude.{ℕ, ◌+◌, ◌*◌, ◌/◌, ◌%◌, ◌<◌, ◌^◌, [], ◌∷◌, ◌++◌, some, Bytes, ◌≡◌, refl, arith}
use nycu_np.Socks.Header.{Socks4Header, load, store, swap16, swap32}

abbrev pub IsByte : ℕ → Type 0
IsByte b = b < 256

-- What a client sends is read as the protocol says: the port and the address are the numbers of
-- their bytes, the most significant first.
pub load_order :
    (v c p₁ p₀ a₃ a₂ a₁ a₀ : ℕ) (rest : Bytes)
    → IsByte p₁
    → IsByte p₀
    → IsByte a₃
    → IsByte a₂
    → IsByte a₁
    → IsByte a₀
    → (h : Socks4Header) × (load (v ∷ c ∷ p₁ ∷ p₀ ∷ a₃ ∷ a₂ ∷ a₁ ∷ a₀ ∷ rest) ≡ some h)
      × (h.version ≡ v)
      × (h.command ≡ c)
      × (swap16 h.dstport ≡ p₁ * 256 + p₀)
      × (swap32 h.dstaddr ≡ a₃ * 16777216 + a₂ * 65536 + a₁ * 256 + a₀)
unfolding load swap16 swap32
load_order v c p₁ p₀ a₃ a₂ a₁ a₀ rest h₁ h₀ k₃ k₂ k₁ k₀ =
    (_, refl, refl, refl, omega arith, omega arith)

-- A header that is written is read back, whatever stands behind it.
pub load-store :
    (h : Socks4Header) (rest : Bytes)
    → h.dstport < 2 ^ 16
    → h.dstaddr < 2 ^ 32
    → load (store h ++ rest) ≡ some h
unfolding load store
load-store h rest p a = ground arith

-- The reply carries the port with its most significant byte first.
pub store-port :
    (version command port : ℕ)
    → port < 2 ^ 16
    → store (record { version = version; command = command; dstport = swap16 port; dstaddr = 0 })
      ≡ version ∷ command ∷ port / 256 ∷ port % 256 ∷ 0 ∷ 0 ∷ 0 ∷ 0 ∷ []
unfolding store swap16
store-port version command port p = ground arith
