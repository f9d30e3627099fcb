-- ===== src/Worker/Ports.antt =====
-- `PortAllocator` of worker/voidz_worker/driver.py. `port_is_free`, a probe of the operating
-- system, is an argument.
pub mod Allocation
use voidz.Prelude.{
  ℕ, zero, suc, ◌+◌, ◌-◌, ◌≡◌, Bool, true, false, not, ◌&&◌, List, [], ◌∷◌, ◌++◌, Option, none,
  some, leb, ◌==◌, contains, keep, if◌then◌else◌, nat_eq,
}

-- `used` is a set: its order means nothing.
pub record PortAllocator : Type 0 where
  pub first_port : ℕ
  pub last_port : ℕ
  pub used : List ℕ

-- `range(first, first + n)`
unfoldable pub range : ℕ → ℕ → List ℕ
range first zero = []
range first (suc n) = first ∷ range (first + 1) n

-- `if preferred and self.start <= preferred <= self.end`
unfoldable pub candidates : Option ℕ → PortAllocator → List ℕ
candidates none p = range p.first_port (p.last_port + 1 - p.first_port)
candidates (some port) p =
    (if not (port == 0) && leb p.first_port port && leb port p.last_port then port ∷ [] else [])
    ++ range p.first_port (p.last_port + 1 - p.first_port)

-- the first candidate that is neither reserved nor taken
unfoldable pub first_free : (ℕ → Bool) → List ℕ → List ℕ → Option ℕ
first_free port_is_free used [] = none
first_free port_is_free used (port ∷ ports) =
    let later = first_free port_is_free used ports in
    if contains used port then later else if port_is_free port then some port else later

-- `none` is `DriverError("no free ports in allocation range")`.
unfoldable pub allocate : (ℕ → Bool) → Option ℕ → PortAllocator → Option (ℕ × PortAllocator)
allocate port_is_free preferred p = elim (first_free port_is_free p.used (candidates preferred p)) [
  | none ↦ none
  | some port ↦ some (port, record p { used = port ∷ p.used })
]

unfoldable pub release : ℕ → PortAllocator → PortAllocator
release port p = if port == 0 then p else record p { used = keep (λ q. not (q == port)) p.used }
