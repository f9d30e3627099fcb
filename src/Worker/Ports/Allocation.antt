-- ===== src/Worker/Ports/Allocation.antt =====
-- What `allocate` gives out (worker/voidz_worker/driver.py).
use voidz.Prelude.{
  ℕ, zero, suc, ◌+◌, ◌-◌, ◌≤◌, ◌≡◌, ◌≢◌, refl, Bool, true, false, not, ◌&&◌, ◌||◌, List, [], ◌∷◌,
  ◌++◌, Option, none, some, leb, ◌==◌, contains, keep, if◌then◌else◌, nat_eq, arith, ◌⊎◌, inl, inr,
  Option-cases,
}
use voidz.Worker.Ports.{PortAllocator, range, candidates, first_free, allocate, release}

first_free-some :
    (port_is_free : ℕ → Bool) (used ports : List ℕ) (port : ℕ)
    → first_free port_is_free used ports ≡ some port
    → (contains used port ≡ false) × (port_is_free port ≡ true) × (contains ports port ≡ true)
unfolding first_free contains
first_free-some port_is_free used [] port h = cc
first_free-some port_is_free used (p ∷ ports) port h =
    ground (arith, h, first_free-some port_is_free used ports port)

first_free-none :
    (port_is_free : ℕ → Bool) (used ports : List ℕ) (port : ℕ)
    → first_free port_is_free used ports ≡ none
    → contains ports port ≡ true
    → port_is_free port ≡ true
    → contains used port ≡ true
unfolding first_free contains
first_free-none port_is_free used [] port h i f = cc
first_free-none port_is_free used (p ∷ ports) port h i f =
    ground (arith, h, i, f, first_free-none port_is_free used ports port)

contains-range :
    (first n port : ℕ)
    → contains (range first n) port ≡ (leb first port && not (leb (first + n) port))
unfolding range contains
contains-range first zero port = ground arith
contains-range first (suc n) port = ground (arith, contains-range (first + 1) n port)

contains-append :
    (xs ys : List ℕ) (port : ℕ) → contains (xs ++ ys) port ≡ (contains xs port || contains ys port)
unfolding contains
contains-append [] ys port = refl
contains-append (x ∷ xs) ys port = ground (arith, contains-append xs ys port)

contains-if : (b : Bool) (q port : ℕ) → contains (if b then q ∷ [] else []) port ≡ (b && q == port)
unfolding contains
contains-if b q port = ground arith

contains-candidates :
    (preferred : Option ℕ) (p : PortAllocator) (port : ℕ)
    → contains (candidates preferred p) port ≡ (leb p.first_port port && leb port p.last_port)
unfolding candidates
contains-candidates none p port =
    ground (arith, contains-range p.first_port (p.last_port + 1 - p.first_port) port)
contains-candidates (some q) p port =
    let wanted = not (q == 0) && leb p.first_port q && leb q p.last_port in
    let ports = range p.first_port (p.last_port + 1 - p.first_port) in
    rw (contains-append (if wanted then q ∷ [] else []) ports port, contains-if wanted q port)
      (ground (arith, contains-range p.first_port (p.last_port + 1 - p.first_port) port))

contains-keep :
    (test : ℕ → Bool) (ports : List ℕ) (port : ℕ)
    → contains ports port ≡ true
    → test port ≡ true
    → contains (keep test ports) port ≡ true
unfolding contains keep
contains-keep test [] port h t = cc
contains-keep test (p ∷ ports) port h t = ground (arith, h, t, contains-keep test ports port)

-- A port that is given out lies in the range, was neither reserved nor taken, and is reserved
-- from now on with those before. Where none is given out, every port of the range is reserved or
-- taken.
pub allocate_cases :
    (port_is_free : ℕ → Bool) (preferred : Option ℕ) (p : PortAllocator)
    → ((port : ℕ) × (allocate port_is_free preferred p
          ≡ some (port, record p { used = port ∷ p.used }))
        × (p.first_port ≤ port)
        × (port ≤ p.last_port)
        × (contains p.used port ≡ false)
        × (port_is_free port ≡ true))
      ⊎ ((allocate port_is_free preferred p ≡ none)
          × ((port : ℕ)
              → p.first_port ≤ port
              → port ≤ p.last_port
              → port_is_free port ≡ true
              → contains p.used port ≡ true))
unfolding allocate
allocate_cases port_is_free preferred p =
    elim (Option-cases (first_free port_is_free p.used (candidates preferred p))) [
      | inl e ↦ inr (
        rw (e, allocate),
        λ port low high free.
            first_free-none port_is_free p.used (candidates preferred p) port e
              (ground (arith, low, high, contains-candidates preferred p port)) free,
      )
      | inr (port, e) ↦
          let facts = first_free-some port_is_free p.used (candidates preferred p) port e in
          let inside = contains-candidates preferred p port in
          inl (
            port,
            rw (e, allocate),
            ground (arith, facts, inside),
            ground (arith, facts, inside),
            facts.0,
            facts.1,
          )
    ]

-- A release takes no other port.
pub contains-release :
    (port q : ℕ) (p : PortAllocator)
    → q ≢ port
    → contains p.used q ≡ true
    → contains (release port p).used q ≡ true
unfolding release
contains-release port q p apart here =
    ground (arith, contains-keep (λ r. not (r == port)) p.used q here (ground (arith, apart)), here)
