-- ===== src/System/Held.antt =====
-- Descriptors and blocks that are held: taking one and giving it back.
use libmodbus.Base.{ℕ, ◌≡◌, refl, ap, false, ==_iff, List, [], ◌∷◌, ◌==◌}
use libmodbus.System.{release}

-- The handle is not among those that are held, as the system promises of a new one.
abbrev pub Absent : ℕ → List ℕ → Type 0
Absent h [] = Unit {0}
Absent h (x ∷ live) = ((x == h) ≡ false) × Absent h live

pub release-Absent : (h : ℕ) (live : List ℕ) → Absent h live → release h live ≡ live
unfolding release
release-Absent h [] a = refl
release-Absent h (x ∷ live) (e, a) = rw e (ap (λ l. x ∷ l) (release-Absent h live a))

-- What is taken and given back leaves what was held.
pub release_self : (h : ℕ) (live : List ℕ) → Absent h live → release h (h ∷ live) ≡ live
unfolding release
release_self h live a = rw ((==_iff h h).1 refl) (release-Absent h live a)
