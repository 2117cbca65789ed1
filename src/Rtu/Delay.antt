-- ===== src/Rtu/Delay.antt =====
-- The RTS signal around a transmission, and the delay behind it.
use libmodbus.Base.{ℕ, ◌+◌, List, [], ◌∷◌}

abbrev pub sum : List ℕ → ℕ
sum [] = 0
sum (x ∷ xs) = x + sum xs
