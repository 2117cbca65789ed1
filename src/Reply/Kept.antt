-- ===== src/Reply/Kept.antt =====
-- A mapping that is kept, and an answer that is sound.
use libmodbus.Base.{ℕ, ◌%◌, ◌≤◌, ◌≡◌, refl, arith, List, byte_at, length, AllBelow, IsBytes}
use libmodbus.Context.{Backend, rtu, tcp, Sft}
use libmodbus.Backend.{header_length, build_response_basis}
use libmodbus.Mapping.{Mapping, IsValid}
use libmodbus.Reply.{Answer}

-- The mapping after a request is well formed, covers the same addresses, and has the same inputs.
pub record IsKept (m m' : Mapping) : Type 0 where
  pub valid : IsValid m'
  pub same_bits : (m'.start_bits ≡ m.start_bits) × (m'.nb_bits ≡ m.nb_bits)
  pub same_registers : (m'.start_registers ≡ m.start_registers) × (m'.nb_registers ≡ m.nb_registers)
  pub same_input_bits :
      (m'.start_input_bits ≡ m.start_input_bits)
      × (m'.nb_input_bits ≡ m.nb_input_bits)
      × (m'.tab_input_bits ≡ m.tab_input_bits)
  pub same_input_registers :
      (m'.start_input_registers ≡ m.start_input_registers)
      × (m'.nb_input_registers ≡ m.nb_input_registers)
      × (m'.tab_input_registers ≡ m.tab_input_registers)

pub IsKept-self : (m : Mapping) → IsValid m → IsKept m m
IsKept-self m v = record {
  valid = v;
  same_bits = (refl, refl);
  same_registers = (refl, refl);
  same_input_bits = (refl, refl, refl);
  same_input_registers = (refl, refl, refl);
}

pub IsKept-bits :
    (m : Mapping) (tab : List ℕ)
    → IsValid m
    → length tab ≡ length m.tab_bits
    → IsBytes tab
    → IsKept m (record m { tab_bits = tab })
IsKept-bits m tab v e h = record {
  valid = record {
    bits_length = omega arith;
    input_bits_length = v.input_bits_length;
    registers_length = v.registers_length;
    input_registers_length = v.input_registers_length;
    bits_fit = h;
    input_bits_fit = v.input_bits_fit;
    registers_fit = v.registers_fit;
    input_registers_fit = v.input_registers_fit;
  };
  same_bits = (refl, refl);
  same_registers = (refl, refl);
  same_input_bits = (refl, refl, refl);
  same_input_registers = (refl, refl, refl);
}

pub IsKept-registers :
    (m : Mapping) (tab : List ℕ)
    → IsValid m
    → length tab ≡ length m.tab_registers
    → AllBelow 65536 tab
    → IsKept m (record m { tab_registers = tab })
IsKept-registers m tab v e h = record {
  valid = record {
    bits_length = v.bits_length;
    input_bits_length = v.input_bits_length;
    registers_length = omega arith;
    input_registers_length = v.input_registers_length;
    bits_fit = v.bits_fit;
    input_bits_fit = v.input_bits_fit;
    registers_fit = h;
    input_registers_fit = v.input_registers_fit;
  };
  same_bits = (refl, refl);
  same_registers = (refl, refl);
  same_input_bits = (refl, refl, refl);
  same_input_registers = (refl, refl, refl);
}

-- The function code of a response that repeats the one of the request.
pub basis_function :
    (backend : Backend) (sft : Sft)
    → byte_at (build_response_basis backend sft) (header_length backend) ≡ sft.function % 256
unfolding build_response_basis
basis_function rtu sft = refl
basis_function tcp sft = refl

-- An answer that keeps the mapping well formed, and does not touch it where it is an exception.
pub record IsSound (backend : Backend) (m : Mapping) (a : Answer) : Type 0 where
  pub kept : IsKept m a.mapping
  pub untouched : 128 ≤ byte_at a.rsp (header_length backend) → a.mapping ≡ m

pub unchanged-IsSound :
    (backend : Backend) (m : Mapping) (a : Answer) → IsValid m → a.mapping ≡ m → IsSound backend m a
unchanged-IsSound backend m a v e = record { kept = rw e (IsKept-self m v); untouched = λ _. e }
