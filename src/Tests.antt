-- ===== src/Tests.antt =====
-- Runs of the library at concrete inputs. Here are the contexts, the mapping and the frames.
mod Codec
mod EndToEnd
mod Gateway
mod Line
mod Server
mod Sockets
mod Serial
mod Tables
mod Sessions
use libmodbus.Base.{ℕ, ℤ, pos, Bool, false, List, [], ◌∷◌, refl, arith}
use libmodbus.Context.{Backend, rtu, tcp, Modbus}
use libmodbus.Client.EndToEnd.{IsReady}
use libmodbus.Mapping.{Mapping, IsValid}

abbrev pub context : Backend → Modbus
context backend = record {
  slave = pos 17;
  s = pos 3;
  debug = pos 0;
  error_recovery = 6;
  quirks = 0;
  response_timeout = record { tv_sec = 0; tv_usec = 500000 };
  byte_timeout = record { tv_sec = 0; tv_usec = 500000 };
  indication_timeout = record { tv_sec = 0; tv_usec = 0 };
  backend = backend;
  t_id = 0;
  confirmation_to_ignore = false;
}

-- Registers 107 to 109 hold what the example of the protocol's specification reads.
abbrev pub mapping : Mapping
mapping = record {
  nb_bits = 3;
  start_bits = 19;
  nb_input_bits = 0;
  start_input_bits = 0;
  nb_input_registers = 1;
  start_input_registers = 8;
  nb_registers = 3;
  start_registers = 107;
  tab_bits = 1 ∷ 0 ∷ 1 ∷ [];
  tab_input_bits = [];
  tab_input_registers = 10 ∷ [];
  tab_registers = 555 ∷ 0 ∷ 100 ∷ [];
}

pub mapping-IsValid : IsValid mapping
mapping-IsValid = record {
  bits_length = refl;
  input_bits_length = refl;
  registers_length = refl;
  input_registers_length = refl;
  bits_fit = (omega arith, (omega arith, (omega arith, tt)));
  input_bits_fit = tt;
  registers_fit = (omega arith, (omega arith, (omega arith, tt)));
  input_registers_fit = (omega arith, tt);
}

-- A request over TCP for registers 107 to 109, and one that writes 7 into register 108.
abbrev pub read_request : List ℕ
read_request = 0 ∷ 1 ∷ 0 ∷ 0 ∷ 0 ∷ 6 ∷ 17 ∷ 3 ∷ 0 ∷ 107 ∷ 0 ∷ 3 ∷ []

abbrev pub write_request : List ℕ
write_request = 0 ∷ 2 ∷ 0 ∷ 0 ∷ 0 ∷ 6 ∷ 17 ∷ 6 ∷ 0 ∷ 108 ∷ 0 ∷ 7 ∷ []

pub ready : (backend : Backend) → IsReady (context backend) 17
ready backend = record {
  descriptor = 3;
  is_slave = refl;
  no_broadcast = omega arith;
  one_byte = omega arith;
  is_open = refl;
  selectable = omega arith;
  small_tid = omega arith;
}
