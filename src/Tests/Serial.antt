-- ===== src/Tests/Serial.antt =====
-- Runs of the serial port: the RTS signal and opening; and the contexts that are created.
use libmodbus.Base.{ℕ, refl, arith, pos, Bool, true, false, [], ◌∷◌, some, ◌==◌, not, inl, inr}
use libmodbus.Context.{rtu, tcp}
use libmodbus.System.{returned}
use libmodbus.Rtu.{Port, OpenCalls, rtu_connect, ioctl_rts}
use libmodbus.Rtu.Opening.{PortOpen, rtu_connect-PortOpen}
use libmodbus.Create.{device_block, new_rtu, new_tcp}
use libmodbus.Create.Contexts.{IsNewPort, Accepted, IsNewTcp, new_rtu-IsNewPort, new_tcp-IsNewTcp}
use libmodbus.Tests.{context}

-- 9600 bauds, 8 data bits, even parity, 1 stop bit; RTS is raised for a transmission.
abbrev port : Port
port = record {
  device = b't' ∷ [];
  baud = 9600;
  data_bit = 8;
  stop_bit = 1;
  parity = b'E';
  serial_mode = 0;
  rts = 1;
  rts_delay = 1145;
  onebyte_time = 1145;
  set_rts = ioctl_rts;
}

abbrev open_calls : OpenCalls
open_calls = record {
  opening = returned 4;
  saving = returned 0;
  input_speed = returned 0;
  output_speed = returned 0;
  setting = returned 0;
}

rtu_connect-PortOpen_example :
    PortOpen port
      (1 ∷ [])
      (returned 4)
      true
      (rtu_connect false (context rtu) port open_calls (1 ∷ []))
rtu_connect-PortOpen_example =
    rtu_connect-PortOpen false (context rtu) port (1 ∷ [])
      (record {
        bits_low = omega arith;
        bits_high = omega arith;
        stops = inl refl;
        parities = inr (inl refl);
      })
      open_calls (refl, tt)

-- The device's name cannot be allocated.
abbrev no_device : ℕ → Bool
no_device b = not (b == device_block)

new_rtu-IsNewPort_example :
    IsNewPort
      (Accepted no_device (context rtu) (some (b't' ∷ [])) (pos 9600) b'E' (pos 8) (pos 1))
      (new_rtu no_device (context rtu) (some (b't' ∷ [])) (pos 9600) b'E' (pos 8) (pos 1))
new_rtu-IsNewPort_example =
    new_rtu-IsNewPort no_device (context rtu) (some (b't' ∷ [])) (pos 9600) b'E' (pos 8) (pos 1)

new_tcp-IsNewTcp_example :
    IsNewTcp no_device
      (context tcp)
      (some (returned 0))
      (some (b'1' ∷ []))
      (pos 502)
      (new_tcp (some (returned 0)) no_device (context tcp) (some (b'1' ∷ [])) (pos 502))
new_tcp-IsNewTcp_example =
    new_tcp-IsNewTcp no_device (context tcp) (some (returned 0)) (some (b'1' ∷ [])) (pos 502)
