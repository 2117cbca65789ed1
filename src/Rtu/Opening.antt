-- ===== src/Rtu/Opening.antt =====
-- Opening and closing the serial port.
use libmodbus.Base.{
  ℕ, ◌≤◌, ◌≡◌, refl, arith, ◌⊎◌, inl, inr, negsuc, pos, Bool, true, false, ◌&&◌, List, ◌∷◌, none,
  some, ◌==◌, not,
}
use libmodbus.Context.{Errno, ok, err, Modbus}
use libmodbus.System.{Syscall, returned, failed}
use libmodbus.System.Held.{release_self}
use libmodbus.Tcp.Connect.{Fresh, succeeds}
use libmodbus.Rtu.{Port, Termios, port_settings, OpenCalls, PortOpened, rtu_connect, rtu_close}

-- The arguments that a port is created with.
pub record IsSupported (port : Port) : Type 0 where
  pub bits_low : 5 ≤ port.data_bit
  pub bits_high : port.data_bit ≤ 8
  pub stops : (port.stop_bit ≡ 1) ⊎ (port.stop_bit ≡ 2)
  pub parities : (port.parity ≡ b'N') ⊎ (port.parity ≡ b'E') ⊎ (port.parity ≡ b'O')

-- The settings say what the port asks for, on a raw line without flow control.
pub record IsConfigured (port : Port) (tios : Termios) : Type 0 where
  pub size : tios.csize ≡ port.data_bit
  pub two_stops : tios.cstopb ≡ (port.stop_bit == 2)
  pub checked : (tios.parenb ≡ not (port.parity == b'N')) × (tios.inpck ≡ not (port.parity == b'N'))
  pub odd : tios.parodd ≡ (port.parity == b'O')
  pub raw : (tios.raw_input ≡ true) × (tios.opost ≡ false) × (tios.flow_control ≡ false)

port_settings-IsConfigured :
    (by_number : Bool) (port : Port)
    → IsSupported port
    → IsConfigured port (port_settings by_number port)
unfolding port_settings
port_settings-IsConfigured by_number port v = record {
  size = ground (arith, v.bits_low, v.bits_high);
  two_stops = stop v.stops;
  checked = (refl, refl);
  odd = parity v.parities;
  raw = (refl, refl, refl);
}
  where
    stop :
        (port.stop_bit ≡ 1) ⊎ (port.stop_bit ≡ 2) → not (port.stop_bit == 1) ≡ (port.stop_bit == 2)
    stop (inl e) = rw e refl
    stop (inr e) = rw e refl

    parity :
        (port.parity ≡ b'N') ⊎ (port.parity ≡ b'E') ⊎ (port.parity ≡ b'O')
        → (not (port.parity == b'N') && not (port.parity == b'E')) ≡ (port.parity == b'O')
    parity (inl e) = rw e refl
    parity (inr (inl e)) = rw e refl
    parity (inr (inr e)) = rw e refl

abbrev pub opens : OpenCalls → Bool
opens calls =
    succeeds calls.saving
    && (succeeds calls.input_speed && (succeeds calls.output_speed && succeeds calls.setting))

-- The port is open with the settings that it asks for, and closing it leaves the descriptors as they
-- were; or the context has no descriptor, nothing is left open, and no settings are made.
abbrev pub PortOpen : Port → List ℕ → Syscall → Bool → PortOpened → Type 0
PortOpen port live (returned s) true o =
    (o.result ≡ ok 0)
    × (o.ctx.s ≡ pos s)
    × (o.live ≡ s ∷ live)
    × ((tios : Termios) × (o.settings ≡ some tios) × IsConfigured port tios)
    × ((old : Termios) → (rtu_close o.ctx old o.live).live ≡ live)
PortOpen port live _ _ o =
    ((e : Errno) × (o.result ≡ err e))
    × (o.ctx.s ≡ negsuc 0)
    × (o.live ≡ live)
    × (o.settings ≡ none)

module _ (by_number : Bool) (ctx : Modbus) (port : Port) (live : List ℕ)
    (supported : IsSupported port) where
  by_calls :
      (op sa is os se : Syscall)
      → Fresh op live
      → let c : OpenCalls = record {
        opening = op;
        saving = sa;
        input_speed = is;
        output_speed = os;
        setting = se;
      } in
        PortOpen port live op (opens c) (rtu_connect by_number ctx port c live)
  unfolding rtu_connect rtu_close
  by_calls (failed e) sa is os se f = ((e, refl), refl, refl, refl)
  by_calls (returned s) (failed e) is os se f = ((e, refl), refl, release_self s live f, refl)
  by_calls (returned s) (returned a) (failed e) os se f =
      ((e, refl), refl, release_self s live f, refl)
  by_calls (returned s) (returned a) (returned b) (failed e) se f =
      ((e, refl), refl, release_self s live f, refl)
  by_calls (returned s) (returned a) (returned b) (returned c) (failed e) f =
      ((e, refl), refl, release_self s live f, refl)
  by_calls (returned s) (returned a) (returned b) (returned c) (returned d) f = (
    refl,
    refl,
    refl,
    (_, refl, port_settings-IsConfigured by_number port supported),
    λ old. release_self s live f,
  )

  -- Where all calls succeed, the serial port is open with the character size, stop bits and parity of
  -- the context, raw and without flow control, and `_modbus_rtu_close` closes the one descriptor
  -- that was opened; where any call fails, nothing is left open and the context is unconnected.
  pub rtu_connect-PortOpen :
      (calls : OpenCalls)
      → Fresh calls.opening live
      → PortOpen port live calls.opening (opens calls) (rtu_connect by_number ctx port calls live)
  rtu_connect-PortOpen calls fresh =
      by_calls calls.opening calls.saving calls.input_speed calls.output_speed calls.setting fresh
