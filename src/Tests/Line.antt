-- ===== src/Tests/Line.antt =====
-- Runs of the loops that read from the line.
use libmodbus.Base.{ℕ, ◌≡◌, arith, false, true, List, [], ◌∷◌, ◌++◌, take, drop}
use libmodbus.Context.{tcp, ok, indication, etimedout}
use libmodbus.Lengths.{compute_meta_length_after_function, compute_data_length_after_meta}
use libmodbus.Receive.{bytes, select_fails, receive_loop, receive_fuel, initial}
use libmodbus.Receive.Termination.{Ends, receive_loop-Ends}
use libmodbus.Receive.Framing.{delivered, as_events, frame_length, receive_loop_framed}
use libmodbus.Tests.{read_request, write_request}

receive_loop-Ends_example :
    let (left, run) =
      receive_loop receive_fuel tcp indication true
        (initial tcp)
        (bytes (17 ∷ []) ∷ select_fails etimedout ∷ []) in
    Ends tcp left run.1
receive_loop-Ends_example =
    receive_loop-Ends tcp indication true (bytes (17 ∷ []) ∷ select_fails etimedout ∷ [])

-- Two requests, cut in the header of the first and behind the first byte of the second.
abbrev chunks : List (List ℕ)
chunks =
    take 3 read_request ∷ (drop 3 read_request ++ take 1 write_request) ∷ drop 1 write_request ∷ []

receive_loop_framed_example :
    let (left, run) =
      receive_loop receive_fuel tcp indication false (initial tcp) (as_events chunks) in
    (run ≡ ([], ok (take (frame_length tcp indication (delivered chunks)) (delivered chunks))))
    × ((behind : List (List ℕ)) × (left ≡ as_events behind)
        × (delivered behind
            ≡ drop (frame_length tcp indication (delivered chunks)) (delivered chunks)))
unfolding frame_length compute_meta_length_after_function compute_data_length_after_meta
receive_loop_framed_example =
    receive_loop_framed tcp indication false chunks (omega arith, (omega arith, (omega arith, tt)))
      (omega arith) (omega arith)
