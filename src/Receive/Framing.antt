-- ===== src/Receive/Framing.antt =====
-- The receive loop finds the same frame however the line delivers its bytes.
use libmodbus.Base.{
  ℕ, zero, suc, ◌+◌, ◌-◌, ◌≤◌, ◌<◌, ◌≡◌, ◌≢◌, refl, sym, ap, ◌∙◌, arith, Bool, false, inl, inr,
  ◌==◌, Bool-cases, List, [], ◌∷◌, ◌++◌, length, length-append, length-take, take, drop, byte_at,
  get_or-take, take-append_less, take-append-drop, append_assoc,
}
use libmodbus.Context.{ok, Run, Backend, rtu, tcp, MsgType, indication, confirmation}
use libmodbus.Backend.{header_length, max_adu_length}
use libmodbus.Lengths.{compute_meta_length_after_function, compute_data_length_after_meta}
use libmodbus.Receive.{
  Event, bytes, Step, step_function, step_meta, step_data, State, after_meta, next_step, advance,
  leave, receive_loop, initial, receive_fuel,
}
use libmodbus.Receive.Termination.{rounds, IsBounded, initial-IsBounded, advance-IsBounded}

-- The length of the frame at the front of a stream of bytes.
unfoldable pub frame_length : Backend → MsgType → List ℕ → ℕ
frame_length backend t stream =
    header_length backend
    + 1
    + compute_meta_length_after_function (byte_at stream (header_length backend)) t
    + compute_data_length_after_meta backend stream t

-- The bytes that a list of chunks delivers.
abbrev pub delivered : List (List ℕ) → List ℕ
delivered [] = []
delivered (c ∷ chunks) = c ++ delivered chunks

-- Every chunk holds a byte at least.
abbrev pub AllSome : List (List ℕ) → Type 0
AllSome [] = Unit {0}
AllSome (c ∷ chunks) = (0 < length c) × AllSome chunks

abbrev pub as_events : List (List ℕ) → List Event
as_events [] = []
as_events (c ∷ chunks) = bytes c ∷ as_events chunks

compute_data-take :
    (backend : Backend) (t : MsgType) (n : ℕ) (stream : List ℕ)
    → header_length backend
        + 1
        + compute_meta_length_after_function (byte_at stream (header_length backend)) t
      ≤ n
    → compute_data_length_after_meta backend (take n stream) t
      ≡ compute_data_length_after_meta backend stream t
unfolding compute_data_length_after_meta compute_meta_length_after_function
compute_data-take backend indication n stream h = ground (
  arith,
  get_or-take n stream (header_length backend) 0,
  get_or-take n stream (header_length backend + 5) 0,
  get_or-take n stream (header_length backend + 9) 0,
)
compute_data-take backend confirmation n stream h = ground (
  arith,
  get_or-take n stream (header_length backend) 0,
  get_or-take n stream (header_length backend + 1) 0,
)

module _ (backend : Backend) (t : MsgType) (stream : List ℕ) where
  -- Where each step ends in the stream.
  abbrev step_end : Step → ℕ
  step_end step_function = header_length backend + 1
  step_end step_meta =
      header_length backend
      + 1
      + compute_meta_length_after_function (byte_at stream (header_length backend)) t
  step_end step_data = frame_length backend t stream

  -- The two early steps always await something.
  abbrev Awaits : Step → ℕ → Type 0
  Awaits step_function n = 0 < n
  Awaits step_meta n = 0 < n
  Awaits step_data n = Unit {0}

  -- The state has read the front of the stream, and `rest` is what follows.
  record Tracks (st : State) (rest : List ℕ) : Type 0 where
    front : st.msg ++ rest ≡ stream
    ends : length st.msg + st.length_to_read ≡ step_end st.step
    awaits : Awaits st.step st.length_to_read

  front-eq-take : (msg rest : List ℕ) → msg ++ rest ≡ stream → msg ≡ take (length msg) stream
  front-eq-take msg rest e = sym (
      ap (take (length msg)) (sym e)
      ∙ take-append_less (length msg) msg rest (omega arith)
      ∙ whole msg)
    where
      whole : (xs : List ℕ) → take (length xs) xs ≡ xs
      whole [] = refl
      whole (x ∷ xs) = ap (λ (l : List ℕ). x ∷ l) (whole xs)

  rest-eq-drop : (msg rest : List ℕ) → msg ++ rest ≡ stream → rest ≡ drop (length msg) stream
  rest-eq-drop msg rest e = whole msg ∙ ap (drop (length msg)) e
    where
      whole : (xs : List ℕ) → rest ≡ drop (length xs) (xs ++ rest)
      whole [] = refl
      whole (x ∷ xs) = whole xs

  step_end-le : (s : Step) → step_end s ≤ frame_length backend t stream
  unfolding frame_length
  step_end-le step_function = omega arith
  step_end-le step_meta = omega arith
  step_end-le step_data = omega arith

  -- What the lengths are computed from is in the front already.
  meta_from_front :
      (msg rest : List ℕ)
      → msg ++ rest ≡ stream
      → length msg ≡ step_end step_function
      → byte_at msg (header_length backend) ≡ byte_at stream (header_length backend)
  meta_from_front msg rest e n =
      ap (λ (l : List ℕ). byte_at l (header_length backend)) (front-eq-take msg rest e)
      ∙ get_or-take (length msg) stream (header_length backend) 0 (omega arith)

  data_from_front :
      (msg rest : List ℕ)
      → msg ++ rest ≡ stream
      → length msg ≡ step_end step_meta
      → compute_data_length_after_meta backend msg t
        ≡ compute_data_length_after_meta backend stream t
  data_from_front msg rest e n =
      ap (λ (l : List ℕ). compute_data_length_after_meta backend l t) (front-eq-take msg rest e)
      ∙ compute_data-take backend t (length msg) stream (omega arith)

  module _ (fits : frame_length backend t stream ≤ max_adu_length backend) where
    after_meta-Tracks :
        (msg rest : List ℕ)
        → msg ++ rest ≡ stream
        → length msg ≡ step_end step_meta
        → (st : State) × (after_meta backend t msg ≡ ok st) × Tracks st rest
    unfolding after_meta frame_length
    after_meta-Tracks msg rest e n = (
      record {
        msg = msg;
        length_to_read = compute_data_length_after_meta backend msg t;
        step = step_data;
      },
      ground (arith, data_from_front msg rest e n),
      record { front = e; ends = omega (arith, data_from_front msg rest e n); awaits = tt },
    )

    next_step-Tracks :
        (step : Step) (msg rest : List ℕ)
        → msg ++ rest ≡ stream
        → length msg ≡ step_end step
        → (st : State) × (next_step backend t step msg ≡ ok st) × Tracks st rest
    unfolding next_step
    next_step-Tracks step_meta msg rest e n = after_meta-Tracks msg rest e n
    next_step-Tracks step_data msg rest e n = (
      record { msg = msg; length_to_read = 0; step = step_data },
      refl,
      record { front = e; ends = omega arith; awaits = tt },
    )
    next_step-Tracks step_function msg rest e n = elim (Bool-cases (meta == 0)) [
      | inl z ↦ rw z (after_meta-Tracks msg rest e (ground (arith, same)))
      | inr z ↦ rw z (
        record { msg = msg; length_to_read = meta; step = step_meta },
        refl,
        record { front = e; ends = omega (arith, same); awaits = ground arith },
      )
    ]
      where
        meta : ℕ
        meta = compute_meta_length_after_function (byte_at msg (header_length backend)) t

        same : meta ≡ compute_meta_length_after_function (byte_at stream (header_length backend)) t
        same = ap (λ (f : ℕ). compute_meta_length_after_function f t) (meta_from_front msg rest e n)

    advance-Tracks :
        (st : State) (chunk rest : List ℕ)
        → Tracks st (chunk ++ rest)
        → length chunk ≤ st.length_to_read
        → (st' : State) × (advance backend t st chunk ≡ ok st') × Tracks st' rest
    unfolding advance
    advance-Tracks st chunk rest tr below =
        elim (Bool-cases (st.length_to_read - length chunk == 0)) [
          | inl z ↦ rw z (
              next_step-Tracks st.step (st.msg ++ chunk) rest joined
                (ground (arith, length-append st.msg chunk)))
          | inr z ↦ rw z (
            record {
              msg = st.msg ++ chunk;
              length_to_read = st.length_to_read - length chunk;
              step = st.step;
            },
            refl,
            record {
              front = joined;
              ends = omega (arith, length-append st.msg chunk, tr.ends);
              awaits = still st.step (ground arith);
            },
          )
        ]
      where
        joined : (st.msg ++ chunk) ++ rest ≡ stream
        joined = append_assoc st.msg chunk rest ∙ tr.front

        still :
            (s : Step)
            → 0 < st.length_to_read - length chunk
            → Awaits s (st.length_to_read - length chunk)
        still step_function p = p
        still step_meta p = p
        still step_data p = tt

    -- What is left in the events holds the bytes behind the frame.
    record IsFramed (left : List Event) (run : Run (List ℕ)) : Type 0 where
      chunks : List (List ℕ)
      left_chunks : left ≡ as_events chunks
      behind : delivered chunks ≡ drop (frame_length backend t stream) stream
      result : run ≡ ([], ok (take (frame_length backend t stream) stream))

    done-IsFramed :
        (st : State) (chunks : List (List ℕ))
        → Tracks st (delivered chunks)
        → st.length_to_read ≡ 0
        → IsFramed (as_events chunks) ([], ok st.msg)
    done-IsFramed st chunks tr z = record {
      chunks = chunks;
      left_chunks = refl;
      behind =
          rest-eq-drop st.msg (delivered chunks) tr.front
          ∙ ap (λ (k : ℕ). drop k stream) (at_end st.step tr.ends tr.awaits);
      result =
          ap (λ (m : List ℕ). ([], ok m))
            (front-eq-take st.msg (delivered chunks) tr.front
              ∙ ap (λ (k : ℕ). take k stream) (at_end st.step tr.ends tr.awaits));
    }
      where
        at_end :
            (s : Step)
            → length st.msg + st.length_to_read ≡ step_end s
            → Awaits s st.length_to_read
            → length st.msg ≡ frame_length backend t stream
        at_end step_function e p = absurd (omega arith)
        at_end step_meta e p = absurd (omega arith)
        at_end step_data e p = omega arith

    abbrev remaining : List ℕ → List (List ℕ) → List (List ℕ)
    remaining [] chunks = chunks
    remaining (b ∷ bs) chunks = (b ∷ bs) ∷ chunks

    leave-remaining :
        (rest : List ℕ) (chunks : List (List ℕ))
        → leave rest (as_events chunks) ≡ as_events (remaining rest chunks)
    leave-remaining [] chunks = refl
    leave-remaining (b ∷ bs) chunks = refl

    delivered-remaining :
        (rest : List ℕ) (chunks : List (List ℕ))
        → delivered (remaining rest chunks) ≡ rest ++ delivered chunks
    delivered-remaining [] chunks = refl
    delivered-remaining (b ∷ bs) chunks = refl

    AllSome-remaining :
        (rest : List ℕ) (chunks : List (List ℕ)) → AllSome chunks → AllSome (remaining rest chunks)
    AllSome-remaining [] chunks h = h
    AllSome-remaining (b ∷ bs) chunks h = (omega arith, h)

    module _ (enough : frame_length backend t stream ≤ length stream) (link : Bool) where
      none_left : (st : State) → Tracks st [] → st.length_to_read ≢ 0 → ⊥
      none_left st track ne = omega (
        arith,
        ap length track.front,
        length-append st.msg [],
        track.ends,
        step_end-le st.step,
        enough,
      )

      receive_loop-IsFramed :
          (fuel : ℕ) (st : State) (chunks : List (List ℕ))
          → IsBounded backend st
          → rounds st < fuel
          → Tracks st (delivered chunks)
          → AllSome chunks
          → let (left, run) = receive_loop fuel backend t link st (as_events chunks) in
            IsFramed left run
      unfolding receive_loop
      receive_loop-IsFramed zero st chunks h m track some_each = absurd (omega arith)
      receive_loop-IsFramed (suc fuel) st [] h m track some_each =
          elim (Bool-cases (st.length_to_read == 0)) [
            | inl z ↦ rw z (done-IsFramed st [] track (ground arith))
            | inr z ↦ absurd (none_left st track (ground arith))
          ]
      receive_loop-IsFramed (suc fuel) st ([] ∷ chunks) h m track some_each = absurd (omega arith)
      receive_loop-IsFramed (suc fuel) st ((b ∷ bs) ∷ chunks) h m track some_each =
          elim (Bool-cases (st.length_to_read == 0)) [
            | inl z ↦ rw z (done-IsFramed st ((b ∷ bs) ∷ chunks) track (ground arith))
            | inr z ↦
                let (st', a, tracks) =
                  advance-Tracks st chunk (rest ++ delivered chunks) split fits_chunk in
                let (keeps, falls) = step_to st' z a in
                rw (z, a, leave-remaining rest chunks)
                  (receive_loop-IsFramed fuel st' (remaining rest chunks) keeps (omega arith)
                    (rw (delivered-remaining rest chunks) tracks)
                    (AllSome-remaining rest chunks some_each.1))
          ]
        where
          chunk : List ℕ
          chunk = take st.length_to_read (b ∷ bs)

          rest : List ℕ
          rest = drop st.length_to_read (b ∷ bs)

          fits_chunk : length chunk ≤ st.length_to_read
          fits_chunk = omega (arith, length-take st.length_to_read (b ∷ bs))

          split : Tracks st (chunk ++ (rest ++ delivered chunks))
          split = record {
            front =
                ap (λ (l : List ℕ). st.msg ++ l)
                  (sym (append_assoc chunk rest (delivered chunks))
                    ∙ ap (λ (l : List ℕ). l ++ delivered chunks)
                        (take-append-drop st.length_to_read (b ∷ bs)))
                ∙ track.front;
            ends = track.ends;
            awaits = track.awaits;
          }

          step_to :
              (st' : State)
              → (st.length_to_read == 0) ≡ false
              → advance backend t st chunk ≡ ok st'
              → IsBounded backend st' × (rounds st' < rounds st)
          step_to st' z a =
              let (keeps, falls, _) =
                advance-IsBounded backend t st chunk st' h fits_chunk
                  (ground (arith, length-take st.length_to_read (b ∷ bs))) a in
              (keeps, falls)

-- However the line cuts a stream of bytes into pieces, the receive loop reads exactly the frame at
-- its front, where the stream holds that frame and the frame fits the backend; and what is left for
-- the next message are the bytes behind it.
pub receive_loop_framed :
    (backend : Backend) (t : MsgType) (link : Bool) (chunks : List (List ℕ))
    → AllSome chunks
    → frame_length backend t (delivered chunks) ≤ max_adu_length backend
    → frame_length backend t (delivered chunks) ≤ length (delivered chunks)
    → let (left, run) =
        receive_loop receive_fuel backend t link (initial backend) (as_events chunks) in
      (run ≡ ([], ok (take (frame_length backend t (delivered chunks)) (delivered chunks))))
      × ((behind : List (List ℕ)) × (left ≡ as_events behind)
          × (delivered behind
              ≡ drop (frame_length backend t (delivered chunks)) (delivered chunks)))
receive_loop_framed backend t link chunks some_each fits enough =
    (framed.result, (framed.chunks, framed.left_chunks, framed.behind))
  where
    start :
        (backend : Backend)
        → Tracks backend t (delivered chunks) (initial backend) (delivered chunks)
    start rtu = record { front = refl; ends = omega arith; awaits = omega arith }
    start tcp = record { front = refl; ends = omega arith; awaits = omega arith }

    fuel_left : (backend : Backend) → rounds (initial backend) < receive_fuel
    fuel_left rtu = omega arith
    fuel_left tcp = omega arith

    framed :
        let (left, run) =
          receive_loop receive_fuel backend t link (initial backend) (as_events chunks) in
        IsFramed backend t (delivered chunks) fits left run
    framed =
        receive_loop-IsFramed backend t (delivered chunks) fits enough link receive_fuel
          (initial backend) chunks (initial-IsBounded backend) (fuel_left backend) (start backend)
          some_each
