-- ===== src/Node/Receiver/Loop.antt =====
-- What the handler's chain of waits makes of a sequence of datagrams.
use ros2sonic.Prelude.{
  ℕ, ◌≡◌, refl, sym, ap, ◌∙◌, true, false, List, [], ◌∷◌, ◌++◌, map, length, take,
}
use ros2sonic.Outcome.{Outcome, ok, throw, fault, hang, ◌>>=◌}
use ros2sonic.Memory.{Bytes}
use ros2sonic.Node.Receiver.{
  Arrival, arrived, failed, overlay, Receiver, receive_handler, complete, run,
}

-- What receiveImpl is called with, and the buffer that is left.
abbrev pub buffer_after : List Bytes → Bytes → Bytes
buffer_after [] buffer = buffer
buffer_after (d ∷ ds) buffer = buffer_after ds (overlay d buffer)

module _ {S : Type 0} (receive_impl : Bytes → ℕ → S → Outcome S) where
  abbrev pub handle_all : List Bytes → Bytes → S → Outcome S
  handle_all [] buffer state = ok state
  handle_all (d ∷ ds) buffer state =
      receive_impl (overlay d buffer) (length (take (length buffer) d)) state
      >>= handle_all ds (overlay d buffer)

  -- The waiting receiver.
  abbrev pub at_work : Bytes → S → Receiver S
  at_work buffer state = record { recv_buffer = buffer; waiting = true; state = state }

  bind_assoc {ℓ} :
      {A B C : Type ℓ} (m : Outcome A) (f : A → Outcome B) (g : B → Outcome C)
      → ((m >>= f) >>= g) ≡ (m >>= λ a. f a >>= g)
  bind_assoc (ok a) f g = refl
  bind_assoc (throw e) f g = refl
  bind_assoc fault f g = refl
  bind_assoc hang f g = refl

  -- One datagram, and what comes after it.
  run-arrived :
      (d : Bytes) (arrivals : List Arrival) (buffer : Bytes) (state : S)
      → run receive_impl (arrived d ∷ arrivals) (at_work buffer state) ≡ (
          receive_impl (overlay d buffer) (length (take (length buffer) d)) state >>= λ state'.
          run receive_impl arrivals (at_work (overlay d buffer) state'))
  unfolding run complete receive_handler
  run-arrived d arrivals buffer state =
      bind_assoc (receive_impl (overlay d buffer) (length (take (length buffer) d)) state) _
        (run receive_impl arrivals)

  stopped :
      (later : List Arrival) (buffer : Bytes) (state : S)
      → run receive_impl (failed ∷ later) (at_work buffer state)
        ≡ ok (record { recv_buffer = buffer; waiting = false; state = state })
  unfolding run complete receive_handler
  stopped [] buffer state = refl
  stopped (a ∷ later) buffer state = refl

  -- A receiver that waits gives each datagram to receiveImpl, in the order of their arrival,
  -- written over the front of what the earlier ones have left in the buffer, and as long as
  -- receiveImpl returns it waits again after each.
  pub run-arrived_all :
      (ds : List Bytes) (buffer : Bytes) (state : S)
      → run receive_impl (map arrived ds) (at_work buffer state)
        ≡ (handle_all ds buffer state >>= λ state'. ok (at_work (buffer_after ds buffer) state'))
  unfolding run
  run-arrived_all [] buffer state = refl
  run-arrived_all (d ∷ ds) buffer state =
      run-arrived d (map arrived ds) buffer state
      ∙ ap (λ f. receive_impl (overlay d buffer) (length (take (length buffer) d)) state >>= f)
          (λ i state'. run-arrived_all ds (overlay d buffer) state' i)
      ∙ sym (
          bind_assoc (receive_impl (overlay d buffer) (length (take (length buffer) d)) state)
            (handle_all ds (overlay d buffer))
            (λ state'. ok (at_work (buffer_after ds (overlay d buffer)) state')))

  -- The datagrams before the first error are handled, if receiveImpl returns, and the error ends
  -- the chain: the receiver waits no more, and nothing that comes later is ever received.
  pub run-failed :
      (ds : List Bytes) (later : List Arrival) (buffer : Bytes) (state : S)
      → run receive_impl (map arrived ds ++ failed ∷ later) (at_work buffer state) ≡ (
          handle_all ds buffer state >>= λ state'.
          ok (record { recv_buffer = buffer_after ds buffer; waiting = false; state = state' }))
  unfolding run
  run-failed [] later buffer state = stopped later buffer state
  run-failed (d ∷ ds) later buffer state =
      run-arrived d (map arrived ds ++ failed ∷ later) buffer state
      ∙ ap (λ f. receive_impl (overlay d buffer) (length (take (length buffer) d)) state >>= f)
          (λ i state'. run-failed ds later (overlay d buffer) state' i)
      ∙ sym (
          bind_assoc (receive_impl (overlay d buffer) (length (take (length buffer) d)) state)
            (handle_all ds (overlay d buffer))
            (λ state'. ok (record {
              recv_buffer = buffer_after ds (overlay d buffer);
              waiting = false;
              state = state';
            })))
