-- ===== src/Fulfillment/Scan/Agreement.antt =====
-- What the scan counts and what it stores.
use tiny_mirror.Prelude.{◌≡◌, refl, ◌+ℤ◌, leb_ℤ, Bool-cases, inl, inr}
use tiny_mirror.Fulfillment.Transfer.{Time, Transfer, pending, received, same_status, receive}
use tiny_mirror.Fulfillment.Fifo.{Credit, decide}

-- Storing a decision about a pending row makes the row received exactly when the decision says
-- `is_full`, by which the scan counts it.
pub receive-is_full :
    (t : Transfer) (c : Credit) (at : Time)
    → t.status ≡ pending
    → same_status (receive (decide t c).delta_units at t).status received ≡ (decide t c).is_full
unfolding receive
receive-is_full t c at waits =
    elim (Bool-cases (leb_ℤ t.quantity (t.quantity_received +ℤ c.delta))) [
      | inl full ↦ rw full refl
      | inr part ↦ rw (part, waits) refl
    ]
