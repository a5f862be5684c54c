-- ===== src/Buffer/Tests.antt =====
-- Runs of the buffer over the sample ring buffer, and the theorems at concrete inputs.
use interactive_process_mcp.Prelude.{
  ◌≡◌, refl, pos, true, false, some, List, [], ◌∷◌, bytes, inl, inr,
}
use interactive_process_mcp.Prelude.Assoc.{get, put, map_values}
use interactive_process_mcp.Buffer.Sample.{sample_ring}
use interactive_process_mcp.Buffer.{
  Buffer, Op, writes, registers, drains, Round, new, read, apply, apply_all, returned, read_bytes,
}
use interactive_process_mcp.Buffer.View.{IsValid, view, new-IsValid, apply-IsValid}
use interactive_process_mcp.Buffer.Refines.{Refines, promise_all, no_logs, history-Refines}
use interactive_process_mcp.Buffer.Reading.{
  IsExplained, HasReturned, read-IsExplained, read-HasReturned, read_at_once,
}

abbrev history : List Op
history = registers ∷ writes (bytes "hel") ∷ registers ∷ writes (bytes "lo") ∷ drains (pos 1) ∷ []

abbrev small : Buffer sample_ring
small = apply_all sample_ring history (new sample_ring (pos 4))

-- Four bytes of capacity: the first reader has lost the oldest byte.
view_test : view sample_ring small (pos 0) ≡ some (bytes "ello")
unfolding sample_ring view apply_all apply new get put map_values
view_test = refl

abbrev late_write : List Round
late_write =
    record { expired = false; cancelled = false; meanwhile = writes (bytes "x") ∷ [] }
    ∷ record { expired = true; cancelled = false; meanwhile = [] }
    ∷ []

woken :
    read sample_ring (pos 1) (pos 5) late_write small
    ≡ returned
        (read_bytes (bytes "x"))
        (apply sample_ring (drains (pos 1)) (apply sample_ring (writes (bytes "x")) small))
unfolding sample_ring read apply_all apply new get put map_values
woken = refl

history-Refines_example :
    Refines sample_ring
      (apply_all sample_ring history (new sample_ring (pos 4)))
      (promise_all history no_logs)
history-Refines_example = history-Refines sample_ring (pos 4) history

read-IsExplained_example :
    IsExplained sample_ring (pos 1) (read sample_ring (pos 1) (pos 5) late_write small)
read-IsExplained_example = read-IsExplained sample_ring (pos 1) (pos 5) late_write small

read-HasReturned_example :
    HasReturned sample_ring (pos 1) (read sample_ring (pos 1) (pos 5) late_write small)
read-HasReturned_example =
    read-HasReturned sample_ring (pos 1) (pos 5) late_write small (inr (inl refl))

read_at_once_example :
    read sample_ring (pos 0) (pos 5) [] small
    ≡ returned (read_bytes (bytes "ello")) (apply sample_ring (drains (pos 0)) small)
read_at_once_example =
    read_at_once sample_ring (pos 0) (pos 5) [] small b'e' (bytes "llo") view_test

fresh_buffer-IsValid : IsValid sample_ring (apply sample_ring registers (new sample_ring (pos 4)))
fresh_buffer-IsValid =
    apply-IsValid sample_ring registers (new sample_ring (pos 4)) (new-IsValid sample_ring (pos 4))
