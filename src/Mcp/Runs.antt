-- ===== src/Mcp/Runs.antt =====
-- Runs of the whole server: calls of the tools that internal/mcp/server.go registers, what the goroutines
-- of the sessions do between them, and the cleanup of cmd/server/main.go, one behind the other in any
-- order.
pub mod Advance
pub mod Every
pub mod Growth
pub mod History
pub mod Keeps
pub mod Outputs
pub mod Reads
pub mod Sound
mod Tests
use interactive_process_mcp.Prelude.{Text, Bool, Option, none, some, List, [], ◌∷◌, text_eq}
use interactive_process_mcp.Prelude.Assoc.{get, put}
use interactive_process_mcp.Storage.{Fs, Env}
use interactive_process_mcp.Buffer.Queue.{Ring}
use interactive_process_mcp.Sessions.{Session, Event, Ending, Start, steps}
use interactive_process_mcp.Sessions.Manager.{Manager, cleanup_all}
use interactive_process_mcp.Mcp.{Floats, Args}
use interactive_process_mcp.Mcp.FileTools.{Library}
use interactive_process_mcp.Mcp.Handlers.{Reply, World}
use interactive_process_mcp.Mcp.Tools.{Tool, Whole, call_tool}

pub data Input (floats : Floats) : Type 0 where
  calls : Tool → Args floats → World → Input floats
  acts : Text → List Event → Input floats
  cleans_up : Bool → (Text → Ending) → (Text → List Event) → Env → Input floats

-- What the start of a session may meet in a call.
abbrev pub StartsWell : (floats : Floats) → (Start → Type 0) → Input floats → Type 0
StartsWell floats IsFine (calls tool args w) = IsFine w.start
StartsWell floats IsFine input = Unit

module _ (floats : Floats) (ring : Ring) (lib : Library) (root : Text) where
  -- A call that has not returned is left out of a run.
  abbrev pub after : Whole ring → Option (Reply × Whole ring) → Whole ring
  after whole none = whole
  after whole (some (reply, next)) = next

  unfoldable pub feed : Input floats → Whole ring → Whole ring
  feed (calls tool args w) whole = after whole (call_tool floats ring lib root tool args w whole)
  feed (acts id events) ((m, fs), remote) = elim (get id m.sessions) [
    | none ↦ ((m, fs), remote)
    | some s ↦
        let r : Session ring × Fs = steps ring events (s, fs) in
        ((record m { sessions = put id r.0 m.sessions }, r.1), remote)
  ]
  feed (cleans_up force runs later env) (st, remote) =
      (cleanup_all ring force runs later env st, remote)

  unfoldable pub run : List (Input floats) → Whole ring → Whole ring
  run [] whole = whole
  run (i ∷ inputs) whole = run inputs (feed i whole)
