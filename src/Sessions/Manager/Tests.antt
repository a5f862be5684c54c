-- ===== src/Sessions/Manager/Tests.antt =====
-- A client asks for a new session between the two times that CleanupAll takes the lock.
use interactive_process_mcp.Prelude.{refl}
use interactive_process_mcp.Sessions.Manager.Locks.{
  Holders, listing, queued, Reach, begin, here, next, locks, writer_asks, Fate, writer-Fate,
}

abbrev asked : Holders
asked = record { place = listing; writer = queued; readers = 0 }

asked-reached : Reach begin asked
asked-reached = next (next here (locks refl refl)) (writer_asks refl)

writer-Fate_example : Fate asked queued
writer-Fate_example = writer-Fate asked asked-reached refl
