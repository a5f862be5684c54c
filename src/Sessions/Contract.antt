-- ===== src/Sessions/Contract.antt =====
-- What a session promises of its output, apart from its files and its metadata: the logs of its readers,
-- which grow with what comes from the two pipes until the exit has closed the buffer, in whatever order
-- things happen.
pub mod Runs
mod Tests
use mathlib.Core.Option
use interactive_process_mcp.Prelude.{
  ℕ, ℤ, pos, Text, ◌≡◌, refl, ap, sym, subst, ◌∙◌, Bool, true, false, not, ◌&&◌, ◌||◌, Option, none,
  some, List, [], ◌∷◌, arith, if◌then◌else◌, Bool-cases, if_cases, inl, inr,
}
use interactive_process_mcp.Storage.{Fs}
use interactive_process_mcp.Messages.{Call}
use interactive_process_mcp.Buffer
use interactive_process_mcp.Buffer.{Buffer, apply}
use interactive_process_mcp.Buffer.Queue.{Ring, last}
use interactive_process_mcp.Buffer.View.{IsValid, view, new-IsValid, apply-IsValid}
use interactive_process_mcp.Buffer.Refines.{
  Logs, no_logs, promise, Refines, apply-Refines, new-Refines, size-apply,
}
use interactive_process_mcp.Sessions.{
  Config, Start, ExitLeft, nothing_left, to_close, to_record, closes_buffer, records_exit,
  closed_by, close_buffer, recorded_by, record_exit, Session, Event, outputs, finds_done, exits,
  gives_up, resizes, sends, registers, unregisters, drains, sftp_ends, Pipe, stdout_pipe,
  stderr_pipe, exit_with, exit, give_up, pump, send_input, resize_pty, register_reader,
  unregister_reader, step, steps, fresh, is_running,
}

-- Which pipes are still read, whether the process is known to have ended, and whether its exit has been
-- decided, so that the buffer may be closed.
pub record Contract : Type 0 where
  pub logs : Logs
  pub stdout : Bool
  pub stderr : Bool
  pub done : Bool
  pub exiting : Bool

-- A session that has just begun: its default reader is registered.
abbrev pub begun : Contract
begun = record {
  logs = promise Buffer.registers no_logs;
  stdout = true;
  stderr = true;
  done = false;
  exiting = false;
}

unfoldable pub follow : Event → Contract → Contract
follow (outputs stdout_pipe p failed) c =
    if c.stdout
    then record c { logs = promise (Buffer.writes p) c.logs; stdout = not (failed || c.done) }
    else c
follow (outputs stderr_pipe p failed) c =
    if c.stderr
    then record c { logs = promise (Buffer.writes p) c.logs; stderr = not (failed || c.done) }
    else c
follow finds_done c = record c { done = true }
follow (exits code now) c = record c { exiting = true }
follow (gives_up now) c = record c { exiting = true }
follow closes_buffer c = if c.exiting then record c { logs = promise Buffer.closes c.logs } else c
follow (records_exit call) c = c
follow (resizes rows cols resize_ok) c = c
follow (sends text press_enter cut call) c = c
follow registers c = record c { logs = promise Buffer.registers c.logs }
follow (unregisters id) c = record c { logs = promise (Buffer.unregisters id) c.logs }
follow (drains id) c = record c { logs = promise (Buffer.drains id) c.logs }
follow sftp_ends c = c

unfoldable pub follow_all : List Event → Contract → Contract
follow_all [] c = c
follow_all (e ∷ events) c = follow_all events (follow e c)

unfoldable pub must_close : ExitLeft → Bool
must_close nothing_left = false
must_close (to_close content) = true
must_close (to_record content) = false

module _ (ring : Ring) where
  pub record Keeps (s : Session ring) (c : Contract) : Type 0 where
    pub refines : Refines ring s.buf c.logs
    pub stdout : s.stdout ≡ c.stdout
    pub stderr : s.stderr ≡ c.stderr
    pub done : s.done ≡ c.done
    pub once : s.exit_once ≡ c.exiting
    pub shut : c.logs.shut ≡ (s.exit_once && not (must_close s.exit_left))
    pub idle : s.exit_once ≡ false → s.exit_left ≡ nothing_left
    pub valid : IsValid ring s.buf
    pub sized : s.buf.size ≡ Buffer.default_max_bytes

  -- An operation of the buffer that does not close it.
  after :
      (op : Buffer.Op) (s : Session ring) (c : Contract)
      → (promise op c.logs).shut ≡ c.logs.shut
      → Keeps s c
      → Keeps (record s { buf = apply ring op s.buf }) (record c { logs = promise op c.logs })
  after op s c open' k = record {
    refines = apply-Refines ring op s.buf c.logs k.valid k.refines;
    stdout = k.stdout;
    stderr = k.stderr;
    done = k.done;
    once = k.once;
    shut = open' ∙ k.shut;
    idle = k.idle;
    valid = apply-IsValid ring op s.buf k.valid;
    sized = size-apply ring op s.buf ∙ k.sized;
  }

  shut-writes : (p : Text) (l : Logs) → (promise (Buffer.writes p) l).shut ≡ l.shut
  unfolding promise
  shut-writes p l = ground arith

  shut-registers : (l : Logs) → (promise Buffer.registers l).shut ≡ l.shut
  unfolding promise
  shut-registers l = ground arith

  -- A step that leaves the buffer alone.
  same :
      (s t : Session ring) (c : Contract)
      → t.buf ≡ s.buf
      → (t.stdout ≡ s.stdout) × (t.stderr ≡ s.stderr) × (t.done ≡ s.done)
      → (t.exit_once ≡ s.exit_once) × (t.exit_left ≡ s.exit_left)
      → Keeps s c
      → Keeps t c
  same s t c buf (out, errs, fin) (once, left) k = record {
    refines = rw buf k.refines;
    stdout = out ∙ k.stdout;
    stderr = errs ∙ k.stderr;
    done = fin ∙ k.done;
    once = once ∙ k.once;
    shut = rw (once, left) k.shut;
    idle = λ h. left ∙ k.idle (sym once ∙ h);
    valid = rw buf k.valid;
    sized = rw buf k.sized;
  }

  pump-Keeps :
      (pipe : Pipe) (p : Text) (failed : Bool) (s : Session ring) (c : Contract)
      → Keeps s c
      → Keeps (pump ring pipe p failed s) (follow (outputs pipe p failed) c)
  unfolding pump follow apply Buffer.write
  pump-Keeps stdout_pipe p failed s c k = elim (Bool-cases c.stdout) [
    | inl live ↦
        simp (k.stdout ∙ live, live)
          (record {
            refines = apply-Refines ring (Buffer.writes p) s.buf c.logs k.valid k.refines;
            stdout = rw k.done refl;
            stderr = k.stderr;
            done = k.done;
            once = k.once;
            shut = shut-writes p c.logs ∙ k.shut;
            idle = k.idle;
            valid = apply-IsValid ring (Buffer.writes p) s.buf k.valid;
            sized = size-apply ring (Buffer.writes p) s.buf ∙ k.sized;
          })
    | inr gone ↦ simp (k.stdout ∙ gone, gone) k
  ]
  pump-Keeps stderr_pipe p failed s c k = elim (Bool-cases c.stderr) [
    | inl live ↦
        simp (k.stderr ∙ live, live)
          (record {
            refines = apply-Refines ring (Buffer.writes p) s.buf c.logs k.valid k.refines;
            stdout = k.stdout;
            stderr = rw k.done refl;
            done = k.done;
            once = k.once;
            shut = shut-writes p c.logs ∙ k.shut;
            idle = k.idle;
            valid = apply-IsValid ring (Buffer.writes p) s.buf k.valid;
            sized = size-apply ring (Buffer.writes p) s.buf ∙ k.sized;
          })
    | inr gone ↦ simp (k.stderr ∙ gone, gone) k
  ]

  -- The decision of the exit leaves the buffer alone.
  exit_with-Keeps :
      (code : ℤ) (content : Text) (now : ℕ) (s : Session ring) (c : Contract)
      → Keeps s c
      → Keeps (exit_with ring code content now s) (record c { exiting = true })
  unfolding exit_with must_close
  exit_with-Keeps code content now s c k = elim (Bool-cases s.exit_once) [
    | inl twice ↦ simp twice (record {
      refines = k.refines;
      stdout = k.stdout;
      stderr = k.stderr;
      done = k.done;
      once = twice;
      shut = k.shut;
      idle = k.idle;
      valid = k.valid;
      sized = k.sized;
    })
    | inr first ↦ simp first (record {
      refines = k.refines;
      stdout = k.stdout;
      stderr = k.stderr;
      done = k.done;
      once = refl;
      shut = k.shut ∙ rw first refl;
      idle = λ e. cc;
      valid = k.valid;
      sized = k.sized;
    })
  ]

  -- A buffer that is closed stays as it was promised.
  closed-Keeps :
      (s : Session ring) (c : Contract)
      → c.logs.shut ≡ true
      → Keeps s c
      → Keeps s (record c { logs = promise Buffer.closes c.logs })
  unfolding promise
  closed-Keeps s c shut k = record {
    refines = record {
      unread = k.refines.unread;
      next = k.refines.next;
      shut = k.refines.shut ∙ shut;
    };
    stdout = k.stdout;
    stderr = k.stderr;
    done = k.done;
    once = k.once;
    shut = sym shut ∙ k.shut;
    idle = k.idle;
    valid = k.valid;
    sized = k.sized;
  }

  closed_by-Keeps :
      (l : ExitLeft) (s : Session ring) (c : Contract)
      → s.exit_left ≡ l
      → s.exit_once ≡ true
      → Keeps s c
      → Keeps (closed_by ring l s) (record c { logs = promise Buffer.closes c.logs })
  unfolding closed_by must_close promise apply Buffer.close
  closed_by-Keeps nothing_left s c is once k = closed-Keeps s c (k.shut ∙ rw (once, is) refl) k
  closed_by-Keeps (to_record content) s c is once k =
      closed-Keeps s c (k.shut ∙ rw (once, is) refl) k
  closed_by-Keeps (to_close content) s c is once k = record {
    refines = apply-Refines ring Buffer.closes s.buf c.logs k.valid k.refines;
    stdout = k.stdout;
    stderr = k.stderr;
    done = k.done;
    once = k.once;
    shut = rw once refl;
    idle = λ e. absurd (ground (arith, once, e));
    valid = apply-IsValid ring Buffer.closes s.buf k.valid;
    sized = k.sized;
  }

  close_buffer-Keeps :
      (s : Session ring) (c : Contract)
      → Keeps s c
      → Keeps (close_buffer ring s) (follow closes_buffer c)
  unfolding close_buffer follow closed_by
  close_buffer-Keeps s c k =
      if_cases (λ (d : Contract). Keeps (close_buffer ring s) d) c.exiting
        (λ decided. closed_by-Keeps s.exit_left s c refl (k.once ∙ decided) k)
        λ before.
          subst (λ (t : Session ring). Keeps t c)
            (sym (ap (λ l. closed_by ring l s) (k.idle (k.once ∙ before)))) k

  recorded_by-Keeps :
      (l : ExitLeft) (call : Call) (s : Session ring) (fs : Fs) (c : Contract)
      → s.exit_left ≡ l
      → Keeps s c
      → Keeps (recorded_by ring l call (s, fs)).0 c
  unfolding recorded_by must_close
  recorded_by-Keeps nothing_left call s fs c is k = k
  recorded_by-Keeps (to_close content) call s fs c is k = k
  recorded_by-Keeps (to_record content) call s fs c is k = record {
    refines = k.refines;
    stdout = k.stdout;
    stderr = k.stderr;
    done = k.done;
    once = k.once;
    shut = k.shut ∙ rw is refl;
    idle = λ e. refl;
    valid = k.valid;
    sized = k.sized;
  }

  resize-Keeps :
      (rows cols : ℤ) (resize_ok : Bool) (s : Session ring) (c : Contract)
      → Keeps s c
      → Keeps (resize_pty ring rows cols resize_ok s).1 c
  unfolding resize_pty is_running
  resize-Keeps rows cols resize_ok s c k =
      same s _ c (ground arith) (ground arith, ground arith, ground arith)
        (ground arith, ground arith) k

  send-Keeps :
      (text : Text) (press_enter : Bool) (cut : Option ℕ) (call : Call) (s : Session ring) (fs : Fs)
      (c : Contract)
      → Keeps s c
      → Keeps (send_input ring text press_enter cut call (s, fs)).1.0 c
  unfolding send_input is_running
  send-Keeps text press_enter cut call s fs c k =
      same s _ c (ground arith) (ground arith, ground arith, ground arith)
        (ground arith, ground arith) k

  pub step-Keeps :
      (e : Event) (s : Session ring) (fs : Fs) (c : Contract)
      → Keeps s c
      → Keeps (step ring e (s, fs)).0 (follow e c)
  unfolding step follow register_reader unregister_reader apply exit give_up record_exit
  step-Keeps (outputs pipe p failed) s fs c k = pump-Keeps pipe p failed s c k
  step-Keeps finds_done s fs c k = record {
    refines = k.refines;
    stdout = k.stdout;
    stderr = k.stderr;
    done = refl;
    once = k.once;
    shut = k.shut;
    idle = k.idle;
    valid = k.valid;
    sized = k.sized;
  }
  step-Keeps (exits code now) s fs c k = exit_with-Keeps code _ now s c k
  step-Keeps (gives_up now) s fs c k = exit_with-Keeps _ _ now s c k
  step-Keeps closes_buffer s fs c k = close_buffer-Keeps s c k
  step-Keeps (records_exit call) s fs c k = recorded_by-Keeps s.exit_left call s fs c refl k
  step-Keeps (resizes rows cols resize_ok) s fs c k = resize-Keeps rows cols resize_ok s c k
  step-Keeps (sends text press_enter cut call) s fs c k =
      send-Keeps text press_enter cut call s fs c k
  step-Keeps registers s fs c k = after Buffer.registers s c (shut-registers c.logs) k
  step-Keeps (unregisters id) s fs c k =
      after (Buffer.unregisters id) s c (unfold promise in refl) k
  step-Keeps (drains id) s fs c k = after (Buffer.drains id) s c (unfold promise in refl) k
  step-Keeps sftp_ends s fs c k = same s _ c refl (refl, refl, refl) (refl, refl) k
