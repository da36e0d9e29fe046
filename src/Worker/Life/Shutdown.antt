-- ===== src/Worker/Life/Shutdown.antt =====
-- What `Stop` of the batch processor promises.
use transaction_api.Prelude.{◌≡◌, refl, arith, true, false, List, [], ◌∷◌, ◌++◌}
use mathlib.Core.List.{append-nil}
use mathlib.Core.Path.{subst}
use transaction_api.Worker.{BatchJob}
use transaction_api.Worker.Life.{
  Stop, not_called, waiting, returned, Process, idle, busy, gone, BatchProcessor, start, receive,
  finish, Step, submits, receives, finishes, leaves, closes, waited, Reaches, stays, steps,
}
use transaction_api.Worker.Life.Order.{
  ClosedAt, in_hand, IsSound, IsSound-submit, IsSound-receive, IsSound-finish, IsSound-leave,
}

IsSound-Step : (p q : BatchProcessor) → IsSound p → Step p q → IsSound q
IsSound-Step p _ sound (submits job _ room is_open) = IsSound-submit job p is_open sound
IsSound-Step p _ sound (receives job rest _ is_idle queued) =
    IsSound-receive job rest p is_idle queued sound
IsSound-Step p _ sound (finishes job _ is_busy) = IsSound-finish job p is_busy sound
IsSound-Step p _ sound (leaves _ is_idle closed empty) = IsSound-leave p is_idle closed empty sound
IsSound-Step p _ sound (closes _ _) = record {
  in_order = sound.in_order;
  left_empty = λ e. ((sound.left_empty e).0, refl);
  stopped = λ e. absurd (ground arith);
  closing = refl;
}
IsSound-Step p _ sound (waited _ is_waiting is_gone) = record {
  in_order = sound.in_order;
  left_empty = sound.left_empty;
  stopped = λ e. is_gone;
  closing = subst (λ t. ClosedAt t p.closed) is_waiting sound.closing;
}

IsSound-Reaches : (p q : BatchProcessor) → IsSound p → Reaches p q → IsSound q
IsSound-Reaches p _ sound (stays _) = sound
IsSound-Reaches p r sound (steps _ q _ step more) =
    IsSound-Reaches q r (IsSound-Step p q sound step) more

start-IsSound : IsSound start
start-IsSound = record {
  closing = refl;
  in_order = refl;
  left_empty = λ e. absurd (ground arith);
  stopped = λ e. absurd (ground arith);
}

handled_all : (p : BatchProcessor) → IsSound p → p.stop ≡ returned → p.handled ≡ p.submitted
handled_all p sound e =
    let is_gone = sound.stopped e in
    rw⁻¹ sound.in_order (rw (is_gone, (sound.left_empty is_gone).0, append-nil) refl)

-- A run that goes on from a state until `Stop` has returned, with no further submission.
abbrev pub Returns : BatchProcessor → Type 0
Returns p = (q : BatchProcessor) × Reaches p q × (q.stop ≡ returned) × (q.submitted ≡ p.submitted)

first : (p q : BatchProcessor) → Step p q → q.submitted ≡ p.submitted → Returns q → Returns p
first p q step same (r, path, done, kept) = (r, steps p q r step path, done, rw (kept, same) refl)

Returns-gone : (p : BatchProcessor) → p.stop ≡ waiting → p.process ≡ gone → Returns p
Returns-gone p w is_gone =
    let q = record p { stop = returned } in
    first p q (waited p w is_gone) refl (q, stays q, refl, refl)

Returns-idle :
    (jobs : List BatchJob) (p : BatchProcessor)
    → p.job_queue ≡ jobs
    → p.process ≡ idle
    → p.closed ≡ true
    → p.stop ≡ waiting
    → Returns p
Returns-idle [] p queued is_idle closed w =
    let q = record p { process = gone } in
    first p q (leaves p is_idle closed queued) refl (Returns-gone q w refl)
Returns-idle (job ∷ rest) p queued is_idle closed w =
    let q = receive job rest p in
    first p q (receives job rest p is_idle queued) refl (
      first q (finish job q) (finishes job q refl) refl
        (Returns-idle rest (finish job q) refl refl closed w))

Returns-at :
    (process : Process) (p : BatchProcessor)
    → p.process ≡ process
    → p.closed ≡ true
    → p.stop ≡ waiting
    → Returns p
Returns-at idle p e closed w = Returns-idle p.job_queue p refl e closed w
Returns-at (busy job) p e closed w =
    let q = finish job p in
    first p q (finishes job p e) refl (Returns-idle q.job_queue q refl refl closed w)
Returns-at gone p e closed w = Returns-gone p w e

-- What holds while `Stop` is not called, waits, or has returned.
abbrev pub AtStop : BatchProcessor → Stop → Type 0
AtStop p not_called = p.closed ≡ false
AtStop p waiting = Returns p
AtStop p returned = p.handled ≡ p.submitted

stop-AtStop : (stop : Stop) (p : BatchProcessor) → p.stop ≡ stop → IsSound p → AtStop p stop
stop-AtStop not_called p e sound = subst (λ t. ClosedAt t p.closed) e sound.closing
stop-AtStop waiting p e sound =
    Returns-at p.process p refl (subst (λ t. ClosedAt t p.closed) e sound.closing) e
stop-AtStop returned p e sound = handled_all p sound e

-- In every state that a started processor reaches, the jobs handled, in hand and queued are those
-- submitted, in their order. The queue is open until `Stop` is called; while `Stop` waits, the
-- goroutine can go on, with no further submission, until `Stop` has returned; and when it has
-- returned, every job that was submitted has been handled.
pub start-AtStop :
    (p : BatchProcessor)
    → Reaches start p
    → (p.handled ++ (in_hand p.process ++ p.job_queue) ≡ p.submitted) × AtStop p p.stop
start-AtStop p path =
    let sound = IsSound-Reaches start p start-IsSound path in
    (sound.in_order, stop-AtStop p.stop p refl sound)
