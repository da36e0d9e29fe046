-- ===== src/Worker/Life/Order.antt =====
-- The order of the jobs of the batch processor, and that each of its steps keeps it.
use transaction_api.Prelude.{◌≡◌, refl, sym, ap, ◌∙◌, arith, Bool, true, false, List, [], ◌∷◌, ◌++◌}
use mathlib.Core.List.{append_assoc}
use transaction_api.Worker.{BatchJob}
use transaction_api.Worker.Life.{
  Stop, not_called, returned, Process, idle, busy, gone, BatchProcessor, submit, receive, finish,
}

abbrev pub in_hand : Process → List BatchJob
in_hand (busy job) = job ∷ []
in_hand _ = []

abbrev pub ClosedAt : Stop → Bool → Type 0
ClosedAt not_called closed = closed ≡ false
ClosedAt _ closed = closed ≡ true

-- The jobs that are handled, in hand and queued are those submitted, in their order; a goroutine
-- that has left found the queue closed and empty, and `Stop`, which closes it, returns after it.
pub record IsSound (p : BatchProcessor) : Type 0 where
  pub in_order : p.handled ++ (in_hand p.process ++ p.job_queue) ≡ p.submitted
  pub left_empty : p.process ≡ gone → (p.job_queue ≡ []) × (p.closed ≡ true)
  pub stopped : p.stop ≡ returned → p.process ≡ gone
  pub closing : ClosedAt p.stop p.closed

open_hand :
    (hand queue : List BatchJob) (handled submitted : List BatchJob) (job : BatchJob)
    → handled ++ (hand ++ queue) ≡ submitted
    → handled ++ (hand ++ (queue ++ job ∷ [])) ≡ submitted ++ job ∷ []
open_hand hand queue handled submitted job e =
    ap (λ l. handled ++ l) (sym (append_assoc hand queue (job ∷ [])))
    ∙ sym (append_assoc handled (hand ++ queue) (job ∷ []))
    ∙ ap (λ l. l ++ job ∷ []) e

pub IsSound-submit :
    (job : BatchJob) (p : BatchProcessor) → p.closed ≡ false → IsSound p → IsSound (submit job p)
IsSound-submit job p is_open sound = record {
  in_order = open_hand (in_hand p.process) p.job_queue p.handled p.submitted job sound.in_order;
  left_empty = λ e. absurd (ground (arith, sound.left_empty e));
  stopped = sound.stopped;
  closing = sound.closing;
}

pub IsSound-receive :
    (job : BatchJob) (rest : List BatchJob) (p : BatchProcessor)
    → p.process ≡ idle
    → p.job_queue ≡ job ∷ rest
    → IsSound p
    → IsSound (receive job rest p)
IsSound-receive job rest p is_idle queued sound = record {
  in_order = rw⁻¹ sound.in_order (rw (is_idle, queued) refl);
  left_empty = λ e. absurd (ground arith);
  stopped = λ e. absurd (ground (arith, sound.stopped e));
  closing = sound.closing;
}

pub IsSound-finish :
    (job : BatchJob) (p : BatchProcessor)
    → p.process ≡ busy job
    → IsSound p
    → IsSound (finish job p)
IsSound-finish job p is_busy sound = record {
  in_order = append_assoc p.handled (job ∷ []) p.job_queue ∙ rw⁻¹ sound.in_order (rw is_busy refl);
  left_empty = λ e. absurd (ground arith);
  stopped = λ e. absurd (ground (arith, sound.stopped e));
  closing = sound.closing;
}

pub IsSound-leave :
    (p : BatchProcessor)
    → p.process ≡ idle
    → p.closed ≡ true
    → p.job_queue ≡ []
    → IsSound p
    → IsSound (record p { process = gone })
IsSound-leave p is_idle closed empty sound = record {
  in_order = rw⁻¹ sound.in_order (rw is_idle refl);
  left_empty = λ e. (empty, closed);
  stopped = λ e. refl;
  closing = sound.closing;
}
