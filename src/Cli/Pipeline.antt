-- ===== src/Cli/Pipeline.antt =====
-- cli/src/main.rs: requests that are sent before the responses to earlier ones have come. What the
-- socket does is a list of outcomes; a call takes the next one, and succeeds past the end of the list.
pub mod Answers
use clipboard_history.Prelude.{
  ℕ, zero, suc, ◌+◌, ◌/◌, Bool, true, false, List, [], ◌∷◌, Result, ok, err, ltb, leb, ◌==◌,
  if◌then◌else◌,
}
use clipboard_history.Prelude.Results.{◌>>=◌}

pub data Outcome : Type 0 where
  done would_block failed : Outcome

-- The socket, and how many requests have been sent and responses received.
pub record Wire : Type 0 where
  pub sends : List Outcome
  pub recvs : List Outcome
  pub sent : ℕ
  pub received : ℕ

pub data PipelineError : Type 0 where
  io_failed out_of_fuel : PipelineError

-- A call that waits does not end with `WouldBlock`.
unfoldable pub call : Bool → List Outcome → Outcome × List Outcome
call waits [] = (done, [])
call waits (done ∷ os) = (done, os)
call waits (would_block ∷ os) = (if waits then done else would_block, os)
call waits (failed ∷ os) = (failed, os)

-- `drain_requests` and the number of pending requests after it.
unfoldable pub drain_requests : ℕ → ℕ → Wire → Result (ℕ × Wire) PipelineError
drain_requests remaining zero w = ok (zero, w)
drain_requests remaining (suc pending) w =
    let (outcome, recvs) = call (ltb remaining (suc pending)) w.recvs in
    let w' : Wire = record w { recvs = recvs } in
    let rest = drain_requests remaining pending (record w' { received = w.received + 1 }) in
    elim outcome [ done ↦ rest | would_block ↦ ok (suc pending, w') | failed ↦ err io_failed ]

-- The loop of `pipeline_request`; a round that does not send has received a response.
unfoldable pub send_loop : ℕ → ℕ → Wire → Result (ℕ × Wire) PipelineError
send_loop zero pending w = err out_of_fuel
send_loop (suc fuel) pending w =
    let (outcome, sends) = call (pending == 0) w.sends in
    let w' : Wire = record w { sends = sends } in
    elim outcome [
      | done ↦ ok (pending + 1, record w' { sent = w.sent + 1 })
      | would_block ↦
          drain_requests (pending / 2) pending w' >>= λ (pending', w''). send_loop fuel pending' w''
      | failed ↦ err io_failed
    ]

-- `pipeline_request`; there are as many rounds as pending requests, and one more.
unfoldable pub pipeline_request : ℕ → Wire → Result (ℕ × Wire) PipelineError
pipeline_request pending w =
    (if leb 8 pending then drain_requests (pending / 2) pending w else ok (pending, w))
    >>= λ (pending', w'). send_loop (suc pending') pending' w'

-- So many requests and the drain at the end, as the migrations make them.
unfoldable pub pipeline_all : ℕ → ℕ → Wire → Result (ℕ × Wire) PipelineError
pipeline_all zero pending w = drain_requests 0 pending w
pipeline_all (suc n) pending w =
    pipeline_request pending w >>= λ (pending', w'). pipeline_all n pending' w'
