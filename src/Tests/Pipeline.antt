-- ===== src/Tests/Pipeline.antt =====
-- Pipelined requests over a socket that blocks now and then.
use clipboard_history.Prelude.{◌≡◌, refl, List, [], ◌∷◌, ok, err}
use clipboard_history.Cli.Pipeline.{
  Outcome, done, would_block, failed, Wire, call, drain_requests, send_loop, pipeline_request,
  pipeline_all, io_failed,
}
use clipboard_history.Cli.Pipeline.Answers.{requests_are_answered}

abbrev sends : List Outcome
sends = done ∷ done ∷ would_block ∷ would_block ∷ done ∷ []

abbrev recvs : List Outcome
recvs = would_block ∷ done ∷ would_block ∷ []

requests_are_answered_example :
    (w : Wire) × (pipeline_all 12 0
        (record { sends = sends; recvs = recvs; sent = 0; received = 0 })
      ≡ ok (0, w))
    × (w.sent ≡ 12)
    × (w.received ≡ 12)
requests_are_answered_example =
    requests_are_answered 12 sends recvs (tt, (tt, (tt, (tt, (tt, tt))))) (tt, (tt, (tt, tt)))

ninth_request_drains_four :
    pipeline_request 8 (record {
      sends = [];
      recvs = done ∷ done ∷ done ∷ done ∷ would_block ∷ [];
      sent = 8;
      received = 0;
    })
    ≡ ok (5, record { sends = []; recvs = []; sent = 9; received = 4 })
unfolding pipeline_request drain_requests send_loop call
ninth_request_drains_four = refl

failure_ends_the_pipeline :
    pipeline_request 1 (record { sends = failed ∷ []; recvs = []; sent = 1; received = 0 })
    ≡ err io_failed
unfolding pipeline_request send_loop call
failure_ends_the_pipeline = refl
