-- ===== src/Cli/Pipeline/Answers.antt =====
-- cli/src/main.rs: every pipelined request is answered.
use clipboard_history.Prelude.{
  ℕ, zero, suc, ◌+◌, ◌/◌, ◌≤◌, ◌<◌, ◌≡◌, ◌⊎◌, ◌∙◌, refl, ap, Bool, true, false, List, [], ◌∷◌, ok,
  ltb, leb, ◌==◌, arith, Bool-cases, All, inl, inr,
}
use clipboard_history.Cli.Pipeline.{
  Outcome, done, would_block, failed, Wire, call, drain_requests, send_loop, pipeline_request,
  pipeline_all,
}

abbrev pub IsWorking : Outcome → Type 0
IsWorking done = Unit
IsWorking would_block = Unit
IsWorking failed = ⊥

-- No call fails.
abbrev pub Works : Wire → Type 0
Works w = All IsWorking w.sends × All IsWorking w.recvs

call-cases :
    (waits : Bool) (os : List Outcome)
    → All IsWorking os
    → (rest : List Outcome) × All IsWorking rest
      × ((call waits os ≡ (done, rest)) ⊎ ((call waits os ≡ (would_block, rest)) × (waits ≡ false)))
unfolding call
call-cases waits [] all = ([], tt, inl refl)
call-cases waits (done ∷ os) (here, all) = (os, all, inl refl)
call-cases true (would_block ∷ os) (here, all) = (os, all, inl refl)
call-cases false (would_block ∷ os) (here, all) = (os, all, inr (refl, refl))
call-cases waits (failed ∷ os) (here, all) = absurd here

-- What a drain leaves pending, and what it has received.
abbrev Drained : ℕ → ℕ → Wire → ℕ → Wire → Type 0
Drained remaining pending w pending' w' =
    (pending' ≤ remaining)
    × (pending' ≤ pending)
    × (w'.received + pending' ≡ w.received + pending)
    × (w'.sent ≡ w.sent)
    × Works w'

drain_requests-Drained :
    (remaining pending : ℕ) (w : Wire)
    → Works w
    → (pending' : ℕ) × (w' : Wire) × (drain_requests remaining pending w ≡ ok (pending', w'))
      × Drained remaining pending w pending' w'
unfolding drain_requests
drain_requests-Drained remaining zero w works =
    (zero, w, refl, (omega arith, omega arith, refl, refl, works))
drain_requests-Drained remaining (suc pending) w (sends, recvs) =
    let (rest, all, outcome) = call-cases (ltb remaining (suc pending)) w.recvs recvs in
    elim outcome [
      | inl e ↦
          let w' : Wire = record w { recvs = rest; received = w.received + 1 } in
          let (pending', w'', run, (left, fewer, count, sent, works)) =
            drain_requests-Drained remaining pending w' (sends, all) in
          (
            pending',
            w'',
            rw (drain_requests, e, e) run,
            (left, omega arith, omega (arith, count), sent, works),
          )
      | inr (e, waits) ↦ (
        suc pending,
        record w { recvs = rest },
        rw (drain_requests, e, e),
        (ground (arith, waits), omega arith, refl, refl, (sends, all)),
      )
    ]

-- A request that is sent, and how the pending ones follow.
abbrev Sent : ℕ → Wire → ℕ → Wire → Type 0
Sent pending w pending' w' =
    (pending' ≤ suc pending)
    × (w'.received + pending' ≡ suc (w.received + pending))
    × (w'.sent ≡ suc w.sent)
    × Works w'

send_loop-Sent :
    (fuel pending : ℕ) (w : Wire)
    → Works w
    → pending < fuel
    → (pending' : ℕ) × (w' : Wire) × (send_loop fuel pending w ≡ ok (pending', w'))
      × Sent pending w pending' w'
unfolding send_loop
send_loop-Sent zero pending w works enough = absurd (omega arith)
send_loop-Sent (suc fuel) pending w (sends, recvs) enough =
    let (rest, all, outcome) = call-cases (pending == 0) w.sends sends in
    elim outcome [
      | inl e ↦ (
        pending + 1,
        record w { sends = rest; sent = w.sent + 1 },
        rw (send_loop, e, e),
        (omega arith, omega arith, omega arith, (all, recvs)),
      )
      | inr (e, waits) ↦
          let some_pending : 0 < pending = ground (arith, waits) in
          let w' : Wire = record w { sends = rest } in
          let (p, wd, run, (left, fewer, count, sent, works)) =
            drain_requests-Drained (pending / 2) pending w' (all, recvs) in
          let (p', ws, run', (most, count', sent', works')) =
            send_loop-Sent fuel p wd works (omega arith) in
          (
            p',
            ws,
            rw (send_loop, e, e, run) run',
            (omega arith, omega (arith, count, count'), sent' ∙ ap suc sent, works'),
          )
    ]

pipeline_request-Sent :
    (pending : ℕ) (w : Wire)
    → Works w
    → pending ≤ 8
    → (pending' : ℕ) × (w' : Wire) × (pipeline_request pending w ≡ ok (pending', w'))
      × (pending' ≤ 8)
      × Sent pending w pending' w'
unfolding pipeline_request
pipeline_request-Sent pending w works most = elim (Bool-cases (leb 8 pending)) [
  | inr few ↦
      let (p, w', run, sent) = send_loop-Sent (suc pending) pending w works (omega arith) in
      (p, w', rw few run, ground (arith, few, sent.0), sent)
  | inl many ↦
      let (p, w', run, (left, fewer, count, sent, works')) =
        drain_requests-Drained (pending / 2) pending w works in
      let (p', ws, run', (most', count', sent', works_after)) =
        send_loop-Sent (suc p) p w' works' (omega arith) in
      (
        p',
        ws,
        rw (many, run) run',
        omega arith,
        (omega arith, omega (arith, count, count'), sent' ∙ ap suc sent, works_after),
      )
]

pipeline_all-answered :
    (n pending : ℕ) (w : Wire)
    → Works w
    → pending ≤ 8
    → (w' : Wire) × (pipeline_all n pending w ≡ ok (0, w'))
      × (w'.sent ≡ w.sent + n)
      × (w'.received ≡ w.received + pending + n)
unfolding pipeline_all
pipeline_all-answered zero pending w works most =
    let (p, w', run, (left, fewer, count, sent, works')) =
      drain_requests-Drained 0 pending w works in
    let none_left : p ≡ 0 = omega arith in
    (w', run ∙ ap (λ q. ok (q, w')) none_left, omega (arith, sent), omega (arith, count))
pipeline_all-answered (suc n) pending w works most =
    let (p, w', run, most', (fewer, count, sent, works')) =
      pipeline_request-Sent pending w works most in
    let (ws, run', sent', received) = pipeline_all-answered n p w' works' most' in
    (ws, rw run run', omega (arith, sent, sent'), omega (arith, count, received))

-- So many requests, one after the other over a socket on which no call fails, however often it would
-- block: the loops end, all requests are sent and as many responses received, and none is pending at the
-- end.
pub requests_are_answered :
    (n : ℕ) (sends recvs : List Outcome)
    → All IsWorking sends
    → All IsWorking recvs
    → (w : Wire) × (pipeline_all n 0
          (record { sends = sends; recvs = recvs; sent = 0; received = 0 })
        ≡ ok (0, w))
      × (w.sent ≡ n)
      × (w.received ≡ n)
requests_are_answered n sends recvs works works' =
    let (w, run, sent, received) =
      pipeline_all-answered n 0 (record { sends = sends; recvs = recvs; sent = 0; received = 0 })
        (works, works') (omega arith) in
    (w, run, omega (arith, sent), omega (arith, received))
