-- ===== src/Server/Reactor/Closing.antt =====
-- server/src/reactor.rs: a connected client that closes its end is closed behind its last reply.
use clipboard_history.Prelude.{
  ℕ, zero, suc, take, ltb, if◌then◌else◌, ◌+◌, ◌<◌, ◌≡◌, ◌≢◌, refl, sym, ap, ◌∙◌, Bool, true, false,
  none, some, List, [], ◌∷◌, Result, ok, arith, ◌==◌, length, length-set, get_or, get_or-set,
  Bool-cases, Option-cases, inl, inr,
}
use clipboard_history.Prelude.Results.{◌>>=◌}
use clipboard_history.Prelude.Flags.{width}
use clipboard_history.Prelude.Files.{Bytes}
use clipboard_history.Server.Store.{CliError}
use clipboard_history.Server.SendMsgBufs.{
  ClientBufs, bufs_of, put_bufs, new_client, slot_of, free, free_client, has_outstanding_sends,
}
use mathlib.Core.Path.{subst}
use clipboard_history.Server.Requests.{ServerState, Wire}
use clipboard_history.Server.Clients.{is_connected, is_closing}
use clipboard_history.Server.Clients.Laws.{set_disconnected_flags, set_disconnecting_flags}
use clipboard_history.Server.Reactor.{
  Reactor, message, close, Sent, sent, broken_pipe, send_reset, canceled, send_broken, with_bufs,
  outstanding, try_close, has_ring, handle_message, release, after_send, resume, handle_sendmsg,
  handle_receive,
}
use clipboard_history.Server.Reactor.Stuck.{closes, closes-append}

-- The ends of the sends of one client, one after the other.
abbrev pub run_sends : ℕ → List (ℕ × Sent) → Reactor → Result Reactor CliError
run_sends client [] s = ok s
run_sends client ((token, r) ∷ rest) s =
    handle_sendmsg client token r s >>= λ t. run_sends client rest t

take-nil : (k : ℕ) → take {A = ℕ × Sent} k [] ≡ []
take-nil zero = refl
take-nil (suc k) = refl

-- Each token names a buffer that is still in use.
abbrev pub Frees : List (ℕ × Sent) → ClientBufs → Type 0
Frees [] c = Unit
Frees ((token, r) ∷ rest) c =
    (r ≢ send_broken) × (c' : ClientBufs) × (free_client token c ≡ some c') × Frees rest c'

free_client_count :
    (token : ℕ) (c c' : ClientBufs)
    → free_client token c ≡ some c'
    → c.alloc_count ≡ suc c'.alloc_count
unfolding free_client
free_client_count token c c' run = elim (Bool-cases (c.alloc_count == 0)) [
  | inl e ↦ let now = rw e at run in absurd (ground (arith, now))
  | inr e ↦ elim (Option-cases (get_or c.bufs (slot_of token) none)) [
    | inl f ↦ let now = rw (e, f, free_client) at run in absurd (ground (arith, now))
    | inr (m, f) ↦ let now = rw (e, f, free_client) at run in ground (arith, now)
  ]
]

module _ (client : ℕ) (h : client < width) where
  -- A connected client with so many replies outstanding, whose end is closed.
  record IsEnding (n : ℕ) (s : Reactor) : Type 0 where
    connected : is_connected s.clients client ≡ true
    closing : is_closing s.clients client ≡ true
    ring : has_ring client s ≡ true
    known : client < length s.server.send_bufs.clients
    count : (bufs_of client s.server.send_bufs).alloc_count ≡ n

  -- The descriptor has been given to `close` once more than in `s`, unless the client is still open.
  record IsGivenUp (open_ : Bool) (s t : Reactor) : Type 0 where
    closed :
        closes client t.submissions
        ≡ (if open_ then closes client s.submissions else suc (closes client s.submissions))
    away : is_connected t.clients client ≡ open_
    closing : is_closing t.clients client ≡ true

  abbrev after_free : ClientBufs → Reactor → Reactor
  after_free c s =
      with_bufs
        (record (put_bufs client c s.server.send_bufs) { pool = s.server.send_bufs.pool + 1 }) s

  release-after_free :
      (token : ℕ) (c : ClientBufs) (s : Reactor)
      → has_ring client s ≡ true
      → free_client token (bufs_of client s.server.send_bufs) ≡ some c
      → release client token s ≡ ok (after_free c s)
  unfolding release free
  release-after_free token c s ring frees = rw (frees, release, free, ring)

  after_send-closing :
      (r : Sent) (s : Reactor)
      → is_closing s.clients client ≡ true
      → r ≢ send_broken
      → after_send client r s ≡ ok s
  unfolding after_send
  after_send-closing sent s closing fine = refl
  after_send-closing broken_pipe s closing fine = rw closing
  after_send-closing send_reset s closing fine = rw closing
  after_send-closing canceled s closing fine = refl
  after_send-closing send_broken s closing fine = absurd (fine refl)

  handle_sendmsg-try_close :
      (n token : ℕ) (r : Sent) (c : ClientBufs) (s : Reactor)
      → IsEnding n s
      → r ≢ send_broken
      → free_client token (bufs_of client s.server.send_bufs) ≡ some c
      → handle_sendmsg client token r s ≡ ok (try_close client (after_free c s))
  unfolding handle_sendmsg resume
  handle_sendmsg-try_close n token r c s ending fine frees = rw (
    release-after_free token c s ending.ring frees,
    after_send-closing r (after_free c s) ending.closing fine,
    ending.closing,
    ending.connected,
  )

  bufs_of-after_free :
      (c : ClientBufs) (s : Reactor)
      → client < length s.server.send_bufs.clients
      → bufs_of client (after_free c s).server.send_bufs ≡ c
  bufs_of-after_free c s known =
      ground (arith, get_or-set s.server.send_bufs.clients client c client new_client known)

  -- `try_close` with no reply outstanding, and with one.
  try_close-IsGivenUp :
      (s t : Reactor)
      → t.submissions ≡ s.submissions
      → (bufs_of client t.server.send_bufs).alloc_count ≡ 0
      → IsGivenUp false s (try_close client t)
  unfolding try_close has_outstanding_sends
  try_close-IsGivenUp s t same none_left =
      let idle : outstanding client t ≡ false = ground (arith, none_left) in
      let flags = set_disconnected_flags t.clients client client h h in
      rw idle (record {
        closed = ground (arith, same, closes-append client t.submissions (close client ∷ []));
        away = ground (arith, flags);
        closing = ground (arith, flags);
      })

  try_close-IsEnding :
      (n : ℕ) (t : Reactor)
      → is_connected t.clients client ≡ true
      → has_ring client t ≡ true
      → client < length t.server.send_bufs.clients
      → (bufs_of client t.server.send_bufs).alloc_count ≡ suc n
      → IsEnding (suc n) (try_close client t)
        × ((try_close client t).submissions ≡ t.submissions)
        × ((try_close client t).server ≡ t.server)
  unfolding try_close has_outstanding_sends
  try_close-IsEnding n t here ring known count =
      let busy : outstanding client t ≡ true = ground (arith, count) in
      let flags = set_disconnecting_flags t.clients client client h h in
      rw busy (
        record {
          connected = ground (arith, flags, here);
          closing = ground (arith, flags);
          ring = ring;
          known = known;
          count = count;
        },
        refl,
        refl,
      )

  -- Each end of a send frees a buffer, and the last one closes the descriptor.
  run_sends-IsGivenUp :
      (k : ℕ) (rs : List (ℕ × Sent)) (s : Reactor)
      → 0 < length rs
      → IsEnding (length rs) s
      → Frees rs (bufs_of client s.server.send_bufs)
      → (t : Reactor) × (run_sends client (take k rs) s ≡ ok t) × IsGivenUp (ltb k (length rs)) s t
  run_sends-IsGivenUp k [] s pos ending frees = absurd (omega arith)
  run_sends-IsGivenUp zero (r ∷ rs) s pos ending frees =
      let still : ltb 0 (suc (length rs)) ≡ true = ground arith in
      (
        s,
        refl,
        rw still (record { closed = refl; away = ending.connected; closing = ending.closing }),
      )
  run_sends-IsGivenUp (suc k) ((token, r) ∷ []) s pos ending (fine, c, frees, _) =
      let freed = bufs_of-after_free c s ending.known in
      let before = free_client_count token (bufs_of client s.server.send_bufs) c frees in
      let over : ltb (suc k) 1 ≡ false = ground arith in
      (
        try_close client (after_free c s),
        rw (take-nil k, handle_sendmsg-try_close 1 token r c s ending fine frees),
        rw over (
            try_close-IsGivenUp s (after_free c s) refl
              (ap (λ (b : ClientBufs). b.alloc_count) freed ∙ omega (arith, before, ending.count))),
      )
  run_sends-IsGivenUp (suc k) ((token, r) ∷ q ∷ rs) s pos ending (fine, c, frees, more) =
      let freed = bufs_of-after_free c s ending.known in
      let before = free_client_count token (bufs_of client s.server.send_bufs) c frees in
      let s' = try_close client (after_free c s) in
      let (ending', same, served) =
        try_close-IsEnding (length rs) (after_free c s) ending.connected ending.ring
          (omega (arith, length-set s.server.send_bufs.clients client c, ending.known))
          (ap (λ (b : ClientBufs). b.alloc_count) freed ∙ omega (arith, before, ending.count)) in
      let (t, run, given) = run_sends-IsGivenUp k (q ∷ rs) s' (omega arith) ending' (
        subst (Frees (q ∷ rs))
          (sym (ap (λ (v : ServerState). bufs_of client v.send_bufs) served ∙ freed)) more) in
      let counts : closes client s'.submissions ≡ closes client s.submissions =
        ap (closes client) same in
      let later : ltb (suc k) (suc (suc (length rs))) ≡ ltb k (suc (length rs)) = ground arith in
      (
        t,
        rw (handle_sendmsg-try_close (suc (suc (length rs))) token r c s ending fine frees) run,
        rw later (record {
          closed = given.closed ∙ rw counts;
          away = given.away;
          closing = given.closing;
        }),
      )

-- A connected client, not yet closing, that closes its end, after which the first `k` of the sends that
-- are outstanding end, whether they succeed, find the pipe broken, are reset or are canceled: as long
-- as a send is outstanding, the client stays connected and its descriptor is not given to `close`; with
-- the end of the last one, or at once if there is none, it is given to `close` once and the client is
-- no longer connected. Here `rs` are the ends of the sends, in the order in which they end, each of a
-- buffer that is still in use and as many as are outstanding.
pub closed_client_is_closed :
    (client : ℕ) (wire : Wire) (index : ℕ) (fds : List Bytes) (more : Bool) (rs : List (ℕ × Sent))
    (k : ℕ) (s : Reactor)
    → client < width
    → client < length s.server.send_bufs.clients
    → is_connected s.clients client ≡ true
    → is_closing s.clients client ≡ false
    → has_ring client s ≡ true
    → (bufs_of client s.server.send_bufs).alloc_count ≡ length rs
    → Frees rs (bufs_of client s.server.send_bufs)
    → (t : Reactor) × ((handle_receive wire client (message index [] fds) more s >>= λ s'.
          run_sends client (take k rs) s')
        ≡ ok t)
      × (closes client t.submissions ≡ (
          if ltb k (length rs)
          then closes client s.submissions
          else suc (closes client s.submissions)))
      × (is_connected t.clients client ≡ ltb k (length rs))
      × (is_closing t.clients client ≡ true)
unfolding handle_receive handle_message
closed_client_is_closed client wire index fds more [] k s h known here open_still ring count frees =
    let given = try_close-IsGivenUp client h s s refl count in
    let over : ltb k 0 ≡ false = ground arith in
    (
      try_close client s,
      rw (ring, open_still, take-nil k),
      rw over given.closed,
      rw over given.away,
      given.closing,
    )
closed_client_is_closed client wire index fds more (r ∷ rs) k s h known here open_still ring count
      frees =
    let (ending, same, served) = try_close-IsEnding client h (length rs) s here ring known count in
    let s' = try_close client s in
    let (t, run, given) = run_sends-IsGivenUp client h k (r ∷ rs) s' (omega arith) ending (
      subst (Frees (r ∷ rs)) (sym (ap (λ (v : ServerState). bufs_of client v.send_bufs) served))
        frees) in
    let counts : closes client s'.submissions ≡ closes client s.submissions =
      ap (closes client) same in
    (t, rw (ring, open_still) run, given.closed ∙ rw counts, given.away, given.closing)
