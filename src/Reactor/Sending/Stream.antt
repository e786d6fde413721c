-- ===== src/Reactor/Sending/Stream.antt =====
-- The bytes that a connection sends (reactor/TcpConnection.cc), over any system that keeps the laws
-- of write(2).
use car_detect.Prelude.{
  ℕ, zero, suc, ◌+◌, ◌-◌, ◌≤◌, ◌<◌, ◌≡◌, refl, sym, ap, ◌∙◌, some, true, false, List, [], ◌∷◌, ◌++◌,
  append-nil, take-append-drop, append_assoc, Bytes, length, take, drop, length-drop, drop_all,
  length-append, arith, ◌⊎◌, inl, inr, ltb, Bool-cases, if◌then◌else◌,
}
use car_detect.Effect.{Outcome, done, Action, bind-done, ◌>>=◌}
use car_detect.Os.{Os, WriteLaws, wrote, interrupted, would_block}
use car_detect.Tcp.{Ret, value, on_write, tcp_write_loop}
use car_detect.Tcp.Write.{take-add}
use car_detect.Reactor.Sending.{
  SendState, new_sender, holds_none, buffered, all_sent, Call, sends, can_write, writen, after_send,
  send, after_write, handle_write_callback, run,
}

-- What a connection is between calls when it still has `rest` to send: it waits for the socket just
-- when there is something.
abbrev pub holding : Bytes → SendState
holding [] = new_sender
holding (b ∷ bs) = record {
  send_buffer = b ∷ bs;
  is_writing = true;
  write_events = true;
  closed = false;
}

abbrev pub messages : List Call → Bytes
messages [] = []
messages (sends msg ∷ calls) = msg ++ messages calls
messages (can_write ∷ calls) = messages calls

buffered-holding : (rest : Bytes) → 0 < length rest → buffered rest new_sender ≡ holding rest
buffered-holding [] h = absurd (omega arith)
buffered-holding (b ∷ bs) h = refl

after_send-holding :
    (n : ℕ) (msg : Bytes)
    → n ≤ length msg
    → (if ltb n (length msg) then buffered (drop n msg) new_sender else new_sender)
      ≡ holding (drop n msg)
after_send-holding n msg h = elim (Bool-cases (ltb n (length msg))) [
  | inl e ↦ rw e (buffered-holding (drop n msg) (ground (arith, length-drop n msg)))
  | inr e ↦ rw (e, drop_all n msg (ground arith)) refl
]

after_write-holding :
    (b : ℕ) (bs rest : Bytes)
    → (if holds_none rest
        then all_sent (holding (b ∷ bs))
        else record (holding (b ∷ bs)) { send_buffer = rest })
      ≡ holding rest
after_write-holding b bs [] = refl
after_write-holding b bs (x ∷ xs) = refl

continued :
    (sent sent1 buf msg rest more all : Bytes)
    → sent1 ++ rest ≡ sent ++ (buf ++ msg)
    → all ≡ sent1 ++ (rest ++ more)
    → all ≡ sent ++ (buf ++ (msg ++ more))
continued sent sent1 buf msg rest more all e e' =
    e'
    ∙ sym (append_assoc sent1 rest more)
    ∙ ap (λ s. s ++ more) e
    ∙ append_assoc sent (buf ++ msg) more
    ∙ ap (λ s. sent ++ s) (append_assoc buf msg more)

module _ (os : Os) (laws : WriteLaws os) (fd : ℕ) where
  open laws use {taken, at_most, in_order}

  -- A socket whose peer is there: a write takes something or nothing, would block, or is interrupted,
  -- and finitely many signals are pending.
  pub record IsAlive : Type 0 where
    pub pending : Os.World os → ℕ
    pub moves :
        (b : ℕ) (rest : Bytes) (w : Os.World os)
        → let (r, w') = Os.write os (some fd) (b ∷ rest) w in
          ((r ≡ interrupted) × (pending w' < pending w))
          ⊎ ((r ≡ would_block) × (pending w' ≤ pending w))
          ⊎ ((m : ℕ) × (r ≡ wrote m) × (pending w' ≤ pending w))

  module _ (alive : IsAlive) where
    open alive use {pending}

    -- The loop comes back, and tells how many bytes went out.
    abbrev Takes : ℕ → Bytes → Os.World os → Outcome (Ret × Os.World os) → Type 0
    Takes len rest w o =
        (j : ℕ) × (w' : Os.World os) × (o ≡ done (value (len - length rest + j), w'))
        × (j ≤ length rest)
        × (taken w' (some fd) ≡ taken w (some fd) ++ take j rest)
        × (pending w' ≤ pending w)

    Takes-after :
        (len : ℕ) (rest : Bytes) (m : ℕ) (w w1 : Os.World os) (o : Outcome (Ret × Os.World os))
        → length rest ≤ len
        → m ≤ length rest
        → taken w1 (some fd) ≡ taken w (some fd) ++ take m rest
        → pending w1 ≤ pending w
        → Takes len (drop m rest) w1 o
        → Takes len rest w o
    Takes-after len rest m w w1 o hl hm e hp (j, w', eo, hj, ej, hp') =
        let count : len - length (drop m rest) + j ≡ len - length rest + (m + j) =
          omega (arith, length-drop m rest) in
        (
          m + j,
          w',
          eo ∙ ap (λ (n : ℕ). done (value n, w')) count,
          omega (arith, length-drop m rest),
          rw (ej, e, append_assoc, take-add) refl,
          omega arith,
        )

    -- The loop stops after a write that took nothing.
    Takes-stop :
        (len : ℕ) (rest : Bytes) (w w1 : Os.World os)
        → taken w1 (some fd) ≡ taken w (some fd) ++ []
        → pending w1 ≤ pending w
        → Takes len rest w (done (value (len - length rest), w1))
    Takes-stop len rest w w1 e hp =
        (0, w1, ap (λ (n : ℕ). done (value n, w1)) (omega arith), omega arith, e, hp)

    tcp_write_loop-Takes :
        (fuel len : ℕ) (rest : Bytes) (w : Os.World os)
        → length rest ≤ len
        → pending w + length rest < fuel
        → Takes len rest w (tcp_write_loop os fuel (some fd) len rest w)
    unfolding tcp_write_loop on_write
    tcp_write_loop-Takes zero len rest w h lt = absurd (omega arith)
    tcp_write_loop-Takes (suc fuel) len [] w h lt = (
      0,
      w,
      ap (λ (n : ℕ). done (value n, w)) (omega arith),
      omega arith,
      sym (append-nil _),
      omega arith,
    )
    tcp_write_loop-Takes (suc fuel) len (b ∷ rest) w h lt =
        let w1 = (Os.write os (some fd) (b ∷ rest) w).1 in
        let grew = in_order (some fd) (b ∷ rest) w in
        let fits = at_most (some fd) (b ∷ rest) w in
        elim (alive.moves b rest w) [
          | inl (e, fewer) ↦
              rw (e, on_write)
                (Takes-after len (b ∷ rest) 0 w w1 _ h (omega arith) (rw e at grew) (omega arith)
                  (tcp_write_loop-Takes fuel len (b ∷ rest) w1 h (omega arith)))
          | inr (inl (e, fewer)) ↦
              rw (e, on_write) (Takes-stop len (b ∷ rest) w w1 (rw e at grew) fewer)
          | inr (inr (zero, e, fewer)) ↦
              rw (e, on_write) (Takes-stop len (b ∷ rest) w w1 (rw e at grew) fewer)
          | inr (inr (suc m, e, fewer)) ↦
              let room : suc m ≤ length (b ∷ rest) = rw e at fits in
              rw (e, on_write)
                (Takes-after len (b ∷ rest) (suc m) w w1 _ h room (rw e at grew) fewer (
                  tcp_write_loop-Takes fuel len (drop m rest) w1 (omega (arith, length-drop m rest))
                    (omega (arith, length-drop m rest))))
        ]

    -- A call comes back: what was to be sent and what came with the call has gone out, or still waits.
    abbrev Moved : Bytes → Bytes → Os.World os → Outcome (SendState × Os.World os) → Type 0
    Moved buf msg w o =
        (rest : Bytes) × (w' : Os.World os) × (o ≡ done (holding rest, w'))
        × (taken w' (some fd) ++ rest ≡ taken w (some fd) ++ (buf ++ msg))
        × (pending w' ≤ pending w)
        × (length rest ≤ length buf + length msg)

    writen-Moved :
        (fuel : ℕ) (buf : Bytes) (w : Os.World os) (next : Ret → Action (Os.World os) SendState)
        → ((j : ℕ) (v : Os.World os)
            → j ≤ length buf
            → next (value (length buf - length buf + j)) v ≡ done (holding (drop j buf), v))
        → pending w + length buf < fuel
        → Moved buf [] w ((writen os fuel fd buf >>= next) w)
    unfolding writen
    writen-Moved fuel buf w next h lt =
        let (j, w', e, hj, ej, hp) =
          tcp_write_loop-Takes fuel (length buf) buf w (omega arith) lt in
        (
          drop j buf,
          w',
          bind-done (writen os fuel fd buf) next w w' _ e ∙ h j w' hj,
          rw (ej, append_assoc, take-append-drop j buf, append-nil) refl,
          hp,
          omega (arith, length-drop j buf),
        )

    send-Moved :
        (fuel : ℕ) (msg buf : Bytes) (w : Os.World os)
        → pending w + length msg < fuel
        → Moved buf msg w (send os fuel fd msg (holding buf) w)
    unfolding send after_send
    send-Moved fuel msg [] w lt =
        let (rest, w', e, stream, hp, small) =
          writen-Moved fuel msg w (after_send os msg new_sender)
            (λ j v hj.
              ap (λ c. done (c, v))
                (after_send-holding (length msg - length msg + j) msg (omega arith)
                  ∙ ap (λ n. holding (drop n msg)) (omega arith)))
            lt in
        (rest, w', e, rw append-nil at stream, hp, omega arith)
    send-Moved fuel msg (b ∷ bs) w lt =
        ((b ∷ bs) ++ msg, w, refl, refl, omega arith, omega (arith, length-append (b ∷ bs) msg))

    handle_write_callback-Moved :
        (fuel : ℕ) (buf : Bytes) (w : Os.World os)
        → pending w + length buf < fuel
        → Moved buf [] w (handle_write_callback os fuel fd (holding buf) w)
    unfolding handle_write_callback after_write
    handle_write_callback-Moved fuel [] w lt = ([], w, refl, refl, omega arith, omega arith)
    handle_write_callback-Moved fuel (b ∷ bs) w lt =
        writen-Moved fuel (b ∷ bs) w (after_write os (holding (b ∷ bs)))
          (λ j v hj.
            ap (λ c. done (c, v))
              (after_write-holding b bs (drop (length (b ∷ bs) - length (b ∷ bs) + j) (b ∷ bs))
                ∙ ap (λ n. holding (drop n (b ∷ bs))) (omega arith)))
          lt

    run-Moved :
        (fuel : ℕ) (calls : List Call) (buf : Bytes) (w : Os.World os)
        → pending w + (length buf + length (messages calls)) < fuel
        → Moved buf (messages calls) w (run os fuel fd calls (holding buf) w)
    unfolding run
    run-Moved fuel [] buf w lt = (buf, w, refl, rw append-nil refl, omega arith, omega arith)
    run-Moved fuel (sends msg ∷ calls) buf w lt =
        let (rest, w1, e, stream, hp, small) =
          send-Moved fuel msg buf w (omega (arith, length-append msg (messages calls))) in
        let (rest', w2, e', stream', hp', small') =
          run-Moved fuel calls rest w1 (omega (arith, length-append msg (messages calls))) in
        (
          rest',
          w2,
          bind-done (send os fuel fd msg (holding buf)) (run os fuel fd calls) w w1 _ e ∙ e',
          continued (taken w (some fd)) (taken w1 (some fd)) buf msg rest (messages calls) _ stream
              stream',
          omega arith,
          omega (arith, length-append msg (messages calls)),
        )
    run-Moved fuel (can_write ∷ calls) buf w lt =
        let (rest, w1, e, stream, hp, small) =
          handle_write_callback-Moved fuel buf w (omega arith) in
        let (rest', w2, e', stream', hp', small') = run-Moved fuel calls rest w1 (omega arith) in
        (
          rest',
          w2,
          bind-done (handle_write_callback os fuel fd (holding buf)) (run os fuel fd calls) w w1 _ e
              ∙ e',
          continued (taken w (some fd)) (taken w1 (some fd)) buf [] rest (messages calls) _ stream
              stream',
          omega arith,
          omega arith,
        )

    -- Where the peer is there, the calls that a new connection gets, in any order and number, all
    -- come back within a round for each pending signal and each byte, throw nothing, and lose
    -- nothing: what the peer will read, followed by what the connection still holds, is all that was
    -- handed to it, in order; and epoll is asked for the socket just when something is held.
    pub run-holding :
        (fuel : ℕ) (calls : List Call) (w : Os.World os)
        → pending w + length (messages calls) < fuel
        → (rest : Bytes) × (w' : Os.World os) × (run os fuel fd calls new_sender w
            ≡ done (holding rest, w'))
          × (taken w' (some fd) ++ rest ≡ taken w (some fd) ++ messages calls)
    run-holding fuel calls w lt =
        let (rest, w', e, stream, hp, small) = run-Moved fuel calls [] w (omega arith) in
        (rest, w', e, stream)
