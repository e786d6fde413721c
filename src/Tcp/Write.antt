-- ===== src/Tcp/Write.antt =====
-- What `tcp_write` of camera/tcp.c guarantees, over any system that keeps the laws of write(2).
use car_detect.Prelude.{
  ℕ, zero, suc, ◌+◌, ◌-◌, ◌≤◌, ◌<◌, ◌≡◌, ◌≢◌, refl, ap, Option, [], ◌∷◌, ◌++◌, append-nil,
  take-append-drop, append_assoc, Bytes, List, length, take, drop, length-drop, arith, ◌⊎◌, inl,
  inr,
}
use native.Mathlib.Nat.{zero-add, suc-add}
use car_detect.Effect.{Ends, Action, Outcome, done, crash, stuck}
use car_detect.Os.{
  Os, WriteLaws, WriteResult, wrote, interrupted, would_block, write_failed, accepted,
}
use car_detect.Tcp.{Ret, value, minus_one, TcpClient, on_write, tcp_write_loop, tcp_write}

take-nil {ℓ} : {A : Type ℓ} (n : ℕ) → take {A = A} n [] ≡ []
take-nil zero = refl
take-nil (suc n) = refl

pub take-add {ℓ} :
    {A : Type ℓ} (m n : ℕ) (xs : List A) → take m xs ++ take n (drop m xs) ≡ take (m + n) xs
take-add zero n xs = rw zero-add
take-add (suc m) n [] = rw (take-nil n, take-nil (suc m + n))
take-add (suc m) n (x ∷ xs) = rw suc-add (ap (◌∷◌ x) (take-add m n xs))

module _ (os : Os) (laws : WriteLaws os) where
  open laws use {taken, at_most, in_order}

  -- The return value, for `j` more bytes sent when `left` were left of `len`.
  abbrev pub Reports : ℕ → ℕ → ℕ → Ret → Type 0
  Reports len left j (value n) = n ≡ len - left + j
  Reports len left j minus_one = Unit

  -- What has been sent is the first bytes of what was left, once and in order, and as many as the
  -- return value says.
  abbrev pub Sent : Option ℕ → ℕ → Bytes → Os.World os → Outcome (Ret × Os.World os) → Type 0
  Sent fd len rest w (done (r, w')) =
      (j : ℕ) × (j ≤ length rest)
      × (taken w' fd ≡ taken w fd ++ take j rest)
      × Reports len (length rest) j r
  Sent fd len rest w crash = ⊥
  Sent fd len rest w stuck = Unit

  Reports-drop :
      (len left m j : ℕ) (r : Ret)
      → left ≤ len
      → m ≤ left
      → Reports len (left - m) j r
      → Reports len left (m + j) r
  Reports-drop len left m j (value n) a b h = omega arith
  Reports-drop len left m j minus_one a b h = tt

  Sent-after :
      (fd : Option ℕ) (len : ℕ) (rest : Bytes) (m : ℕ) (w w1 : Os.World os)
      (o : Outcome (Ret × Os.World os))
      → length rest ≤ len
      → m ≤ length rest
      → taken w1 fd ≡ taken w fd ++ take m rest
      → Sent fd len (drop m rest) w1 o
      → Sent fd len rest w o
  Sent-after fd len rest m w w1 (done (r, w')) hl hm e (j, hj, ej, hr) = (
    m + j,
    omega (arith, length-drop m rest),
    rw (ej, e, append_assoc, take-add),
    Reports-drop len (length rest) m j r hl hm (rw (length-drop m rest) at hr),
  )
  Sent-after fd len rest m w w1 crash hl hm e s = s
  Sent-after fd len rest m w w1 stuck hl hm e s = s

  on_write-Sent :
      (fd : Option ℕ) (len : ℕ) (rest : Bytes) (next : Bytes → Action (Os.World os) Ret)
      → ((rest' : Bytes) (v : Os.World os)
          → length rest' ≤ len
          → Sent fd len rest' v (next rest' v))
      → (r : WriteResult) (w w1 : Os.World os) → length rest ≤ len
      → accepted r ≤ length rest
      → taken w1 fd ≡ taken w fd ++ take (accepted r) rest
      → Sent fd len rest w (on_write len rest next r w1)
  unfolding on_write
  on_write-Sent fd len rest next ih (wrote zero) w w1 h a e = (0, omega arith, e, omega arith)
  on_write-Sent fd len rest next ih (wrote (suc m)) w w1 h a e =
      Sent-after fd len rest (suc m) w w1 _ h a e
        (ih (drop (suc m) rest) w1 (omega (arith, length-drop (suc m) rest)))
  on_write-Sent fd len rest next ih interrupted w w1 h a e =
      Sent-after fd len rest 0 w w1 _ h a e (ih rest w1 h)
  on_write-Sent fd len rest next ih would_block w w1 h a e = (0, omega arith, e, omega arith)
  on_write-Sent fd len rest next ih write_failed w w1 h a e = (0, omega arith, e, tt)

  tcp_write_loop-Sent :
      (fuel : ℕ) (fd : Option ℕ) (len : ℕ) (rest : Bytes) (w : Os.World os)
      → length rest ≤ len
      → Sent fd len rest w (tcp_write_loop os fuel fd len rest w)
  unfolding tcp_write_loop
  tcp_write_loop-Sent zero fd len rest w h = tt
  tcp_write_loop-Sent (suc fuel) fd len [] w h = (0, omega arith, rw append-nil, omega arith)
  tcp_write_loop-Sent (suc fuel) fd len (b ∷ rest) w h =
      on_write-Sent fd len (b ∷ rest) (tcp_write_loop os fuel fd len)
        (tcp_write_loop-Sent fuel fd len) (Os.write os fd (b ∷ rest) w).0 w
        (Os.write os fd (b ∷ rest) w).1 h (at_most fd (b ∷ rest) w) (in_order fd (b ∷ rest) w)

  -- Whatever `write` does, `tcp_write` has no undefined behaviour, and when it returns, what the
  -- peer will read has grown by the first bytes of the buffer, once and in order: by as many as the
  -- return value says, or, when that is -1, by some of them.
  pub tcp_write-Sent :
      (fuel : ℕ) (client : TcpClient) (buf : Bytes) (w : Os.World os)
      → Sent client.fd (length buf) buf w (tcp_write os fuel client buf w)
  unfolding tcp_write
  tcp_write-Sent fuel client buf w =
      tcp_write_loop-Sent fuel client.fd (length buf) buf w (omega arith)

  -- A socket on which each `write` takes a byte at least or is interrupted, and where finitely
  -- many signals are pending.
  pub record IsReliable (fd : Option ℕ) : Type 0 where
    pub pending : Os.World os → ℕ
    pub moves :
        (b : ℕ) (rest : Bytes) (w : Os.World os)
        → let (r, w') = Os.write os fd (b ∷ rest) w in
          ((r ≡ interrupted) × (pending w' < pending w))
          ⊎ ((m : ℕ) × (r ≡ wrote (suc m)) × (pending w' ≤ pending w))

  abbrev pub Delivers : Option ℕ → ℕ → Bytes → Os.World os → Outcome (Ret × Os.World os) → Type 0
  Delivers fd len rest w o =
      (w' : Os.World os) × (o ≡ done (value len, w')) × (taken w' fd ≡ taken w fd ++ rest)

  Delivers-after :
      (fd : Option ℕ) (len : ℕ) (rest : Bytes) (m : ℕ) (w w1 : Os.World os)
      (o : Outcome (Ret × Os.World os))
      → taken w1 fd ≡ taken w fd ++ take m rest
      → Delivers fd len (drop m rest) w1 o
      → Delivers fd len rest w o
  Delivers-after fd len rest m w w1 o e (w', eo, et) =
      (w', eo, rw (et, e, append_assoc, take-append-drop))

  tcp_write_loop-Delivers :
      (fuel : ℕ) (fd : Option ℕ) (rel : IsReliable fd) (len : ℕ) (rest : Bytes) (w : Os.World os)
      → length rest ≤ len
      → rel.pending w + length rest < fuel
      → Delivers fd len rest w (tcp_write_loop os fuel fd len rest w)
  unfolding tcp_write_loop on_write
  tcp_write_loop-Delivers zero fd rel len rest w h lt = absurd (omega arith)
  tcp_write_loop-Delivers (suc fuel) fd rel len [] w h lt = (w, refl, rw append-nil)
  tcp_write_loop-Delivers (suc fuel) fd rel len (b ∷ rest) w h lt =
      let w1 = (Os.write os fd (b ∷ rest) w).1 in
      let grew = in_order fd (b ∷ rest) w in
      let fits = at_most fd (b ∷ rest) w in
      elim (rel.moves b rest w) [
        | inl (e, fewer) ↦
            rw (e, on_write)
              (Delivers-after fd len (b ∷ rest) 0 w w1 _ (rw e at grew)
                (tcp_write_loop-Delivers fuel fd rel len (b ∷ rest) w1 h (omega arith)))
        | inr (m, e, fewer) ↦
            rw (e, on_write)
              (Delivers-after fd len (b ∷ rest) (suc m) w w1 _ (rw e at grew) (
                tcp_write_loop-Delivers fuel fd rel len (drop m rest) w1
                  (omega (arith, length-drop m rest)) (omega (arith, length-drop m rest))))
      ]

  -- On a reliable socket `tcp_write` returns within one round for each pending signal and each
  -- byte, it reports the whole length, and the peer will read the whole buffer.
  pub tcp_write-Delivers :
      (fuel : ℕ) (client : TcpClient) (rel : IsReliable client.fd) (buf : Bytes) (w : Os.World os)
      → rel.pending w + length buf < fuel
      → Delivers client.fd (length buf) buf w (tcp_write os fuel client buf w)
  unfolding tcp_write
  tcp_write-Delivers fuel client rel buf w h =
      tcp_write_loop-Delivers fuel client.fd rel (length buf) buf w (omega arith) h

module _ (os : Os)
    (quiet : (fd : Option ℕ) (buf : Bytes) (w : Os.World os)
      → (Os.write os fd buf w).0 ≢ interrupted) where
  on_write-Ends :
      (len b : ℕ) (rest : Bytes) (next : Bytes → Action (Os.World os) Ret) (fuel : ℕ)
      → ((rest' : Bytes) (v : Os.World os)
          → length rest' < fuel
          → Ends (λ r. Unit {0}) (next rest' v))
      → length (b ∷ rest) < suc fuel
      → (r : WriteResult) (w : Os.World os) → r ≢ interrupted
      → Ends (λ r. Unit {0}) (on_write len (b ∷ rest) next r w)
  unfolding on_write
  on_write-Ends len b rest next fuel ih h (wrote zero) w q = tt
  on_write-Ends len b rest next fuel ih h (wrote (suc m)) w q =
      ih (drop (suc m) (b ∷ rest)) w (omega (arith, length-drop m rest))
  on_write-Ends len b rest next fuel ih h interrupted w q = absurd (q refl)
  on_write-Ends len b rest next fuel ih h would_block w q = tt
  on_write-Ends len b rest next fuel ih h write_failed w q = tt

  tcp_write_loop-Ends :
      (fuel : ℕ) (fd : Option ℕ) (len : ℕ) (rest : Bytes) (w : Os.World os)
      → length rest < fuel
      → Ends (λ r. Unit {0}) (tcp_write_loop os fuel fd len rest w)
  unfolding tcp_write_loop
  tcp_write_loop-Ends zero fd len rest w h = absurd (omega arith)
  tcp_write_loop-Ends (suc fuel) fd len [] w h = tt
  tcp_write_loop-Ends (suc fuel) fd len (b ∷ rest) w h =
      on_write-Ends len b rest (tcp_write_loop os fuel fd len) fuel
        (λ rest' v. tcp_write_loop-Ends fuel fd len rest' v) h (Os.write os fd (b ∷ rest) w).0
        (Os.write os fd (b ∷ rest) w).1 (quiet fd (b ∷ rest) w)

  -- With no signal in the way `tcp_write` comes back within one round for each byte.
  pub tcp_write-Ends :
      (fuel : ℕ) (client : TcpClient) (buf : Bytes) (w : Os.World os)
      → length buf < fuel
      → Ends (λ r. Unit {0}) (tcp_write os fuel client buf w)
  unfolding tcp_write
  tcp_write-Ends fuel client buf w h = tcp_write_loop-Ends fuel client.fd (length buf) buf w h
