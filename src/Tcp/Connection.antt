-- ===== src/Tcp/Connection.antt =====
-- Descriptors across `tcp_client_connect` and `tcp_close_client` of camera/tcp.c.
use car_detect.Prelude.{
  ℕ, ◌%◌, ◌^◌, ◌≡◌, refl, ◌∙◌, none, some, true, false, ◌||◌, ◌==◌, ==_refl, Bytes, arith, inl, inr,
  Bool-cases, Option-cases,
}
use car_detect.Effect.{Outcome, done, crash, stuck}
use car_detect.Os.{Os, SockAddr, FdLaws}
use car_detect.Tcp.{Ret, value, minus_one, TcpClient, tcp_client_connect}

module _ (os : Os) (laws : FdLaws os) where
  open laws use {is_open, socket_none, socket_some, connect_keeps, close_lem}

  -- After a success the client holds one new open descriptor; after a failure it holds none, and
  -- the same descriptors are open as before.
  abbrev pub Connected : Os.World os → Outcome ((TcpClient × Ret) × Os.World os) → Type 0
  Connected w (done ((client, value n), w')) =
      (fd : ℕ) × (client.fd ≡ some fd)
      × (n ≡ 0)
      × (is_open w fd ≡ false)
      × (is_open w' fd ≡ true)
      × ((k : ℕ) → (k == fd) ≡ false → is_open w' k ≡ is_open w k)
  Connected w (done ((client, minus_one), w')) =
      (client.fd ≡ none) × ((k : ℕ) → is_open w' k ≡ is_open w k)
  Connected w crash = ⊥
  Connected w stuck = ⊥

  closed_again :
      (fd k : ℕ) (w w' : Os.World os)
      → is_open w fd ≡ false
      → is_open w' k ≡ (k == fd || is_open w k)
      → is_open (Os.close os fd w') k ≡ is_open w k
  closed_again fd k w w' fresh e = rw (close_lem, e) (ground arith)

  -- `tcp_client_connect` always returns, and either succeeds with one more open descriptor, which
  -- the client holds, or fails with none leaked.
  pub tcp_client_connect-Connected :
      (client : TcpClient) (server_ip : Bytes) (port : ℕ) (w : Os.World os)
      → Connected w (tcp_client_connect os client server_ip port w)
  unfolding tcp_client_connect
  tcp_client_connect-Connected client ip port w = elim (Option-cases (Os.socket os w).0) [
    | inl e ↦ rw (e, tcp_client_connect) (refl, λ k. socket_none w k e)
    | inr (fd, e) ↦
        let (fresh, opened) = socket_some w fd e in
        elim (Option-cases (Os.inet_aton os ip)) [
          | inl bad ↦ rw (e, bad) (refl, λ k. closed_again fd k w _ fresh (opened k))
          | inr (ip, good) ↦
              let there : SockAddr = record { ip = ip; port = port % 2 ^ 16 } in
              elim (Bool-cases (Os.connect os fd there (Os.socket os w).1).0) [
                | inl up ↦
                    rw (e, good, up)
                      (
                        fd,
                        refl,
                        refl,
                        fresh,
                        connect_keeps fd there _ fd ∙ opened fd ∙ rw ==_refl,
                        λ k ne. connect_keeps fd there _ k ∙ opened k ∙ rw ne,
                      )
                | inr down ↦
                    rw (e, good, down)
                      (
                        refl,
                        λ k. closed_again fd k w _ fresh (connect_keeps fd there _ k ∙ opened k),
                      )
              ]
        ]
  ]
