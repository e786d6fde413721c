-- ===== src/Media/Sessions/Ids.antt =====
-- That the ids of `generateSessionId` (media/SessionManager.cc) differ.
use car_detect.Prelude.{
  ℕ, zero, suc, ◌+◌, ◌-◌, ◌*◌, ◌/◌, ◌%◌, ◌^◌, ◌<◌, ◌≡◌, refl, sym, ap, ◌∙◌, false, true, List, [],
  ◌∷◌, ◌++◌, ◌==◌, Bytes, ltb, arith, append_assoc, append-nil, Bool-cases, inl, inr, get_or,
  if◌then◌else◌,
}
use native.Mathlib.Nat.{pow-suc}
use car_detect.Media.Sessions.{
  SessionManager, hex_digit, print_hex, session_id_of, generate_session_id,
}

abbrev hex_value : ℕ → ℕ
hex_value c = if ltb c b'a' then c - b'0' else c - b'a' + 10

-- The numbers that stand between dashes, the first one begun.
abbrev numbers : ℕ → Bytes → List ℕ
numbers n [] = n ∷ []
numbers n (c ∷ s) =
    let next = numbers (n * 16 + hex_value c) s in
    let behind = numbers 0 s in if c == b'-' then n ∷ behind else next

numbers-hex_digit :
    (a d n : ℕ) (s : Bytes) → d < 16 → a * 16 + d ≡ n → numbers a (hex_digit d ∷ s) ≡ numbers n s
numbers-hex_digit a d n s h e =
    let no_dash : (hex_digit d == b'-') ≡ false = ground arith in
    let same : hex_value (hex_digit d) ≡ d = ground arith in rw (no_dash, same, e) refl

numbers-print_hex :
    (digits n : ℕ) (s : Bytes)
    → n < 16 ^ suc digits
    → numbers 0 (print_hex (suc digits) n ++ s) ≡ numbers n s
unfolding print_hex
numbers-print_hex zero n s h =
    let small : ltb n 16 ≡ true = ground arith in
    rw small (numbers-hex_digit 0 n n s (omega arith) (omega arith))
numbers-print_hex (suc d) n s h =
    let more =
      numbers-print_hex d (n / 16) (hex_digit (n % 16) ∷ s) (omega (arith, pow-suc 16 (suc d)))
      ∙ numbers-hex_digit (n / 16) (n % 16) n s (omega arith) (omega arith) in
    elim (Bool-cases (ltb n 16)) [
      | inl e ↦ rw e (numbers-hex_digit 0 n n s (ground (arith, e)) (omega arith))
      | inr e ↦ rw e (
          ap (numbers 0) (append_assoc (print_hex (suc d) (n / 16)) (hex_digit (n % 16) ∷ []) s)
          ∙ more)
    ]

numbers-session_id_of :
    (time counter : ℕ)
    → time < 2 ^ 64
    → counter < 2 ^ 32
    → numbers 0 (session_id_of time counter) ≡ time ∷ counter ∷ []
unfolding session_id_of
numbers-session_id_of time counter ht hc =
    numbers-print_hex 15 time (b'-' ∷ print_hex 8 counter) (omega arith)
    ∙ ap (◌∷◌ time) (
        ap (numbers 0) (sym (append-nil (print_hex 8 counter)))
        ∙ numbers-print_hex 7 counter [] (omega arith))

-- Two session ids, generated at times of 64 bits, are the same only if they were generated in the same second, and the counter was
-- left at the same number.
pub generate_session_id-injective :
    (time time' : ℕ) (m m' : SessionManager)
    → time < 2 ^ 64
    → time' < 2 ^ 64
    → (generate_session_id time m).0 ≡ (generate_session_id time' m').0
    → (time ≡ time')
      × ((generate_session_id time m).1.session_counter
          ≡ (generate_session_id time' m').1.session_counter)
unfolding generate_session_id
generate_session_id-injective time time' m m' h h' e =
    let read =
      sym (numbers-session_id_of time ((m.session_counter + 1) % 2 ^ 32) h (omega arith))
      ∙ ap (numbers 0) e
      ∙ numbers-session_id_of time' ((m'.session_counter + 1) % 2 ^ 32) h' (omega arith) in
    (ap (λ ns. get_or ns 0 0) read, ap (λ ns. get_or ns 1 0) read)
