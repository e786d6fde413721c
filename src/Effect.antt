-- ===== src/Effect.antt =====
-- Code with effects: the outside world is passed along, and a call may not come back.
use car_detect.Prelude.{◌≡◌, refl, fun_ext, arith}

-- `crash` is undefined behaviour (a null pointer, a read out of bounds) or the end of the program (an
-- assertion, an exception that nothing catches); `stuck` is a call that waits for ever, or a loop that
-- has not ended within the rounds it was given.
pub data Outcome {ℓ} (A : Type ℓ) : Type ℓ where
  done : A → Outcome A
  crash : Outcome A
  stuck : Outcome A

-- What goes on from a result.
abbrev pub on_done {ℓ} : {A B : Type ℓ} → Outcome A → (A → Outcome B) → Outcome B
on_done (done a) k = k a
on_done crash k = crash
on_done stuck k = stuck

-- An action over a world of type `W`.
abbrev pub Action : Type 0 → Type 0 → Type 0
Action W A = W → Outcome (A × W)

abbrev pub pure : {W A : Type 0} → A → Action W A
pure a w = done (a, w)

abbrev pub faults : {W A : Type 0} → Action W A
faults w = crash

abbrev pub spins : {W A : Type 0} → Action W A
spins w = stuck

-- A call that always comes back, such as a system call.
abbrev pub call : {W A : Type 0} → (W → A × W) → Action W A
call f w = done (f w)

infixl 5 ◌>>=◌ ◌>>◌
abbrev pub ◌>>=◌ : {W A B : Type 0} → Action W A → (A → Action W B) → Action W B
◌>>=◌ m f w = elim (m w) [ done (a, w') ↦ f a w' | crash ↦ crash | stuck ↦ stuck ]

abbrev pub ◌>>◌ : {W A B : Type 0} → Action W A → Action W B → Action W B
m >> k = m >>= λ _. k

-- Binding nested to the left is binding nested to the right.
pub bind_assoc :
    {W A B C : Type 0} (m : Action W A) (f : A → Action W B) (g : B → Action W C)
    → ((m >>= f) >>= g) ≡ (m >>= λ a. f a >>= g)
bind_assoc m f g = fun_ext λ w. ground arith

pub bind-done :
    {W A B : Type 0} (m : Action W A) (f : A → Action W B) (w v : W) (a : A)
    → m w ≡ done (a, v)
    → (m >>= f) w ≡ f a v
bind-done m f w v a e = rw (◌>>=◌, e) refl

-- The action comes back, and what it returns satisfies `P`.
abbrev pub Ends : {W A : Type 0} → (A → Type 0) → Outcome (A × W) → Type 0
Ends P (done (a, w)) = P a
Ends P crash = ⊥
Ends P stuck = ⊥

Ends-outcome :
    {W A B : Type 0} (Q : A → Type 0) (P : B → Type 0) (f : A → Action W B) (o : Outcome (A × W))
    → Ends Q o
    → ((a : A) (v : W) → Q a → Ends P (f a v))
    → Ends P (elim o [ done (a, w') ↦ f a w' | crash ↦ crash | stuck ↦ stuck ])
Ends-outcome Q P f (done (a, v)) h k = k a v h
Ends-outcome Q P f crash h k = elim h [ ]
Ends-outcome Q P f stuck h k = elim h [ ]

pub Ends-bind :
    {W A B : Type 0} (Q : A → Type 0) (P : B → Type 0) (m : Action W A) (f : A → Action W B) (w : W)
    → Ends Q (m w)
    → ((a : A) (v : W) → Q a → Ends P (f a v))
    → Ends P ((m >>= f) w)
Ends-bind Q P m f w h k = Ends-outcome Q P f (m w) h k

-- What an action that comes back returns.
pub Ends-done :
    {W A : Type 0} (P : A → Type 0) (o : Outcome (A × W))
    → Ends P o
    → (a : A) × (w : W) × (o ≡ done (a, w)) × P a
Ends-done P (done (a, w)) h = (a, w, refl, h)
Ends-done P crash h = elim h [ ]
Ends-done P stuck h = elim h [ ]
