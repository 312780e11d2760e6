-- ===== src/Effect.antt =====
-- Results of Go calls, and the monad of calls that change a world of type `W`.
-- A Go pair `(v, err)` is `ok v` if `err` is nil, and `err e` otherwise: no caller in the program
-- reads the value beside an error.
use calendar_bridge.Base.{◌≡◌, refl}
use calendar_bridge.Fault.{Fault}

pub data Result {ℓ} (A : Type ℓ) : Type ℓ where
  ok : A → Result A
  err : Fault → Result A

abbrev pub M : Type 0 → Type 0 → Type 0
M W A = W → Result A × W

-- The rest of a computation, after a call with this outcome.
abbrev pub continue : {W A B : Type 0} → Result A × W → (A → M W B) → Result B × W
continue (ok a, w) f = f a w
continue (err e, w) f = (err e, w)

infixl 5 ◌>>=◌ ◌>>◌
abbrev pub ◌>>=◌ : {W A B : Type 0} → M W A → (A → M W B) → M W B
m >>= f = λ w. continue (m w) f

abbrev pub ◌>>◌ : {W A B : Type 0} → M W A → M W B → M W B
m >> k = m >>= λ _. k

abbrev pub pure : {W A : Type 0} → A → M W A
pure a = λ w. (ok a, w)

abbrev pub fail : {W A : Type 0} → Fault → M W A
fail e = λ w. (err e, w)

-- A call whose error the caller handles.
abbrev pub attempt : {W A : Type 0} → M W A → M W (Result A)
attempt m = λ w. let (r, w') = m w in (ok r, w')

-- The computation keeps what is known of the world.
abbrev pub Keeps {κ} : {W A : Type 0} → (W → Type κ) → M W A → Type κ
Keeps {W} Q m = (w : W) → Q w → Q (m w).1

-- Keeping goes through the calls of a `do` block.
pub continue_keeps :
    {W A B : Type 0} (Q : W → Type 0) (r : Result A × W) (f : A → M W B)
    → Q r.1
    → ((a : A) (w : W) → r ≡ (ok a, w) → Q w → Q (f a w).1)
    → Q (continue r f).1
continue_keeps Q (ok a, w) f q next = next a w refl q
continue_keeps Q (err e, w) f q next = q

-- And through a function on its value.
pub continue-pure_keeps :
    {W A B : Type 0} (Q : W → Type 0) (r : Result A × W) (f : A → B)
    → Q r.1
    → Q (continue r (λ a. pure (f a))).1
continue-pure_keeps Q (ok a, w) f q = q
continue-pure_keeps Q (err e, w) f q = q
