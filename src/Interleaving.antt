-- ===== src/Interleaving.antt =====
-- Goroutines that run at once: a thread is its steps, each with one statement of SQL or one access
-- to the shared memory, and between two steps the other threads may do anything that they do. Used
-- for the flush (internal/scheduler/scheduler.go), the worker (internal/telegram/telegram.go) and
-- the login (internal/admin/handlers_auth.go).
pub mod Flushes
pub mod Logins
pub mod Captures
use ooblivion.Exec
use ooblivion.Shared.{ℕ, zero, suc, ◌≡◌, refl, Bool, true, false, if◌then◌else◌}
use ooblivion.Exec.{Result, ok, err, Exec, continue}
use ooblivion.Db.{World}

pub data Thread (E A : Type 0) : Type 1 where
  finished : Result E A → Thread E A
  step : {B : Type 0} → Exec World E B → (B → Thread E A) → Thread E A

module _ {E A : Type 0} where
  infixl 5 ◌>>=◌ ◌>>◌
  abbrev pub ◌>>=◌ : {B : Type 0} → Exec World E B → (B → Thread E A) → Thread E A
  m >>= k = step m k

  abbrev pub ◌>>◌ : {B : Type 0} → Exec World E B → Thread E A → Thread E A
  m >> t = step m (λ _. t)

  -- the thread after a step, which an error ends
  abbrev pub resumed : {B : Type 0} → (B → Thread E A) → Result E B → Thread E A
  resumed k (ok b) = k b
  resumed k (err e) = finished (err e)

-- the thread with nothing in between
unfoldable pub run : {E A : Type 0} → Thread E A → Exec World E A
run (finished r) w = (r, w)
run (step m k) w = Exec.◌>>=◌ m (λ b. run (k b)) w

-- at most so many steps, whatever they give
abbrev pub Ends : {E A : Type 0} → ℕ → Thread E A → Type 0
Ends n (finished r) = Unit {0}
Ends zero (step m k) = ⊥
Ends (suc n) (step m k) = (b : _) → Ends n (k b)

-- every step leads from a world to one that is related to it
abbrev pub AllSteps : {E A : Type 0} → (World → World → Type 0) → Thread E A → Type 0
AllSteps I (finished r) = Unit {0}
AllSteps I (step m k) = ((w : World) → I w (m w).1) × ((b : _) → AllSteps I (k b))

pub AllSteps-resumed :
    {E A B : Type 0} (I : World → World → Type 0) (k : B → Thread E A) (r : Result E B)
    → ((b : B) → AllSteps I (k b))
    → AllSteps I (resumed k r)
AllSteps-resumed I k (ok b) h = h b
AllSteps-resumed I k (err e) h = tt

pub AllSteps-if :
    {E A : Type 0} (I : World → World → Type 0) (b : Bool) (t u : Thread E A)
    → AllSteps I t
    → AllSteps I u
    → AllSteps I (if b then t else u)
AllSteps-if I true t u h k = h
AllSteps-if I false t u h k = k

pub Ends-if :
    {E A : Type 0} (n : ℕ) (b : Bool) (t u : Thread E A)
    → Ends n t
    → Ends n u
    → Ends n (if b then t else u)
Ends-if n true t u h k = h
Ends-if n false t u h k = k

pub Ends-resumed :
    {E A B : Type 0} (n : ℕ) (k : B → Thread E A) (r : Result E B)
    → ((b : B) → Ends n (k b))
    → Ends n (resumed k r)
Ends-resumed n k (ok b) h = h b
Ends-resumed zero k (err e) h = tt
Ends-resumed (suc n) k (err e) h = tt

pub run-if :
    {E A : Type 0} (b : Bool) (t u : Thread E A)
    → run (if b then t else u) ≡ (if b then run t else run u)
run-if true t u = refl
run-if false t u = refl

run-continue :
    {E A B : Type 0} (k : B → Thread E A) (r : Result E B) (w : World)
    → continue r (λ b. run (k b)) w ≡ run (resumed k r) w
unfolding run
run-continue k (ok b) w = refl
run-continue k (err e) w = refl

-- after a step the thread runs on from what the step gave
pub run-step :
    {E A B : Type 0} (m : Exec World E B) (k : B → Thread E A) (w : World)
    → run (step m k) w ≡ run (resumed k (m w).0) (m w).1
unfolding run
run-step m k w = run-continue k (m w).0 (m w).1
