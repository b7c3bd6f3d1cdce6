-- ===== src/Service.antt =====
-- The parts of the service around the sockets: `Select` (src/service/extended_select.rs), the end of
-- `Service::run` (src/service.rs), and `CriticalError` (src/service/error.rs).
pub mod Drive
pub mod Either
pub mod Setup
pub mod Middleware
pub mod Running
use grass.Prelude.{ℕ, String, Option, none, some, List}
use grass.Models.Task.{GameTask}

pub data Poll (A : Type 0) : Type 0 where
  ready : A → Poll A
  pending : Poll A

-- A future: what polling it answers, and the future that is left.
pub record Future (F A : Type 0) : Type 0 where
  pub poll : F → Poll A × F

-- `none` once it has been taken and has answered.
pub record Select (A B C : Type 0) : Type 0 where
  pub inner : Option (A × B × C)

module _ {A B C X Y Z : Type 0} (fa : Future A X) (fb : Future B Y) (fc : Future C Z) where
  abbrev poll_third : A → B → Poll Z × C → Poll (Option Z) × Select A B C
  poll_third a b (ready z, c) = (ready (some z), record { inner = none })
  poll_third a b (pending, c) = (pending, record { inner = some (a, b, c) })

  abbrev pub poll_second : A → Poll Y × B → C → Poll (Option Z) × Select A B C
  poll_second a (ready y, b) c = (ready none, record { inner = none })
  poll_second a (pending, b) c = poll_third a b (fc.poll c)

  abbrev pub poll_first : Poll X × A → B → C → Poll (Option Z) × Select A B C
  poll_first (ready x, a) b c = (ready none, record { inner = none })
  poll_first (pending, a) b c = poll_second a (fb.poll b) c

  -- `Select::poll`; `none` is the panic "cannot poll Select twice".
  unfoldable pub poll_select : Select A B C → Option (Poll (Option Z) × Select A B C)
  poll_select s = elim s.inner [ none ↦ none | some (a, b, c) ↦ some (poll_first (fa.poll a) b c) ]

-- `extended_select::select`
abbrev pub select : {A B C : Type 0} → A → B → C → Select A B C
select a b c = record { inner = some (a, b, c) }

-- An `i32`: `negsuc n` is -(n + 1).
pub data ℤ : Type 0 where
  pos : ℕ → ℤ
  negsuc : ℕ → ℤ

pub record CriticalError : Type 0 where
  pub code : ℤ

-- What the error channel gives: an error, or that its sender is gone.
pub data Received : Type 0 where
  received : CriticalError → Received
  canceled : Received

-- How `Service::run` ends: normally, with an error, or by leaving the process.
pub data Ending : Type 0 where
  normal : Ending
  failed : Ending
  exited : ℤ → Ending

unfoldable pub finish_run : Option Received → Ending
finish_run none = normal
finish_run (some (received e)) = exited e.code
finish_run (some canceled) = failed
