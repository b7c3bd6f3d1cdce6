-- ===== src/Game/Tables.antt =====
-- The tables of progress of a game: each has an entry for every task of the game and for nothing else, and
-- there are none before the game has started.
pub mod Steps
pub mod Submissions
use grass.Prelude.{
  ℕ, zero, suc, ◌<◌, ◌≡◌, refl, ◌∙◌, Bool, true, false, Option, none, some, List, [], ◌∷◌, ◌==◌,
  ltb, is_some, length, get_elem?, All, arith, Bool-cases, inl, inr, Option-cases,
}
use grass.Prelude.HashMap.{HashMap, get, insert, get-insert}
use grass.Models.Task.{GameTask}
use grass.State.{Game, PartialClient}
use grass.Game.Progress.{fresh_progress, all_with_progress}
use grass.Game.Start.Laws.{get-fresh_progress}

-- A table of `n` tasks.
abbrev pub Table : ℕ → Option (HashMap Bool) → Type 0
Table n none = Unit
Table n (some m) = (k : ℕ) → is_some (get m k) ≡ ltb k n

abbrev pub HasTable : ℕ → ℕ × PartialClient → Type 0
HasTable n e = Table n e.1.task_progress

abbrev pub Tables : ℕ → Option (HashMap PartialClient) → Type 0
Tables n none = Unit
Tables n (some clients) = All (HasTable n) clients

abbrev HasNoTable : ℕ × PartialClient → Type 0
HasNoTable e = e.1.task_progress ≡ none

abbrev pub NoTables : Option (HashMap PartialClient) → Type 0
NoTables none = Unit
NoTables (some clients) = All HasNoTable clients

pub record IsTracked (g : Game) : Type 0 where
  pub host_table : Table (length g.tasks) g.partial_host.task_progress
  pub tables : Tables (length g.tasks) g.connected_clients
  pub host_blank : g.is_started ≡ false → g.partial_host.task_progress ≡ none
  pub blank : g.is_started ≡ false → NoTables g.connected_clients

pub Table-fresh_progress :
    (tasks : List GameTask) → Table (length tasks) (some (fresh_progress tasks))
Table-fresh_progress tasks k = ground (arith, get-fresh_progress tasks k)

pub Table-insert :
    (n : ℕ) (m : HashMap Bool) (i : ℕ) (done : Bool)
    → i < n
    → Table n (some m)
    → Table n (some (insert m i done))
Table-insert n m i done below table k = ground (arith, get-insert m i k done, table k)

pub Tables-all_with_progress :
    (tasks : List GameTask) (clients : HashMap PartialClient)
    → All (HasTable (length tasks)) (all_with_progress tasks clients)
Tables-all_with_progress tasks [] = tt
Tables-all_with_progress tasks ((id, p) ∷ rest) =
    (Table-fresh_progress tasks, Tables-all_with_progress tasks rest)

pub Tables_of_blank :
    (n : ℕ) (clients : HashMap PartialClient) → All HasNoTable clients → All (HasTable n) clients
Tables_of_blank n [] h = tt
Tables_of_blank n ((id, p) ∷ rest) h = (rw h.0 tt, Tables_of_blank n rest h.1)

pub lt_of_get_elem? :
    {A : Type 0} (xs : List A) (i : ℕ) {x : A} → get_elem? xs i ≡ some x → i < length xs
lt_of_get_elem? [] i e = cc
lt_of_get_elem? (y ∷ xs) zero e = omega arith
lt_of_get_elem? (y ∷ xs) (suc i) e = omega (arith, lt_of_get_elem? xs i e)
