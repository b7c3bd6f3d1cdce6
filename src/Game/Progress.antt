-- ===== src/Game/Progress.antt =====
-- The loops of `Game::start` that give every player a fresh table of progress.
use grass.Prelude.{ℕ, ◌+◌, Bool, false, some, List, [], ◌∷◌, map}
use grass.Prelude.HashMap.{HashMap, insert}
use grass.Models.Task.{GameTask}
use grass.State.{PartialClient}

-- `for task in self.tasks.iter().enumerate()`, from the index `i` on.
unfoldable pub progress_from : ℕ → List GameTask → HashMap Bool → HashMap Bool
progress_from i [] m = m
progress_from i (t ∷ ts) m = progress_from (i + 1) ts (insert m i false)

unfoldable pub fresh_progress : List GameTask → HashMap Bool
unfolding progress_from
fresh_progress tasks = progress_from 0 tasks []

abbrev pub with_progress : List GameTask → PartialClient → PartialClient
with_progress tasks p = record p { task_progress = some (fresh_progress tasks) }

-- `for client in connected_clients.values_mut()`
abbrev pub all_with_progress : List GameTask → HashMap PartialClient → HashMap PartialClient
all_with_progress tasks = map (λ e. (e.0, with_progress tasks e.1))
