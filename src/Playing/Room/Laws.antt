-- ===== src/Playing/Room/Laws.antt =====
-- How a room changes, branch by branch, and what it reads of its game's tables.
use grass.Prelude.{
  ℕ, ◌≡◌, refl, fun_ext, Bool, true, false, some, List, [], ◌∷◌, ◌==◌, ◌&&◌, ◌||◌, not, is_some,
  length, arith, Bool-cases, inl, inr,
}
use grass.Prelude.HashMap.{HashMap, get, insert, remove, get-insert, get-remove}
use grass.Models.Task.{Uuid, GameTask}
use grass.State.{PartialClient}
use grass.Game.Progress.{all_with_progress}
use grass.Game.CodeTest.{finish_task}
use grass.Playing.Marks.{is_done_by}
use grass.Playing.Room.{Room, has_client, admitted, begun, credited}

pub has_client-insert :
    (m : HashMap PartialClient) (id : Uuid) (p : PartialClient)
    → has_client (some (insert m id p)) ≡ (λ j. id == j || has_client (some m) j)
has_client-insert m id p = fun_ext (λ j. ground (arith, get-insert m id j p))

pub has_client-remove :
    (m : HashMap PartialClient) (id : Uuid)
    → has_client (some (remove m id)) ≡ (λ j. not (id == j) && has_client (some m) j)
has_client-remove m id = fun_ext (λ j. ground (arith, get-remove m id j))

pub nobody : has_client (some []) ≡ (λ j. false)
unfolding get
nobody = refl

pub get-all_with_progress :
    (tasks : List GameTask) (m : HashMap PartialClient) (j : Uuid)
    → is_some (get (all_with_progress tasks m) j) ≡ is_some (get m j)
unfolding get
get-all_with_progress tasks [] j = refl
get-all_with_progress tasks ((id, p) ∷ m) j = ground (arith, get-all_with_progress tasks m j)

pub admitted-open :
    (id : Uuid) (r : Room)
    → r.is_open ≡ true
    → admitted id r ≡ record r { members = λ j. id == j || r.members j }
admitted-open id r e = simp e

pub admitted-shut : (id : Uuid) (r : Room) → r.is_open ≡ false → admitted id r ≡ r
admitted-shut id r e = simp e

pub begun-again :
    (n : ℕ) (tasks : List GameTask) (r : Room) → r.is_started ≡ true → begun n tasks r ≡ r
begun-again n tasks r on = simp on

pub begun-enough :
    (n : ℕ) (tasks : List GameTask) (r : Room)
    → r.is_started ≡ false
    → (length tasks == n) ≡ true
    → begun n tasks r ≡ record r {
      is_open = false;
      is_started = true;
      is_played = true;
      tasks = tasks;
      done = λ i. false;
    }
begun-enough n tasks r idle enough = simp (idle, enough)

pub begun-few :
    (n : ℕ) (tasks : List GameTask) (r : Room)
    → r.is_started ≡ false
    → (length tasks == n) ≡ false
    → begun n tasks r ≡ record r { is_open = false; is_started = true; tasks = tasks }
begun-few n tasks r idle few = simp (idle, few)

pub credited-accepted :
    (i : ℕ) (r : Room)
    → r.is_played ≡ true
    → credited i true r ≡ record r { done = λ k. i == k || r.done k }
credited-accepted i r on = simp on

pub credited-idle :
    (i : ℕ) (accepted : Bool) (r : Room) → r.is_played ≡ false → credited i accepted r ≡ r
credited-idle i accepted r off = simp off

pub has_client-all_with_progress :
    (tasks : List GameTask) (m : HashMap PartialClient)
    → has_client (some (all_with_progress tasks m)) ≡ has_client (some m)
has_client-all_with_progress tasks m = fun_ext (get-all_with_progress tasks m)

pub credited-refused : (i : ℕ) (r : Room) → credited i false r ≡ r
credited-refused i r = elim (Bool-cases r.is_played) [ inl on ↦ simp on | inr off ↦ simp off ]

pub is_done_by-finish_task :
    (i : ℕ) (m : HashMap Bool) (p : PartialClient)
    → p.task_progress ≡ some m
    → is_done_by (finish_task i m p) ≡ (λ k. i == k || is_done_by p k)
is_done_by-finish_task i m p kept = fun_ext (λ k. elim (Bool-cases (i == k)) [
  | inl hit ↦ rw (get-insert, hit) refl
  | inr miss ↦ rw (get-insert, miss, kept) refl
])
