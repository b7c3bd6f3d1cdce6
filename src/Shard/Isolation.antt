-- ===== src/Shard/Isolation.antt =====
-- What the connections of a shard do to each other's sockets.
use grass.Prelude.{
  ℕ, ◌+◌, ◌≡◌, refl, sym, ap, ◌∙◌, true, false, ◌==◌, Bool-cases, inl, inr, some, List, [], ◌∷◌,
  ◌++◌, length, length-append, ==_iff, if◌then◌else◌, arith,
}
use grass.Models.Task.{Uuid}
use grass.State.{World}
use grass.Exec.Keeps.{Keeps, Keeps-ignore}
use grass.Game.Still.{Seen}
use grass.Apart.Joins.{Keeps-handle_join}
use grass.Apart.Isolated.{face, isolation, stranger, Looks, GoesOnFrom}
use grass.Apart.Connections.{
  Keeps-on_message, Keeps-time_out, Keeps-open_connection, Keeps-close_connection,
}
use grass.Shard.{
  Task, opening, handling, timing_out, closing, owner, action, Started, nth_world, replaying,
  so_far, goes_on_from, Shard, Step, Run, begins, goes_on, here, next,
}

-- The step is that of another connection.
abbrev pub StepByOthers : Uuid → {a b : Shard} → Step a b → Type 0
StepByOthers other (begins ts s first) = (owner s.task == other) ≡ false
StepByOthers other (goes_on w before after s resumed) = (owner s.task == other) ≡ false

-- Every step of the run is.
abbrev pub RunByOthers : Uuid → {a b : Shard} → Run a b → Type 0
RunByOthers other here = Unit {0}
RunByOthers other (next r s) = RunByOthers other r × StepByOthers other s

-- The world that a task last went on from, by the clock; the world it began in, when it has not given way.
abbrev seen_from : World → List World → ℕ → ℕ → World
seen_from begun [] n k = begun
seen_from begun (v ∷ vs) n k =
    let later = seen_from begun vs (n + 1) k in if n + 1 == k then v else later

seen_from-first : (begun : World) (vs : List World) (n : ℕ) → seen_from begun vs n 0 ≡ begun
seen_from-first begun [] n = refl
seen_from-first begun (v ∷ vs) n =
    let later : (n + 1 == 0) ≡ false = ground arith in rw later (seen_from-first begun vs (n + 1))

seen_from-last :
    (begun w : World) (vs : List World) (n k : ℕ)
    → k ≡ n + length (vs ++ (w ∷ []))
    → seen_from begun (vs ++ (w ∷ [])) n k ≡ w
seen_from-last begun w [] n k e = let last : (n + 1 == k) ≡ true = ground arith in rw last refl
seen_from-last begun w (v ∷ vs) n k e =
    let more = length-append vs (w ∷ []) in
    let later : (n + 1 == k) ≡ false = ground (arith, more) in
    rw later (seen_from-last begun w vs (n + 1) k (omega arith))

module _ {x y : World} where
  same-clock : some x ≡ some y → x.clock ≡ y.clock
  same-clock e = cc

  same-sockets : some x ≡ some y → x.sockets ≡ y.sockets
  same-sockets e = cc

nth_world-clock :
    (vs : List World) (n now : ℕ) (v : World) → nth_world vs n now ≡ some v → v.clock ≡ now + 1
nth_world-clock [] n now v e = cc
nth_world-clock (x ∷ vs) n now v e = elim (Bool-cases (n == now)) [
  | inl hit ↦
      let found : some (record x { clock = n + 1 }) ≡ some v = sym (rw hit refl) ∙ e in
      sym (same-clock found) ∙ ap (λ k. k + 1) ((==_iff n now).0 hit)
  | inr miss ↦ nth_world-clock vs (n + 1) now v (sym (rw miss refl) ∙ e)
]

nth_world-seen_from :
    (begun : World) (vs : List World) (n now : ℕ) (v : World)
    → nth_world vs n now ≡ some v
    → v.sockets ≡ (seen_from begun vs n v.clock).sockets
nth_world-seen_from begun [] n now v e = cc
nth_world-seen_from begun (x ∷ vs) n now v e = elim (Bool-cases (n == now)) [
  | inl hit ↦
      let found : some (record x { clock = n + 1 }) ≡ some v = sym (rw hit refl) ∙ e in
      let at_once : (n + 1 == v.clock) ≡ true = (==_iff (n + 1) v.clock).1 (same-clock found) in
      rw at_once (sym (same-sockets found))
  | inr miss ↦
      let found : nth_world vs (n + 1) now ≡ some v = sym (rw miss refl) ∙ e in
      let clock = nth_world-clock vs (n + 1) now v found in
      let later : (n + 1 == v.clock) ≡ false = ground (arith, miss, clock) in
      rw later (nth_world-seen_from begun vs (n + 1) now v found)
]

module _ (other : Uuid) where
  Keeps-action :
      (seen : ℕ → World) (t : Task)
      → (owner t == other) ≡ false
      → Keeps (GoesOnFrom seen) (Seen (Looks other seen)) (action t)
  unfolding action
  Keeps-action seen (opening id addr k) apart =
      Keeps-open_connection (isolation other seen) id (stranger other seen id apart) _ tt
  Keeps-action seen (handling id m) apart = Keeps-ignore _ (
      Keeps-on_message (isolation other seen) id (stranger other seen id apart)
        (Keeps-handle_join (isolation other seen) id (stranger other seen id apart)
          (λ g self host. tt))
        m)
  Keeps-action seen (timing_out id model) apart =
      Keeps-ignore _ (Keeps-time_out (isolation other seen) id model)
  Keeps-action seen (closing id addr k) apart =
      Keeps-close_connection (isolation other seen) id (stranger other seen id apart) _

  -- What a task of another connection does between two points where it gives way keeps the face.
  so_far-face :
      (s : Started)
      → (owner s.task == other) ≡ false
      → face ((so_far s).1.sockets other)
        ≡ face ((seen_from s.begun s.history 0 (so_far s).1.clock).sockets other)
  so_far-face s apart =
      let seen = seen_from s.begun s.history 0 in
      (Keeps-action seen s.task apart).at (replaying s.context s.history)
        (record (s.begun) { clock = 0 })
        (λ w v e. nth_world-seen_from s.begun s.history 0 w.clock v e)
        (ap (λ x. face (x.sockets other)) (sym (seen_from-first s.begun s.history 0)))

  Step-keeps :
      {a b : Shard} (s : Step a b)
      → StepByOthers other s
      → face (b.world.sockets other) ≡ face (a.world.sockets other)
  Step-keeps (begins ts s first) h = so_far-face s h ∙ ap face (rw first refl)
  Step-keeps (goes_on w before after s resumed) h =
      so_far-face (goes_on_from w s) h
      ∙ ap (λ x. face (x.sockets other))
          (seen_from-last s.begun w s.history 0 (so_far (goes_on_from w s)).1.clock
            (ground (arith, resumed)))

  -- In whatever order the tasks of a shard take turns, none does anything to the socket of another connection but to
  -- the clients of the game in it and to the progress that this game's host is said to have: while every
  -- step belongs to other connections, a socket is neither opened nor closed, keeps its address, its
  -- channel and its name, and neither loses its game nor gets one, and that game stays the same in all
  -- else. At the start any tasks, of that connection too, may stand still halfway.
  pub run-face :
      {a b : Shard} (r : Run a b)
      → RunByOthers other r
      → face (b.world.sockets other) ≡ face (a.world.sockets other)
  run-face here h = refl
  run-face (next r s) h = Step-keeps s h.1 ∙ run-face r h.0
