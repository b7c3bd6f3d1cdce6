-- ===== src/Apart/Isolated.antt =====
-- What one connection leaves of the socket of another: everything but the clients of the game in it and the progress that
-- this game's host is said to have.
use grass.Prelude.{
  ℕ, ◌≡◌, sym, ap, ◌∙◌, false, Option, none, some, ◌==◌, ==_iff, Bool-cases, inl, inr,
}
use grass.Models.Task.{Uuid}
use grass.Models.Error.{BoxError}
use grass.State.{World, Context, Game, SocketClient, Guard, update}
use grass.Exec.Sockets.{hold, with_game, run_option_game, run_option_socket}
use grass.Exec.Keeps.{Keeps}
use grass.Game.Start.{start}
use grass.Game.Still.{game_face, Seen, Keeps-start}
use grass.Apart.{Sockets, Frame, Owner, Entries}

abbrev pub game_faces : Option Game → Option Game
game_faces none = none
game_faces (some g) = some (game_face g)

-- A socket with no more of its game than that.
abbrev pub face : Option SocketClient → Option SocketClient
face none = none
face (some s) = some (record s { game = game_faces s.game })

-- What a socket looks like in the world that a task last went on from.
abbrev pub Looks : Uuid → (ℕ → World) → ℕ → Sockets → Type 0
Looks other seen k sockets = face (sockets other) ≡ face ((seen k).sockets other)

-- The n-th time that the task gives way, it goes on from the n-th of these worlds.
abbrev pub GoesOnFrom : (ℕ → World) → Context → Type 0
GoesOnFrom seen c = (w v : World) → c.elsewhere w ≡ some v → v.sockets ≡ (seen v.clock).sockets

pub GoesOnFrom-hold :
    (seen : ℕ → World) (c : Context) (o : Option SocketClient) (g : Guard)
    → GoesOnFrom seen c
    → GoesOnFrom seen (hold c o g)
GoesOnFrom-hold seen c none g r = r
GoesOnFrom-hold seen c (some s) g r = r

abbrev pub Anything : Uuid → Option Game → Type 0
Anything j o = Unit {0}

pub anything : (j : Uuid) (o : Option SocketClient) → Entries Anything j o
anything j none = tt
anything j (some s) = tt

module _ (other : Uuid) (seen : ℕ → World) where
  Looks-put_back :
      (k : ℕ) (before after : Sockets) (j : Uuid) (s : SocketClient) (g g' : Game)
      → before j ≡ some s
      → s.game ≡ some g
      → game_face g' ≡ game_face g
      → Looks other seen k before
      → Looks other seen k after
      → Looks other seen k (update after j (some (record s { game = some g' })))
  Looks-put_back k before after j s g g' here playing same h h' = elim (Bool-cases (j == other)) [
    | inl hit ↦ rw hit (
        ap (λ x. some (record s { game = some x })) same
        ∙ sym (ap (λ x. some (record s { game = game_faces x })) playing)
        ∙ ap face (sym here ∙ ap before ((==_iff j other).0 hit))
        ∙ h)
    | inr miss ↦ rw miss h'
  ]

  pub isolation : Frame (GoesOnFrom seen) (Looks other seen) Anything
  isolation = record {
    holding = λ c o g r. GoesOnFrom-hold seen c o g r;
    elsewhere = λ c w v r e h. ap (λ f. face (f other)) (r w v e);
    entry = λ k sockets j h. anything j (sockets j);
    put_back = Looks-put_back;
  }

  -- Another connection.
  module _ (id : Uuid) (apart : (id == other) ≡ false) where
    started_game :
        (n : ℕ) (s : SocketClient) (o : Option Game) (c : Context) (w : World)
        → GoesOnFrom seen c
        → Seen (Looks other seen) w
        → Seen (Looks other seen) (run_option_game id s o (start n) c w).1
    started_game n s none c w r h = h
    started_game n s (some g) c w r h =
        rw apart
          ((Keeps-start {R = GoesOnFrom seen} (Looks other seen) n).at c
            (record { game = g; world = w }) r (h, tt)).0

    started_socket :
        (n : ℕ) (o : Option SocketClient) (c : Context) (w : World)
        → GoesOnFrom seen c
        → Seen (Looks other seen) w
        → Seen (Looks other seen) (run_option_socket id o (start n) c w).1
    started_socket n none c w r h = h
    started_socket n (some s) c w r h = started_game n s s.game c w r h

    -- It may start its own game.
    started :
        (n : ℕ)
        → Keeps (GoesOnFrom seen) (Seen (Looks other seen)) (with_game {E = BoxError} id (start n))
    unfolding with_game
    started n = record { at = λ c w r h. started_socket n (w.sockets id) c w r h }

    pub stranger : Owner (GoesOnFrom seen) (Looks other seen) Anything id
    stranger = record {
      set = λ k sockets o e h. rw apart h;
      without = tt;
      hosting = λ g host. tt;
      starting = λ n. started n;
    }
