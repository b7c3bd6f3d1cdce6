-- ===== src/Waiting/Free.antt =====
-- That the game of a socket can be dropped under its own guard, as a property of the sockets that the connections leave.
use grass.Prelude.{
  ℕ, ◌≡◌, refl, sym, ◌∙◌, ap, Bool, true, Option, none, some, ◌==◌, inl, inr, Bool-cases, ==_iff,
}
use grass.Models.Task.{Uuid}
use grass.State.{Context, World, Game, SocketClient, Guard, update}
use grass.Exec.Sockets.{hold}
use grass.Game.Still.{game_face}
use grass.Apart.{Sockets, Frame, socket_game}
use grass.Apart.Isolated.{Anything, anything}
use grass.Waiting.{is_droppable}

module _ (lock_of : Uuid → ℕ) (id : Uuid) where
  abbrev pub game_droppable : Option Game → Bool
  game_droppable none = true
  game_droppable (some g) = is_droppable lock_of id g

  abbrev pub FreeSockets : Sockets → Type 0
  FreeSockets sockets =
      (s : SocketClient) (g : Game)
      → sockets id ≡ some s
      → s.game ≡ some g
      → is_droppable lock_of id g ≡ true

  -- `IsFree`, as a property of the sockets.
  abbrev pub Free : World → Type 0
  Free w = FreeSockets w.sockets

  -- What happens elsewhere leaves it so.
  abbrev pub Stays : Context → Type 0
  Stays c = (w v : World) → c.elsewhere w ≡ some v → Free w → Free v

  Stays-hold : (c : Context) (o : Option SocketClient) (g : Guard) → Stays c → Stays (hold c o g)
  Stays-hold c none g r = r
  Stays-hold c (some s) g r = r

  droppable-face :
      (g g' : Game)
      → game_face g' ≡ game_face g
      → is_droppable lock_of id g' ≡ is_droppable lock_of id g
  droppable-face g g' same = ap (is_droppable lock_of id) same

  -- A changed game is put back into its socket.
  Free-put_back :
      (before after : Sockets) (j : Uuid) (s : SocketClient) (g g' : Game)
      → before j ≡ some s
      → s.game ≡ some g
      → game_face g' ≡ game_face g
      → FreeSockets before
      → FreeSockets after
      → FreeSockets (update after j (some (record s { game = some g' })))
  Free-put_back before after j s g g' here playing same h h' s' g'' found plays =
      elim (Bool-cases (j == id)) [
        | inl hit ↦
            let f : some (record s { game = some g' }) ≡ some s' = sym (rw hit refl) ∙ found in
            sym (ap game_droppable (ap socket_game f ∙ plays))
            ∙ droppable-face g g' same
            ∙ h s g (ap before (sym ((==_iff j id).0 hit)) ∙ here) playing
        | inr miss ↦ let f : after id ≡ some s' = sym (rw miss refl) ∙ found in h' s' g'' f plays
      ]

  pub free : Frame Stays (λ k. FreeSockets) Anything
  free = record {
    holding = Stays-hold;
    elsewhere = λ c w v r e h. r w v e h;
    entry = λ k sockets j h. anything j (sockets j);
    put_back = λ k. Free-put_back;
  }
