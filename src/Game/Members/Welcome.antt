-- ===== src/Game/Members/Welcome.antt =====
-- What a registration leaves alone: the sockets, and whether a channel is closed.
use grass.Prelude.{◌≡◌, ◌∙◌, refl, none, [], ◌∷◌}
use grass.Prelude.HashMap.{HashMap}
use grass.State.{World, Game, PartialClient, SocketSender}
use grass.Game.Delivery.{deliver}
use grass.Game.Delivery.Frame.{sockets-deliver, closed-deliver, sockets-broadcast, closed-broadcast}
use grass.Game.Members.Laws.{introduce_all, welcome, joined}

module _ (g : Game) (p : PartialClient) where
  sockets-introduce_all :
      (clients : HashMap PartialClient) (w : World)
      → (introduce_all g p clients w).sockets ≡ w.sockets
  unfolding introduce_all
  sockets-introduce_all [] w = refl
  sockets-introduce_all ((id, q) ∷ rest) w =
      sockets-introduce_all rest (deliver p (joined g id q.nickname) w)
      ∙ sockets-deliver p (joined g id q.nickname) w

  closed-introduce_all :
      (clients : HashMap PartialClient) (w : World) (j : SocketSender)
      → ((introduce_all g p clients w).channels j).closed ≡ (w.channels j).closed
  unfolding introduce_all
  closed-introduce_all [] w j = refl
  closed-introduce_all ((id, q) ∷ rest) w j =
      closed-introduce_all rest (deliver p (joined g id q.nickname) w) j
      ∙ closed-deliver p (joined g id q.nickname) w j

  module _ (clients : HashMap PartialClient) (w : World) where
    abbrev introduced : World
    introduced =
        deliver p (joined g g.partial_host.id g.partial_host.nickname) (introduce_all g p clients w)

    pub sockets-welcome : (welcome g p clients w).sockets ≡ w.sockets
    sockets-welcome =
        sockets-broadcast none (joined g p.id p.nickname) clients g.partial_host introduced
        ∙ sockets-deliver p (joined g g.partial_host.id g.partial_host.nickname)
            (introduce_all g p clients w)
        ∙ sockets-introduce_all clients w

    pub closed-welcome :
        (j : SocketSender) → ((welcome g p clients w).channels j).closed ≡ (w.channels j).closed
    closed-welcome j =
        closed-broadcast none (joined g p.id p.nickname) clients g.partial_host introduced j
        ∙ closed-deliver p (joined g g.partial_host.id g.partial_host.nickname)
            (introduce_all g p clients w) j
        ∙ closed-introduce_all clients w j
