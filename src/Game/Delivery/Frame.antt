-- ===== src/Game/Delivery/Frame.antt =====
-- What sending leaves alone: the sockets, and whether a channel is closed.
use grass.Prelude.{
  ◌≡◌, ◌∙◌, refl, Option, List, [], ◌∷◌, ◌==◌, ==_iff, ==_refl, Bool-cases, Option-cases, inl, inr,
  arith,
}
use grass.Prelude.HashMap.{HashMap}
use grass.Models.Task.{Uuid}
use grass.Models.Default.{Payload}
use grass.Models.Response.{DefaultModel}
use grass.Models.Wire.{to_string}
use grass.State.{World, PartialClient, SocketSender, Outgoing, text}
use grass.Game.Messages.{skipped}
use grass.Game.Delivery.{push, deliver, deliver_all, broadcast}

module _ (k : SocketSender) (m : Outgoing) (w : World) where
  pub sockets-push : (push k m w).sockets ≡ w.sockets
  unfolding push
  sockets-push = ground arith

  pub closed-push : (j : SocketSender) → ((push k m w).channels j).closed ≡ (w.channels j).closed
  unfolding push
  closed-push j = elim (Bool-cases (k == j)) [
    | inl hit ↦ rw ((==_iff k j).0 hit) (ground (arith, ==_refl j))
    | inr miss ↦ ground arith
  ]

module _ (p : PartialClient) (m : DefaultModel Payload) (w : World) where
  pub sockets-deliver : (deliver p m w).sockets ≡ w.sockets
  unfolding deliver
  sockets-deliver = ground arith

  pub closed-deliver :
      (j : SocketSender) → ((deliver p m w).channels j).closed ≡ (w.channels j).closed
  unfolding deliver
  closed-deliver j = elim (Bool-cases p.is_local) [
    | inr far ↦ rw far refl
    | inl near ↦ elim (Option-cases p.write_channel) [
      | inl lost ↦ rw (near, lost) refl
      | inr (k, wired) ↦ rw (near, wired) (closed-push k (text (to_string m)) w j)
    ]
  ]

module _ (skip : Option (List Uuid)) (m : DefaultModel Payload) where
  sockets-deliver_all :
      (clients : HashMap PartialClient) (w : World)
      → (deliver_all clients skip m w).sockets ≡ w.sockets
  unfolding deliver_all
  sockets-deliver_all [] w = refl
  sockets-deliver_all ((id, p) ∷ rest) w = elim (Bool-cases (skipped skip id)) [
    | inl out ↦ rw (deliver_all, out) (sockets-deliver_all rest w)
    | inr in_ ↦
        rw (deliver_all, in_) (sockets-deliver_all rest (deliver p m w) ∙ sockets-deliver p m w)
  ]

  closed-deliver_all :
      (clients : HashMap PartialClient) (w : World) (j : SocketSender)
      → ((deliver_all clients skip m w).channels j).closed ≡ (w.channels j).closed
  unfolding deliver_all
  closed-deliver_all [] w j = refl
  closed-deliver_all ((id, p) ∷ rest) w j = elim (Bool-cases (skipped skip id)) [
    | inl out ↦ rw (deliver_all, out) (closed-deliver_all rest w j)
    | inr in_ ↦
        rw (deliver_all, in_) (closed-deliver_all rest (deliver p m w) j ∙ closed-deliver p m w j)
  ]

  module _ (clients : HashMap PartialClient) (host : PartialClient) (w : World) where
    pub sockets-broadcast : (broadcast clients host skip m w).sockets ≡ w.sockets
    unfolding broadcast
    sockets-broadcast = elim (Bool-cases (skipped skip host.id)) [
      | inl out ↦ rw out (sockets-deliver_all clients w)
      | inr in_ ↦
          rw in_
            (sockets-deliver host m (deliver_all clients skip m w) ∙ sockets-deliver_all clients w)
    ]

    pub closed-broadcast :
        (j : SocketSender)
        → ((broadcast clients host skip m w).channels j).closed ≡ (w.channels j).closed
    unfolding broadcast
    closed-broadcast j = elim (Bool-cases (skipped skip host.id)) [
      | inl out ↦ rw out (closed-deliver_all clients w j)
      | inr in_ ↦
          rw in_ (
            closed-deliver host m (deliver_all clients skip m w) j ∙ closed-deliver_all clients w j)
    ]
