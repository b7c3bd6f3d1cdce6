-- ===== src/Game/Delivery/Alike.antt =====
-- Worlds that differ at most in the order of the messages within a channel, and that sending to the players of a game in
-- another order leads to such worlds.
use grass.Prelude.{
  ◌≡◌, refl, sym, ◌∙◌, Bool, true, false, List, [], ◌∷◌, ◌++◌, ◌==◌, ==_iff, ==_refl, Bool-cases,
  inl, inr, arith, if◌then◌else◌, append_assoc,
}
use mathlib.Core.List.{Perm}
use mathlib.Core.List.Perm
use grass.State.{World, Channel, SocketSender, Outgoing}
use grass.State.Sets.{Sockets-set, Redis-set}
use grass.Game.Delivery.Frame.{sockets-push}
use grass.Game.Delivery.{push}

pub record AlikeChannel (c c' : Channel) : Type 0 where
  pub closed : c.closed ≡ c'.closed
  pub accepted : Perm c.accepted c'.accepted

pub record Alike (w w' : World) : Type 0 where
  pub sockets : w.sockets ≡ w'.sockets
  pub redis : w.redis ≡ w'.redis
  pub channels : (k : SocketSender) → AlikeChannel (w.channels k) (w'.channels k)

pub Alike-prop : (w w' : World) → IsProp (Alike w w')
Alike-prop w w' = hlevel (Sockets-set, Redis-set)

AlikeChannel-refl : (c : Channel) → AlikeChannel c c
AlikeChannel-refl c = record { closed = refl; accepted = Perm.refl c.accepted }

pub Alike-refl : (w : World) → Alike w w
Alike-refl w = record {
  sockets = refl;
  redis = refl;
  channels = λ k. AlikeChannel-refl (w.channels k);
}

AlikeChannel-trans : (a b c : Channel) → AlikeChannel a b → AlikeChannel b c → AlikeChannel a c
AlikeChannel-trans a b c x y = record {
  closed = x.closed ∙ y.closed;
  accepted = Perm.trans x.accepted y.accepted;
}

pub Alike-trans : (u v w : World) → Alike u v → Alike v w → Alike u w
Alike-trans u v w x y = record {
  sockets = x.sockets ∙ y.sockets;
  redis = x.redis ∙ y.redis;
  channels = λ k.
      AlikeChannel-trans (u.channels k) (v.channels k) (w.channels k) (x.channels k) (y.channels k);
}

-- What a channel makes of a message.
add : Outgoing → Channel → Channel
add m c = if c.closed then c else record c { accepted = c.accepted ++ m ∷ [] }

module _ (m : Outgoing) (c : Channel) where
  add-shut : c.closed ≡ true → add m c ≡ c
  unfolding add
  add-shut shut = simp shut

  add-open : c.closed ≡ false → add m c ≡ record c { accepted = c.accepted ++ m ∷ [] }
  unfolding add
  add-open open_ = simp open_

  closed-add : (add m c).closed ≡ c.closed
  unfolding add
  closed-add = ground arith

add-Alike : (m : Outgoing) (c c' : Channel) → AlikeChannel c c' → AlikeChannel (add m c) (add m c')
add-Alike m c c' h = elim (Bool-cases c.closed) [
  | inl shut ↦ rw (add-shut m c shut, add-shut m c' (sym h.closed ∙ shut)) h
  | inr open_ ↦
      rw (add-open m c open_, add-open m c' (sym h.closed ∙ open_))
        (record { closed = h.closed; accepted = Perm.append_right (m ∷ []) h.accepted })
]

snoc_swap :
    (ms : List Outgoing) (m n : Outgoing)
    → Perm ((ms ++ n ∷ []) ++ m ∷ []) ((ms ++ m ∷ []) ++ n ∷ [])
snoc_swap ms m n =
    rw (append_assoc ms (n ∷ []) (m ∷ []), append_assoc ms (m ∷ []) (n ∷ []))
      (Perm.append_left ms (Perm.swap m n []))

add-add : (m n : Outgoing) (c : Channel) → AlikeChannel (add m (add n c)) (add n (add m c))
add-add m n c = elim (Bool-cases c.closed) [
  | inl shut ↦ rw (add-shut n c shut, add-shut m c shut, add-shut n c shut) (AlikeChannel-refl c)
  | inr open_ ↦
      rw
        (
          add-open m (add n c) (closed-add n c ∙ open_),
          add-open n (add m c) (closed-add m c ∙ open_),
          add-open n c open_,
          add-open m c open_,
        )
        (record { closed = refl; accepted = snoc_swap c.accepted m n })
]

module _ (k : SocketSender) (m : Outgoing) (w : World) where
  channels-push :
      (j : SocketSender)
      → (push k m w).channels j ≡ (if k == j then add m (w.channels j) else w.channels j)
  unfolding push add
  channels-push j = elim (Bool-cases (k == j)) [
    | inl hit ↦ rw ((==_iff k j).0 hit) (ground (arith, ==_refl j))
    | inr miss ↦ ground arith
  ]

  redis-push : (push k m w).redis ≡ w.redis
  unfolding push
  redis-push = ground arith

AlikeChannel-if :
    (b : Bool) (x x' y y' : Channel)
    → AlikeChannel x x'
    → AlikeChannel y y'
    → AlikeChannel (if b then x else y) (if b then x' else y')
AlikeChannel-if true x x' y y' h h' = h
AlikeChannel-if false x x' y y' h h' = h'

pub push-Alike :
    (k : SocketSender) (m : Outgoing) (w w' : World) → Alike w w' → Alike (push k m w) (push k m w')
push-Alike k m w w' h = record {
  sockets = sockets-push k m w ∙ h.sockets ∙ sym (sockets-push k m w');
  redis = redis-push k m w ∙ h.redis ∙ sym (redis-push k m w');
  channels = λ j.
      rw (channels-push k m w j, channels-push k m w' j)
        (AlikeChannel-if (k == j) _ _ _ _
          (add-Alike m (w.channels j) (w'.channels j) (h.channels j)) (h.channels j));
}

-- Two messages in either order.
pushes :
    (a b : Bool) (m n : Outgoing) (c : Channel)
    → AlikeChannel
        (if a then add m (if b then add n c else c) else if b then add n c else c)
        (if b then add n (if a then add m c else c) else if a then add m c else c)
pushes true true m n c = add-add m n c
pushes true false m n c = AlikeChannel-refl _
pushes false true m n c = AlikeChannel-refl _
pushes false false m n c = AlikeChannel-refl _

pub push-push :
    (k j : SocketSender) (m n : Outgoing) (w : World)
    → Alike (push k m (push j n w)) (push j n (push k m w))
push-push k j m n w = record {
  sockets =
      sockets-push k m (push j n w)
      ∙ sockets-push j n w
      ∙ sym (sockets-push k m w)
      ∙ sym (sockets-push j n (push k m w));
  redis =
      redis-push k m (push j n w)
      ∙ redis-push j n w
      ∙ sym (redis-push k m w)
      ∙ sym (redis-push j n (push k m w));
  channels = λ i.
      rw
        (
          channels-push k m (push j n w) i,
          channels-push j n (push k m w) i,
          channels-push j n w i,
          channels-push k m w i,
        )
        (pushes (k == i) (j == i) m n (w.channels i));
}
