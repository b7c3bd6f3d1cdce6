-- ===== src/Game/Delivery/Shuffle.antt =====
-- The loops over the players of a game, in the order in which its map gives them and in any other.
use grass.Prelude.{
  ℕ, ◌≡◌, refl, subst, ◌⊎◌, Option, List, [], ◌∷◌, Bool-cases, Option-cases, inl, inr,
  if◌then◌else◌,
}
use grass.Prelude.HashMap.{HashMap}
use mathlib.Core.List.{Perm, Permᴰ}
use mathlib.Core.Logic.{∥∥₁_elim}
use grass.Models.Task.{Uuid}
use grass.Models.Default.{Payload, event}
use grass.Models.Event.{Event}
use grass.Models.Response.{DefaultModel}
use grass.Models.Wire.{to_string}
use grass.State.{World, Game, PartialClient, SocketSender, text}
use grass.Game.Messages.{skipped}
use grass.Game.Delivery.{push, deliver, deliver_all, broadcast}
use grass.Game.Delivery.Alike.{Alike, Alike-prop, Alike-refl, Alike-trans, push-Alike, push-push}
use grass.Game.Members.Laws.{introduce_all, dismiss_all, joined}

-- A delivery adds a message to one channel, or does nothing.
deliver_cases :
    (p : PartialClient) (m : DefaultModel Payload)
    → ((w : World) → deliver p m w ≡ w)
      ⊎ ((k : SocketSender) × ((w : World) → deliver p m w ≡ push k (text (to_string m)) w))
unfolding deliver
deliver_cases p m = elim (Bool-cases p.is_local) [
  | inr far ↦ inl (λ w. rw far refl)
  | inl near ↦ elim (Option-cases p.write_channel) [
    | inl lost ↦ inl (λ w. rw (near, lost) refl)
    | inr (k, wired) ↦ inr (k, λ w. rw (near, wired) refl)
  ]
]

pub deliver-Alike :
    (p : PartialClient) (m : DefaultModel Payload) (w w' : World)
    → Alike w w'
    → Alike (deliver p m w) (deliver p m w')
deliver-Alike p m w w' h = elim (deliver_cases p m) [
  | inl idle ↦ rw (idle w, idle w') h
  | inr (k, e) ↦ rw (e w, e w') (push-Alike k (text (to_string m)) w w' h)
]

deliver-deliver :
    (p q : PartialClient) (m n : DefaultModel Payload) (w : World)
    → Alike (deliver p m (deliver q n w)) (deliver q n (deliver p m w))
deliver-deliver p q m n w = elim (deliver_cases p m) [
  | inl idle ↦ rw (idle (deliver q n w), idle w) (Alike-refl (deliver q n w))
  | inr (k, e) ↦ elim (deliver_cases q n) [
    | inl idle ↦ rw (idle w, idle (deliver p m w)) (Alike-refl (deliver p m w))
    | inr (j, f) ↦
        rw (e (deliver q n w), f w, f (deliver p m w), e w)
          (push-push k j (text (to_string m)) (text (to_string n)) w)
  ]
]

-- A loop that does something for each entry of a list.
for_each : {A : Type 0} → (A → World → World) → List A → World → World
for_each f [] w = w
for_each f (x ∷ xs) w = for_each f xs (f x w)

module _ {A : Type 0} (f : A → World → World)
    (keeps : (x : A) (w w' : World) → Alike w w' → Alike (f x w) (f x w'))
    (swaps : (x y : A) (w : World) → Alike (f x (f y w)) (f y (f x w))) where
  for_each-Alike :
      (xs : List A) (w w' : World) → Alike w w' → Alike (for_each f xs w) (for_each f xs w')
  unfolding for_each
  for_each-Alike [] w w' h = h
  for_each-Alike (x ∷ xs) w w' h = for_each-Alike xs (f x w) (f x w') (keeps x w w' h)

  for_each-Permᴰ :
      {xs ys : List A}
      → Permᴰ xs ys
      → (w w' : World) → Alike w w'
      → Alike (for_each f xs w) (for_each f ys w')
  unfolding for_each
  for_each-Permᴰ Permᴰ.nil w w' h = h
  for_each-Permᴰ (Permᴰ.cons {a = a} {b = b} {l₁ = xs} {l₂ = ys} e d) w w' h =
      for_each-Permᴰ d (f a w) (f b w') (subst (λ x. Alike (f a w) (f x w')) e (keeps a w w' h))
  for_each-Permᴰ (Permᴰ.swap {a = a} {b = b} {a' = a'} {b' = b'} {l = xs} e e') w w' h =
      for_each-Alike xs (f b (f a w)) (f b' (f a' w')) (
        rw (← e, ← e')
          (Alike-trans _ _ _ (swaps b a w) (keeps a (f b w) (f b w') (keeps b w w' h))))
  for_each-Permᴰ (Permᴰ.trans {l₁ = xs} {l₂ = ys} {l₃ = zs} d d') w w' h =
      Alike-trans _ _ _ (for_each-Permᴰ d w w (Alike-refl w)) (for_each-Permᴰ d' w w' h)

  for_each-Perm :
      (xs ys : List A) (w w' : World)
      → Perm xs ys
      → Alike w w'
      → Alike (for_each f xs w) (for_each f ys w')
  for_each-Perm xs ys w w' p h =
      ∥∥₁_elim p (Alike-prop (for_each f xs w) (for_each f ys w')) (λ d. for_each-Permᴰ d w w' h)

abbrev Entry : Type 0
Entry = ℕ × PartialClient

module _ (skip : Option (List Uuid)) (m : DefaultModel Payload) where
  abbrev one : Entry → World → World
  one e w = if skipped skip e.0 then w else deliver e.1 m w

  one-Alike : (e : Entry) (w w' : World) → Alike w w' → Alike (one e w) (one e w')
  one-Alike e w w' h = elim (Bool-cases (skipped skip e.0)) [
    | inl out ↦ rw out h
    | inr in_ ↦ rw in_ (deliver-Alike e.1 m w w' h)
  ]

  one-one : (e f : Entry) (w : World) → Alike (one e (one f w)) (one f (one e w))
  one-one e f w = elim (Bool-cases (skipped skip e.0)) [
    | inl out ↦ rw out (Alike-refl (one f w))
    | inr in_ ↦ elim (Bool-cases (skipped skip f.0)) [
      | inl out ↦ rw (in_, out) (Alike-refl (deliver e.1 m w))
      | inr also ↦ rw (in_, also) (deliver-deliver e.1 f.1 m m w)
    ]
  ]

  deliver_all-for_each :
      (xs : HashMap PartialClient) (w : World) → deliver_all xs skip m w ≡ for_each one xs w
  unfolding deliver_all for_each
  deliver_all-for_each [] w = refl
  deliver_all-for_each ((id, p) ∷ xs) w = deliver_all-for_each xs (one (id, p) w)

  pub broadcast-Alike :
      (xs ys : HashMap PartialClient) (host : PartialClient) (w w' : World)
      → Perm xs ys
      → Alike w w'
      → Alike (broadcast xs host skip m w) (broadcast ys host skip m w')
  unfolding broadcast
  broadcast-Alike xs ys host w w' p h =
      rw (deliver_all-for_each xs w, deliver_all-for_each ys w')
        (one-Alike (host.id, host) _ _ (for_each-Perm one one-Alike one-one xs ys w w' p h))

abbrev farewell : Entry → World → World
farewell e w = deliver e.1 (event Event.shutdown) w

dismiss_all-for_each :
    (xs : HashMap PartialClient) (w : World) → dismiss_all xs w ≡ for_each farewell xs w
unfolding dismiss_all for_each
dismiss_all-for_each [] w = refl
dismiss_all-for_each ((id, p) ∷ xs) w = dismiss_all-for_each xs (farewell (id, p) w)

pub dismiss_all-Alike :
    (xs ys : HashMap PartialClient) (w w' : World)
    → Perm xs ys
    → Alike w w'
    → Alike (dismiss_all xs w) (dismiss_all ys w')
dismiss_all-Alike xs ys w w' p h =
    rw (dismiss_all-for_each xs w, dismiss_all-for_each ys w')
      (for_each-Perm farewell (λ e. deliver-Alike e.1 (event Event.shutdown))
        (λ e f. deliver-deliver e.1 f.1 (event Event.shutdown) (event Event.shutdown)) xs ys w w' p
        h)

module _ (g : Game) (newcomer : PartialClient) where
  abbrev introduced : Entry → World → World
  introduced e w = deliver newcomer (joined g e.0 e.1.nickname) w

  introduce_all-for_each :
      (xs : HashMap PartialClient) (w : World)
      → introduce_all g newcomer xs w ≡ for_each introduced xs w
  unfolding introduce_all for_each
  introduce_all-for_each [] w = refl
  introduce_all-for_each ((id, p) ∷ xs) w = introduce_all-for_each xs (introduced (id, p) w)

  pub introduce_all-Alike :
      (xs ys : HashMap PartialClient) (w w' : World)
      → Perm xs ys
      → Alike w w'
      → Alike (introduce_all g newcomer xs w) (introduce_all g newcomer ys w')
  introduce_all-Alike xs ys w w' p h =
      rw (introduce_all-for_each xs w, introduce_all-for_each ys w')
        (for_each-Perm introduced (λ e. deliver-Alike newcomer (joined g e.0 e.1.nickname))
          (λ e f.
            deliver-deliver newcomer newcomer (joined g e.0 e.1.nickname)
              (joined g f.0 f.1.nickname))
          xs ys w w' p h)
