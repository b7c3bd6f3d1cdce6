-- ===== src/Shard/Safety.antt =====
-- What holds of every world that a shard reaches, with no assumption on the order of its tasks.
use grass.Prelude.{
  ℕ, ◌+◌, ◌==◌, ◌≡◌, refl, sym, subst, ◌∙◌, Bool, Bool-cases, inl, inr, some, List, [], ◌∷◌, ◌++◌,
  All, All-append,
}
use grass.State.{World, SocketSender, Outgoing, text, binary, ping, pong, close}
use grass.Models.Typed.{IsTyped}
use grass.Exec.Keeps.{Keeps, Keeps-ignore}
use grass.Client.{new_socket_client}
use grass.Connection.{in_time}
use grass.Sound.{Sound, IsWire, Rely}
use grass.Sound.Connections.{
  Keeps-on_message, Keeps-time_out, Keeps-open_connection, Keeps-close_connection,
}
use grass.Connection.Writer.{write_loop, All-write_loop}
use grass.Shard.{
  IsFresh, Task, opening, handling, timing_out, closing, action, Started, nth_world, replaying,
  so_far, goes_on_from, Shard, Step, Run, begins, goes_on, here, next,
}

pub IsFresh-Sound : (w : World) → IsFresh w → Sound w
IsFresh-Sound w f = record {
  sockets = λ id. rw (f.unconnected id) tt;
  channels = λ k. rw (f.unsent k) tt;
}

-- The world that a task began in is sound, and so are those that it went on from.
abbrev SoundSince : Started → Type 0
SoundSince s = Sound s.begun × All Sound s.history

-- What the tasks share is sound, and every task has only ever seen it so.
record SoundShard (s : Shard) : Type 0 where
  world : Sound s.world
  tasks : All SoundSince s.tasks

module _ {x y : World} where
  unwrapped : some x ≡ some y → x ≡ y
  unwrapped e = cc

nth_world-Sound :
    (vs : List World) (n now : ℕ) (v : World) → All Sound vs → nth_world vs n now ≡ some v → Sound v
nth_world-Sound [] n now v h e = cc
nth_world-Sound (x ∷ vs) n now v h e = elim (Bool-cases (n == now)) [
  | inl hit ↦
      let found : some (record x { clock = n + 1 }) ≡ some v = sym (rw hit refl) ∙ e in
      subst Sound (unwrapped found) (record { sockets = h.0.sockets; channels = h.0.channels })
  | inr miss ↦
      let later : nth_world vs (n + 1) now ≡ some v = sym (rw miss refl) ∙ e in
      nth_world-Sound vs (n + 1) now v h.1 later
]

Keeps-action : (t : Task) → Keeps Rely Sound (action t)
unfolding action
Keeps-action (opening id addr k) =
    Keeps-open_connection id (new_socket_client id addr k) (record { same_id = refl; game = tt })
Keeps-action (handling id m) = Keeps-ignore _ (Keeps-on_message id in_time m tt)
Keeps-action (timing_out id model) = Keeps-ignore _ (Keeps-time_out id model)
Keeps-action (closing id addr k) = Keeps-close_connection id _

so_far-Sound : (s : Started) → SoundSince s → Sound (so_far s).1
so_far-Sound s h =
    (Keeps-action s.task).at (replaying s.context s.history) (record (s.begun) { clock = 0 })
      (λ w v e sound. nth_world-Sound s.history 0 w.clock v h.1 e)
      (record { sockets = h.0.sockets; channels = h.0.channels })

goes_on-SoundSince :
    (w : World) (s : Started) → Sound w → SoundSince s → SoundSince (goes_on_from w s)
goes_on-SoundSince w s sound h = (h.0, All-append Sound s.history (w ∷ []) h.1 (sound, tt))

-- A task that stands among others goes on.
All-replaced :
    (w : World) (before after : List Started) (s : Started)
    → Sound w
    → All SoundSince (before ++ s ∷ after)
    → All SoundSince (before ++ goes_on_from w s ∷ after) × SoundSince (goes_on_from w s)
All-replaced w [] after s sound h =
    let went = goes_on-SoundSince w s sound h.0 in ((went, h.1), went)
All-replaced w (x ∷ before) after s sound h =
    let rest = All-replaced w before after s sound h.1 in ((h.0, rest.0), rest.1)

Step-SoundShard : {a b : Shard} → Step a b → SoundShard a → SoundShard b
Step-SoundShard (begins ts s first) h =
    let since : SoundSince s = (h.world, rw first tt) in
    record { world = so_far-Sound s since; tasks = (since, h.tasks) }
Step-SoundShard (goes_on w before after s resumed) h =
    let went = All-replaced w before after s h.world h.tasks in
    record { world = so_far-Sound (goes_on_from w s) went.1; tasks = went.0 }

Run-SoundShard : {a b : Shard} → Run a b → SoundShard a → SoundShard b
Run-SoundShard here h = h
Run-SoundShard (next r s) h = Step-SoundShard s (Run-SoundShard r h)

-- Every world that the tasks of a shard reach from a fresh start, in whatever order they take turns, is
-- sound: a socket stands under its own id, a game that it plays is valid and its own, and every message
-- that was accepted has been serialised.
pub reached-Sound :
    (w : World) (s : Shard) → IsFresh w → Run (record { world = w; tasks = [] }) s → Sound s.world
reached-Sound w s fresh run =
    (Run-SoundShard run (record { world = IsFresh-Sound w fresh; tasks = tt })).world

abbrev pub TypedMessage : Outgoing → Type 0
TypedMessage (text m) = IsTyped m
TypedMessage other = Unit

typed_of_wire : (ms : List Outgoing) → All IsWire ms → All TypedMessage ms
typed_of_wire [] h = tt
typed_of_wire (text m ∷ ms) h = (h.0.1, typed_of_wire ms h.1)
typed_of_wire (binary b ∷ ms) h = (tt, typed_of_wire ms h.1)
typed_of_wire (ping b ∷ ms) h = (tt, typed_of_wire ms h.1)
typed_of_wire (pong b ∷ ms) h = (tt, typed_of_wire ms h.1)
typed_of_wire (close ∷ ms) h = (tt, typed_of_wire ms h.1)

-- Every text that the task of a socket writes to its peer, in any world that the tasks of a shard reach from
-- a fresh start, in whatever order they take turns and whichever writes fail, has something in it, and its op
-- code, and that of the event or the response in it, are those of what it carries.
pub written-TypedMessage :
    (w : World) (s : Shard) (k : SocketSender) (faults : List Bool)
    → IsFresh w
    → Run (record { world = w; tasks = [] }) s
    → All TypedMessage (write_loop faults (s.world.channels k).accepted)
written-TypedMessage w s k faults fresh run =
    All-write_loop _ faults _ (typed_of_wire _ ((reached-Sound w s fresh run).channels k))
