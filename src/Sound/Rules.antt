-- ===== src/Sound/Rules.antt =====
-- The rules of Exec/Keeps for the calls that touch the world.
use grass.Prelude.{
  ℕ, String, ◌≡◌, Option, none, some, [], ◌∷◌, All, All-append, ◌==◌, arith, Bool-cases, inl, inr,
  subst, ==_iff,
}
use grass.Models.Task.{Uuid}
use grass.State.{
  World, Game, GameState, SocketClient, Outgoing, Context, Guard, read, write, SocketSender, update,
}
use grass.Exec.{Exec, unwrap, ◌>>=◌, ◌>>◌}
use grass.Exec.Services.{send, pool_get, redis_get, redis_set, redis_del}
use grass.Exec.Sockets.{
  with_get, with_get_mut, with_game, run_method, set_socket, lift, await, hold, blocks_read,
  blocks_write, run_option_game, run_option_socket, resumed_keeps,
}
use grass.Exec.Keeps.{Keeps, Keeps-bind}
use grass.Sound.{IsWire, Sound, SocketSound, EntrySound, OwnGame, GameSound, Rely, SoundState}

module _ {ℓ} {V : Type 0} (P : ℕ → V → Type ℓ) where
  pub update_all :
      (f : ℕ → V) (k : ℕ) (v : V) → ((j : ℕ) → P j (f j)) → P k v → (j : ℕ) → P j (update f k v j)
  update_all f k v all here j = elim (Bool-cases (k == j)) [
    | inl hit ↦ rw hit (subst (λ i. P i v) ((==_iff k j).0 hit) here)
    | inr miss ↦ rw miss (all j)
  ]

pub Keeps-send : (k : SocketSender) (m : Outgoing) → IsWire m → Keeps Rely Sound (send k m)
unfolding send
Keeps-send k m wire = record {
  at = λ c w r h. elim (Bool-cases (w.channels k).closed) [
    | inl shut ↦ rw shut h
    | inr open_ ↦ rw open_ (record {
      sockets = h.sockets;
      channels =
          update_all (λ _ ch. All IsWire ch.accepted) w.channels k _ h.channels
            (All-append IsWire (w.channels k).accepted (m ∷ []) (h.channels k) (wire, tt));
    })
  ];
}

same_sockets : (w v : World) → v.sockets ≡ w.sockets → v.channels ≡ w.channels → Sound w → Sound v
same_sockets w v s k h = record { sockets = rw s h.sockets; channels = rw k h.channels }

pub Keeps-pool_get : Keeps Rely Sound pool_get
unfolding pool_get
Keeps-pool_get = record { at = λ c w r h. same_sockets w _ (ground arith) (ground arith) h }

pub Keeps-redis_get : (key : String) → Keeps Rely Sound (redis_get key)
unfolding redis_get
Keeps-redis_get key = record { at = λ c w r h. same_sockets w _ (ground arith) (ground arith) h }

pub Keeps-redis_set : (key value : String) → Keeps Rely Sound (redis_set key value)
unfolding redis_set
Keeps-redis_set key value = record {
  at = λ c w r h. same_sockets w _ (ground arith) (ground arith) h;
}

pub Keeps-redis_del : (key : String) → Keeps Rely Sound (redis_del key)
unfolding redis_del
Keeps-redis_del key = record { at = λ c w r h. same_sockets w _ (ground arith) (ground arith) h }

module _ {E : Type 0} where
  pub Keeps-set_socket :
      (id : Uuid) (o : Option SocketClient)
      → EntrySound id o
      → Keeps Rely Sound (set_socket {E = E} id o)
  unfolding set_socket
  Keeps-set_socket id o s = record {
    at = λ c w r h. record {
      sockets = update_all EntrySound w.sockets id o h.sockets s;
      channels = h.channels;
    };
  }

  pub Keeps-await : Keeps Rely Sound (await {E = E})
  unfolding await
  Keeps-await = record {
    at = λ c w r h. resumed_keeps E Sound (c.elsewhere w) w (λ v e. r w v e h) h;
  }

module _ {E A : Type 0} where
  pub Keeps-later : (m : Exec World E A) → Keeps Rely Sound m → Keeps Rely Sound (await >> m)
  Keeps-later m k = Keeps-bind _ _ Keeps-await (λ _. k)

Rely-hold : (c : Context) (o : Option SocketClient) (g : Guard) → Rely c → Rely (hold c o g)
Rely-hold c none g r = r
Rely-hold c (some s) g r = r

module _ {E A : Type 0} where
  -- What runs under a guard may use that the socket there is sound.
  pub Keeps-with_get :
      (id : Uuid) (body : Option SocketClient → Exec World E A)
      → ((o : Option SocketClient) → EntrySound id o → Keeps Rely Sound (body o))
      → Keeps Rely Sound (with_get id body)
  unfolding with_get
  Keeps-with_get id body k = record {
    at = λ c w r h. elim (Bool-cases (blocks_read c.queued (c.lock_of id) c.held)) [
      | inl stuck ↦ rw stuck h
      | inr free ↦ rw free (
          (k (w.sockets id) (h.sockets id)).at (hold c (w.sockets id) (read (c.lock_of id))) w
            (Rely-hold c (w.sockets id) _ r) h)
    ];
  }

  pub Keeps-with_get_mut :
      (id : Uuid) (body : Option SocketClient → Exec World E A)
      → ((o : Option SocketClient) → EntrySound id o → Keeps Rely Sound (body o))
      → Keeps Rely Sound (with_get_mut id body)
  unfolding with_get_mut
  Keeps-with_get_mut id body k = record {
    at = λ c w r h. elim (Bool-cases (blocks_write (c.lock_of id) c.held)) [
      | inl stuck ↦ rw stuck h
      | inr free ↦ rw free (
          (k (w.sockets id) (h.sockets id)).at (hold c (w.sockets id) (write (c.lock_of id))) w
            (Rely-hold c (w.sockets id) _ r) h)
    ];
  }

  -- `o.unwrap()` of the socket behind a guard.
  pub Keeps-unwrap_entry :
      (id : Uuid) (o : Option SocketClient) (body : SocketClient → Exec World E A)
      → EntrySound id o
      → ((s : SocketClient) → SocketSound id s → Keeps Rely Sound (body s))
      → Keeps Rely Sound (unwrap o >>= body)
  unfolding ◌>>=◌
  Keeps-unwrap_entry id none body e k = record { at = λ c w r h. h }
  Keeps-unwrap_entry id (some s) body e k = record { at = λ c w r h. (k s e).at c w r h }

  pub Keeps-lift : (m : Exec World E A) → Keeps Rely Sound m → Keeps Rely SoundState (lift m)
  unfolding lift
  Keeps-lift m k = record { at = λ c s r h. k.at c s.world r h }

  pub Keeps-run_method :
      (g : Game) (m : Exec GameState E A)
      → Keeps Rely SoundState m
      → Keeps Rely Sound (run_method g m)
  unfolding run_method
  Keeps-run_method g m k = record { at = λ c w r h. k.at c (record { game = g; world = w }) r h }

-- A method keeps a game valid and somebody's own.
pub record KeepsGame {E A : Type 0} (m : Exec GameState E A) : Type 0 where
  pub at : (c : Context) (s : GameState) (id : Uuid) → OwnGame id s.game → OwnGame id (m c s).1.game

module _ {E A : Type 0} (id : Uuid) (m : Exec GameState E A) (kw : Keeps Rely SoundState m)
    (kg : KeepsGame m) where
  run_game-Sound :
      (s : SocketClient) (o : Option Game) (c : Context) (w : World)
      → Rely c
      → Sound w
      → s.id ≡ id
      → GameSound id o
      → Sound (run_option_game id s o m c w).1
  run_game-Sound s none c w r h same own = h
  run_game-Sound s (some g) c w r h same own =
      let after = kw.at c (record { game = g; world = w }) r h in
      record {
        sockets =
            update_all EntrySound _ id _ after.sockets
              (record { same_id = same; game = kg.at c (record { game = g; world = w }) id own });
        channels = after.channels;
      }

  run_socket-Sound :
      (o : Option SocketClient) (c : Context) (w : World)
      → Rely c
      → Sound w
      → EntrySound id o
      → Sound (run_option_socket id o m c w).1
  run_socket-Sound none c w r h e = h
  run_socket-Sound (some s) c w r h e = run_game-Sound s s.game c w r h e.same_id e.game

  pub Keeps-with_game : Keeps Rely Sound (with_game id m)
  unfolding with_game
  Keeps-with_game = record {
    at = λ c w r h. run_socket-Sound (w.sockets id) c w r h (h.sockets id);
  }

pub ruleset world_rules = (
  Keeps-pool_get, Keeps-redis_get, Keeps-redis_set, Keeps-redis_del, Keeps-await, Keeps-lift,
  Keeps-run_method,
)
