-- ===== src/Game/Tables/Steps.antt =====
-- The methods of a game that change who plays it keep its tables.
use grass.Prelude.{
  ◌≡◌, false, none, some, [], length, All, arith, Bool-cases, inl, inr, Option-cases, ℕ,
}
use grass.Prelude.HashMap.{HashMap, insert, remove}
use grass.Models.Task.{Uuid}
use grass.State.{Context, Game, GameState, PartialClient}
use grass.Game.Delivery.{IsWired}
use grass.Game.Invariant.{IsValid, All-insert, All-remove}
use grass.Game.Members.{register, unregister, shutdown}
use grass.Game.Members.Laws.{with_clients, register_lem, register_refused}
use grass.Game.Start.{start}
use grass.Game.Start.Laws.{chosen, opened, started, start_again}
use grass.Game.Steps.{
  unregister-guest, register-guest, start-guest, shutdown-guest, unregister-host, shutdown-host,
  start-host, members_at,
}
use grass.Game.Tables.{
  IsTracked, HasTable, HasNoTable, Table-fresh_progress, Tables-all_with_progress, Tables_of_blank,
}

module _ (g : Game) (t : IsTracked g) where
  with_clients-IsTracked :
      (m : HashMap PartialClient)
      → All (HasTable (length g.tasks)) m
      → (g.is_started ≡ false → All HasNoTable m)
      → IsTracked (with_clients m g)
  with_clients-IsTracked m h blank = record {
    host_table = t.host_table;
    tables = h;
    host_blank = t.host_blank;
    blank = blank;
  }

  started-IsTracked :
      (n : ℕ) (c : Context) (m : HashMap PartialClient) → IsTracked (started c n m g)
  started-IsTracked n c m = record {
    host_table = Table-fresh_progress (chosen c n);
    tables = Tables-all_with_progress (chosen c n) m;
    host_blank = λ e. cc;
    blank = λ e. absurd (cc);
  }

  -- A start that fails leaves a game that counts as started, and no tables.
  opened-IsTracked :
      (n : ℕ) (c : Context) (m : HashMap PartialClient)
      → g.connected_clients ≡ some m
      → g.is_started ≡ false
      → IsTracked (opened c n g)
  opened-IsTracked n c m some_m idle = record {
    host_table = rw (t.host_blank idle) tt;
    tables = rw some_m (Tables_of_blank (length (chosen c n)) m (rw some_m at (t.blank idle)));
    host_blank = λ e. cc;
    blank = λ e. absurd (cc);
  }

tables_at :
    (g : Game) (m : HashMap PartialClient)
    → IsTracked g
    → g.connected_clients ≡ some m
    → All (HasTable (length g.tasks)) m × (g.is_started ≡ false → All HasNoTable m)
tables_at g m t e = (rw e at t.tables, rw e at t.blank)

module _ (c : Context) (s : GameState) (v : IsValid s.game) (t : IsTracked s.game) where
  pub start-IsTracked : (n : ℕ) → IsTracked (start n c s).1.game
  start-IsTracked n = elim (Option-cases s.game.connected_clients) [
    | inl lost ↦ rw (start-guest c s n (ground (arith, v.hosting))) t
    | inr (m, some_m) ↦
        let (host, members) = members_at s.game m v some_m in
        elim (Bool-cases s.game.is_started) [
          | inl on ↦ rw (start_again n c s host on) t
          | inr idle ↦ elim (start-host c s m host some_m n v) [
            | inl same ↦ rw same t
            | inr (inl short) ↦ rw short (opened-IsTracked s.game t n c m some_m idle)
            | inr (inr done) ↦ rw done (started-IsTracked s.game t n c m)
          ]
        ]
  ]

  pub unregister-IsTracked : (id : Uuid) → IsTracked (unregister id c s).1.game
  unregister-IsTracked id = elim (Option-cases s.game.connected_clients) [
    | inl lost ↦ rw (unregister-guest c s id (ground (arith, v.hosting))) t
    | inr (m, some_m) ↦
        let (host, members) = members_at s.game m v some_m in
        let (tables, blank) = tables_at s.game m t some_m in
        rw (unregister-host c s m host some_m id) (
          with_clients-IsTracked s.game t (remove m id)
            (All-remove (HasTable (length s.game.tasks)) m id tables)
            (λ idle. All-remove HasNoTable m id (blank idle)))
  ]

  pub shutdown-IsTracked : IsTracked (shutdown c s).1.game
  shutdown-IsTracked = elim (Option-cases s.game.connected_clients) [
    | inl lost ↦ rw (shutdown-guest c s (ground (arith, v.hosting))) t
    | inr (m, some_m) ↦
        let (host, members) = members_at s.game m v some_m in
        let w = with_clients-IsTracked s.game t [] tt (λ idle. tt) in
        rw (shutdown-host c s m host some_m v) (record {
          host_table = w.host_table;
          tables = w.tables;
          host_blank = w.host_blank;
          blank = w.blank;
        })
  ]

  pub register-IsTracked :
      (p : PartialClient) → IsWired p → p.task_progress ≡ none → IsTracked (register p c s).1.game
  register-IsTracked p wired blank_p = elim (Option-cases s.game.connected_clients) [
    | inl lost ↦ rw (register-guest c s p (ground (arith, v.hosting))) t
    | inr (m, some_m) ↦
        let (host, members) = members_at s.game m v some_m in
        let (tables, blank) = tables_at s.game m t some_m in
        elim (Bool-cases s.game.public) [
          | inl open_ ↦ rw (register_lem p c s m v host open_ some_m wired) (
              with_clients-IsTracked s.game t (insert m p.id p)
                (All-insert (HasTable (length s.game.tasks)) m p.id p tables (rw blank_p tt))
                (λ idle. All-insert HasNoTable m p.id p (blank idle) blank_p))
          | inr shut ↦ rw (register_refused p c s (rw (host, shut))) t
        ]
  ]
