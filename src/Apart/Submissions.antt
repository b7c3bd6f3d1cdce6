-- ===== src/Apart/Submissions.antt =====
-- A validation changes a game in its clients and in the progress of its host alone.
use grass.Prelude.{
  ℕ, String, ◌≡◌, refl, sym, ap, ◌∙◌, arith, Option, none, Bool-cases, inl, inr, Bool, true, false,
  not, if◌then◌else◌, List,
}
use grass.Models.Task.{Uuid, GameTask}
use grass.Models.Error.{BoxError}
use grass.Models.Response.{PublicTestProgress}
use grass.State.{Context, Game, GameState, SocketClient, PartialClient, SandboxResponse}
use grass.Exec.{Exec, pure, ◌>>=◌}
use grass.Exec.Keeps.{Keeps, Keeps-bind, keeps_rules}
use grass.Game.CodeTest.{
  find_player, compile_code, record_success, validate_private, validate_public, validate_code_test,
  store_player, finish_task,
}
use grass.Prelude.HashMap.{HashMap}
use grass.Game.Still.{game_face, SeenState, Keeps-find_task, Keeps-send_global, Keeps-modify_game}

abbrev anonymous : PartialClient → PartialClient
anonymous p = record p { task_progress = none }

module _ (id : Uuid) (q : PartialClient) (g : Game) where
  store-host : g.is_host ≡ true → store_player id q g ≡ record g { partial_host = q }
  store-host host = simp host

  face-store-guest : g.is_host ≡ false → game_face (store_player id q g) ≡ game_face g
  face-store-guest guest = simp guest

-- The player whose progress is kept in the place of a host is that host.
abbrev IsPlayer : Game → PartialClient → Type 0
IsPlayer g₀ p = g₀.is_host ≡ true → anonymous p ≡ g₀.partial_host

face-store_player :
    (g₀ : Game) (id : Uuid) (i : ℕ) (m : HashMap Bool) (p : PartialClient) (g : Game)
    → IsPlayer g₀ p
    → game_face g ≡ g₀
    → game_face (store_player id (finish_task i m p) g) ≡ g₀
face-store_player g₀ id i m p g own e = elim (Bool-cases g.is_host) [
  | inl host ↦
      ap game_face (store-host id (finish_task i m p) g host)
      ∙ ap {A = Game} (λ x. record x { partial_host = anonymous p }) e
      ∙ ap {A = PartialClient} (λ q. record g₀ { partial_host = q })
          (own (sym (ap (λ x. x.is_host) e) ∙ host))
  | inr guest ↦ face-store-guest id (finish_task i m p) g guest ∙ e
]

module _ {R : Context → Type 0} (S : ℕ → (Uuid → Option SocketClient) → Type 0) (g₀ : Game) where
  Keeps-compile_code :
      {Q : GameState → Type 0} (id : Uuid) (code : String) (stdin : List String)
      → Keeps R Q (compile_code id code stdin)
  unfolding compile_code
  Keeps-compile_code id code stdin = search keeps_rules depth 16

  module _ (id : Uuid) (i : ℕ) (p : PartialClient) (own : IsPlayer g₀ p) where
    Keeps-record_success :
        (t : GameTask) (report : List PublicTestProgress)
        → Keeps R (SeenState S (λ g. g ≡ g₀)) (record_success id i t p report)
    unfolding record_success
    Keeps-record_success t report = Keeps-bind _ _ (search keeps_rules) (λ m.
        Keeps-bind _ _
          (Keeps-modify_game S (λ g. g ≡ g₀) _ (λ s. refl)
            (λ s e. face-store_player g₀ id i m p s.game own e))
          (λ _. search (keeps_rules, Keeps-send_global) depth 16))

    Keeps-validate_private :
        (code : String) (t : GameTask) (report : List PublicTestProgress)
        → Keeps R (SeenState S (λ g. g ≡ g₀)) (validate_private id i code t p report)
    unfolding validate_private
    Keeps-validate_private code t report =
        search (keeps_rules, Keeps-compile_code, Keeps-record_success) depth 16

    Keeps-validate_public :
        (code : String) (result : SandboxResponse) (t : GameTask)
        → Keeps R (SeenState S (λ g. g ≡ g₀)) (validate_public id i code result t p)
    unfolding validate_public
    Keeps-validate_public code result t = search (keeps_rules, Keeps-validate_private) depth 16

  module _ (id : Uuid) (i : ℕ) (code : String) (result : SandboxResponse) (t : GameTask) where
    found-Keeps :
        (b : Bool) (g : Game) (m : Exec GameState BoxError PartialClient)
        → g.is_host ≡ b
        → game_face g ≡ g₀
        → Keeps R (SeenState S (λ x. x ≡ g₀)) m
        → Keeps R (SeenState S (λ x. x ≡ g₀)) (
            (if not b then m else pure g.partial_host) >>= λ p.
            validate_public id i code result t p)
    unfolding ◌>>=◌
    found-Keeps true g m host e k = record {
      at =
          (Keeps-validate_public id i g.partial_host (λ h. ap (λ x. x.partial_host) e) code result
            t).at;
    }
    found-Keeps false g m guest e k =
        let same : g₀.is_host ≡ false = sym (ap (λ x. x.is_host) e) ∙ guest in
        Keeps-bind _ _ k
          (λ p. Keeps-validate_public id i p (λ h. absurd (ground arith)) code result t)

    player-Keeps :
        (g : Game)
        → game_face g ≡ g₀
        → Keeps R
            (SeenState S (λ x. x ≡ g₀))
            (find_player g id >>= λ p. validate_public id i code result t p)
    unfolding find_player
    player-Keeps g e = found-Keeps g.is_host g _ refl e (search keeps_rules depth 8)

  pub Keeps-validate_code_test :
      (id : Uuid) (i : ℕ) (code : String) (result : SandboxResponse)
      → Keeps R (SeenState S (λ g. g ≡ g₀)) (validate_code_test id i code result)
  unfolding validate_code_test ◌>>=◌
  Keeps-validate_code_test id i code result = record {
    at = λ c s r h.
        (Keeps-bind _ _ (Keeps-find_task S (λ g. g ≡ g₀) s.game i)
            (λ t. player-Keeps id i code result t s.game h.1)).at
          c s r h;
  }
