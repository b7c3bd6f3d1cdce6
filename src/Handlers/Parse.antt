-- ===== src/Handlers/Parse.antt =====
-- `serde_json::from_value(self.d.unwrap()).map_err(|_| ClientError::ParsingError)?`
use grass.Prelude.{String, Option}
use grass.Models.Error.{ClientError, parsing_error}
use grass.State.{World, Serde}
use grass.Exec.{Exec, asks, unwrap, or_raise, ◌>>=◌}

unfoldable pub parse :
    {A : Type 0} → (Serde → String → Option A) → Option String → Exec World ClientError A
parse f d = do value ← unwrap d; serde ← asks (λ c. c.serde); or_raise parsing_error (f serde value)
