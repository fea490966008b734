-- ===== src/Error.antt =====
-- `anyhow::Error` as the program builds it: what failed, under the contexts added on the way out.
use leviso.Base.{String, List}
use leviso.Component.Types.{Op}

-- The kinds of `std::io::Error` that the modelled calls of `std::fs` end in.
pub data IoError : Type 0 where
  not_found already_exists not_a_directory is_a_directory busy invalid_data invalid_input
        not_empty :
      IoError

pub data Error : Type 0 where
  io : IoError → Error
  -- an error of a crate or a program outside this repository
  external : String → Error
  -- `bail!` or `context` with a fixed text, and what the text names
  message : String → List String → Error
  -- `with_context(|| format!("in component '{}': {:?}", name, op))`
  in_component : String → Op → Error → Error
  -- any other `context`
  context : String → Error → Error

-- `anyhow::Result<T>`
pub data Result {ℓ} (T : Type ℓ) : Type ℓ where
  err : Error → Result T
  ok : T → Result T
