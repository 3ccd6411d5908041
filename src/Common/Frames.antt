-- ===== src/Common/Frames.antt =====
-- The close frames that client and server exchange. `ezsockets::CloseFrame` is a code and a text;
-- the codes that src/ names have a constructor each, and `other` is any code besides.
use Prim.Native.String.{String}
use Prim.Native.Nat.{ℕ}

pub data CloseCode : Type 0 where
  normal away protocol policy error : CloseCode
  other : ℕ → CloseCode

pub record CloseFrame : Type 0 where
  pub code : CloseCode
  pub reason : String
