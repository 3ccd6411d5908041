-- ===== src/Common/Codec.antt =====
-- Encodings of the values of one type.
use bevy_simplenet.Common.Bytes.{Bytes}
use mathlib.Core.Path.{◌≡◌}
use mathlib.Core.Option.{Option, some}

-- `bincode` on one type: what is serialized is deserialized to the same.
pub record Codec {ℓ} (A : Type ℓ) : Type ℓ where
  pub serialize : A → Option Bytes
  pub deserialize : Bytes → Option A
  pub same : (a : A) (bytes : Bytes) → serialize a ≡ some bytes → deserialize bytes ≡ some a
