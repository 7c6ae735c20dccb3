-- ===== src/Prelude/Json.antt =====
-- JSON values, for the metadata that the program passes on without looking inside.
use Prim.Native.String.{String}
use mathlib.Core.Bool.{Bool}
use tacktcix.Prelude.Int.{ℤ}

mutual
  pub data Json : Type 0 where
    null : Json
    bool : Bool → Json
    number : ℤ → Json
    text : String → Json
    array : Items → Json
    object : Members → Json

  pub data Items : Type 0 where
    nil : Items
    cons : Json → Items → Items

  pub data Members : Type 0 where
    end : Members
    member : String → Json → Members → Members
