-- ===== src/Base/Output.antt =====
-- What the program inserts into a stream, in order. How the stream formats it is the library's.
use Prim.Native.Nat.{ℕ}
use Prim.Native.String.{String}
use mathlib.Core.List.{List, [], ◌∷◌}
use mathlib.Core.Option.{Option, none, some}
use message_router.Base.Int.{ℤ}

pub data Item : Type 0 where
  text : String → Item
  number : ℕ → Item
  signed : ℤ → Item
  quotient : ℕ → ℕ → Item  -- a `double`, the first by the second
  setw : ℕ → Item
  setprecision : ℕ → Item
  fixed : Item
  endl : Item

-- The text inserted last.
abbrev pub last_text : List Item → Option String
last_text items = from none items
  where
    from : Option String → List Item → Option String
    from t [] = t
    from t (text s ∷ items) = from (some s) items
    from t (_ ∷ items) = from t items
