-- ===== src/Json/Values.antt =====
-- The values of JSON.
use leitstand.Common.{ℕ, Bool, String, List, [], ◌∷◌}

-- A number as `JSON.parse` gives it: `finite negative whole fraction` is ±(whole + fraction / 2^1074),
-- with `fraction` below 2^1074, which covers every finite double; an overflow gives an infinity.
pub data JsonNumber : Type 0 where
  finite : (negative : Bool) (whole fraction : ℕ) → JsonNumber
  infinite : (negative : Bool) → JsonNumber

mutual
  pub data Json : Type 0 where
    null : Json
    boolean : Bool → Json
    number : JsonNumber → Json
    string : String → Json
    array : Items → Json
    object : Members → Json

  pub data Items : Type 0 where
    nil : Items
    cons : Json → Items → Items

  -- The keys are distinct: of two equal ones `JSON.parse` keeps the last.
  pub data Members : Type 0 where
    end : Members
    member : String → Json → Members → Members

abbrev pub items : Items → List Json
items nil = []
items (cons v vs) = v ∷ items vs

abbrev pub of_list : List Json → Items
of_list [] = nil
of_list (v ∷ vs) = cons v (of_list vs)
