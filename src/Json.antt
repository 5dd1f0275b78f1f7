-- ===== src/Json.antt =====
-- The JSON values of the audit log. `time` is the ISO 8601 text of a time.
use landlord_cli.Prelude.{Bool, List, Option, String, [], none, some, ℕ, ◌∷◌}
use landlord_cli.Prelude.Int.{pos, ℤ}

mutual
  pub data Json : Type 0 where
    null : Json
    int : ℤ → Json
    bool : Bool → Json
    str : String → Json
    time : ℕ → Json
    arr : Elems → Json
    obj : Fields → Json

  pub data Elems : Type 0 where
    nil : Elems
    elem : Json → Elems → Elems

  pub data Fields : Type 0 where
    end : Fields
    field : String → Json → Fields → Fields

abbrev pub nat : ℕ → Json
nat n = int (pos n)

-- `None` or a value
abbrev pub opt : {A : Type 0} → (A → Json) → Option A → Json
opt f none = null
opt f (some a) = f a

abbrev pub elems : {A : Type 0} → (A → Json) → List A → Elems
elems f [] = nil
elems f (x ∷ xs) = elem (f x) (elems f xs)

abbrev pub fields : List (String × Json) → Fields
fields [] = end
fields ((k, v) ∷ xs) = field k v (fields xs)

-- a dictionary with these keys
abbrev pub dict : List (String × Json) → Json
dict xs = obj (fields xs)
