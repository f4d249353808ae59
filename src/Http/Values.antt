-- ===== src/Http/Values.antt =====
-- JSON values, as `response.json()` gives them and `JSON.stringify` takes them.
use pb_launcher.Prelude.{Text, [], ◌∷◌, Bool, true, false, not, text_eq, ◌==◌, if◌then◌else◌}
use pb_launcher.Prelude.Int.{ℤ, pos, negsuc}

mutual
  pub data Json : Type 0 where
    null : Json
    undefined : Json
    boolean : Bool → Json
    number : ℤ → Json
    string : Text → Json
    array : Items → Json
    object : Fields → Json

  pub data Items : Type 0 where
    nil : Items
    cons : Json → Items → Items

  pub data Fields : Type 0 where
    end : Fields
    field : Text → Json → Fields → Fields

abbrev pub lookup_field : Fields → Text → Json
lookup_field end name = undefined
lookup_field (field k v fs) name = if text_eq k name then v else lookup_field fs name

-- `json?.name`: what is no object has no such field (an array or a string has none of these names).
abbrev pub field_of : Json → Text → Json
field_of (object fs) name = lookup_field fs name
field_of j name = undefined

-- `Boolean(json)`
abbrev pub is_truthy : Json → Bool
is_truthy null = false
is_truthy undefined = false
is_truthy (boolean b) = b
is_truthy (number (pos n)) = not (n == 0)
is_truthy (number (negsuc n)) = true
is_truthy (string []) = false
is_truthy (string (c ∷ s)) = true
is_truthy (array xs) = true
is_truthy (object fs) = true
