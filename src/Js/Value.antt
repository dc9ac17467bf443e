-- ===== src/Js/Value.antt =====
-- A value of type `unknown`, as JSON.parse returns it; `undefined` stands for a field that is
-- missing. The fields of an object have different names, and no field is inherited: no key that
-- the program reads is on Object.prototype.
use stechbaza_iot.Prelude.{ℕ, Bool, true, false, String, List, [], ◌∷◌, if◌then◌else◌, str_eq}
use stechbaza_iot.Js.Number.{Number, num_eq, nat}

mutual
  pub data Value : Type 0 where
    undefined : Value
    null : Value
    bool : Bool → Value
    num : Number → Value
    str : String → Value
    obj : Fields → Value
    arr : Items → Value

  pub data Fields : Type 0 where
    end : Fields
    field : String → Value → Fields → Fields

  pub data Items : Type 0 where
    nil : Items
    cons : Value → Items → Items

abbrev pub elements : Items → List Value
elements nil = []
elements (cons v r) = v ∷ elements r

abbrev pub items : List Value → Items
items [] = nil
items (v ∷ r) = cons v (items r)

-- record[key]
unfoldable pub get : Fields → String → Value
get end k = undefined
get (field j v r) k = let rest = get r k in if str_eq j k then v else rest

-- Object.keys(record)
abbrev pub keys : Fields → List String
keys end = []
keys (field j v r) = j ∷ keys r

-- value === undefined || value === null
abbrev pub is_nullish : Value → Bool
is_nullish undefined = true
is_nullish null = true
is_nullish v = false

abbrev pub is_null : Value → Bool
is_null null = true
is_null v = false

abbrev pub is_undefined : Value → Bool
is_undefined undefined = true
is_undefined v = false

-- value === "text", value === 3, value === true
abbrev pub is_text : Value → String → Bool
is_text (str s) t = str_eq s t
is_text v t = false

abbrev pub is_nat : Value → ℕ → Bool
is_nat (num x) n = num_eq x (nat n)
is_nat v n = false

abbrev pub is_true : Value → Bool
is_true (bool b) = b
is_true v = false

-- typeof value === "boolean"
abbrev pub is_bool : Value → Bool
is_bool (bool b) = true
is_bool v = false

-- typeof value === "string"
abbrev pub is_string : Value → Bool
is_string (str s) = true
is_string v = false

abbrev same_bool : Bool → Bool → Bool
same_bool true b = b
same_bool false true = false
same_bool false false = true

-- a === b. Two values that were parsed apart share no object, so arrays and objects differ.
unfoldable pub strict_eq : Value → Value → Bool
strict_eq undefined undefined = true
strict_eq null null = true
strict_eq (bool a) (bool b) = same_bool a b
strict_eq (num a) (num b) = num_eq a b
strict_eq (str a) (str b) = str_eq a b
strict_eq a b = false
