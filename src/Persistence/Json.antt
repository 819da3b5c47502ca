-- ===== src/Persistence/Json.antt =====
-- JSON values, as `json.dumps` takes them and `json.loads` gives them back, and their reading by keys.
-- The printed texts are those of a library. A transaction is passed on as it is, so it is one value.
use ecn.Common.{
  ℕ, String, ◌≡◌, refl, Bool, Option, none, some, List, [], ◌∷◌, arith, if◌then◌else◌, Result, ok,
  raise, ◌>>=◌, or_raise,
}
use ecn.Common.Text.{str_eq}
use ecn.Common.Dict.{Dict}
use ecn.World.{Transaction}

mutual
  pub data Json : Type 0 where
    null : Json
    bool : Bool → Json
    number : ℕ → Json
    text : String → Json
    transaction : Transaction → Json
    array : Items → Json
    object : Fields → Json

  pub data Items : Type 0 where
    no_items : Items
    item : Json → Items → Items

  pub data Fields : Type 0 where
    no_fields : Fields
    field : String → Json → Fields → Fields

-- What reading may raise. A value of another type than its field is refused here, which the code,
-- without types, would keep.
pub data LoadError : Type 0 where
  missing_key : String → LoadError
  wrong_type : LoadError
  bad_json : LoadError

-- `json.dumps`, and `json.loads`, none where it raises
pub record JsonLibrary : Type 1 where
  pub Printed : Type 0
  pub dumps : Json → Printed
  pub loads : Printed → Option Json

-- `[json.loads(row[0]) for row in rows]`
unfoldable pub load_rows : (json : JsonLibrary) → List json.Printed → Result LoadError (List Json)
load_rows json [] = ok []
load_rows json (row ∷ rows) = do
  d ← or_raise (json.loads row) bad_json
  ds ← load_rows json rows
  ok (d ∷ ds)

-- `d.get(k)`
unfoldable pub get : String → Fields → Option Json
get k no_fields = none
get k (field j v d) = let rest = get k d in if str_eq k j then some v else rest

-- `d[k]`
abbrev pub get_key : String → Fields → Result LoadError Json
get_key k d = or_raise (get k d) (missing_key k)

-- `d.get(k, default)`
abbrev pub get_default : String → Fields → Json → Json
get_default k d default = elim (get k d) [ none ↦ default | some v ↦ v ]

abbrev pub fields_of : Json → Result LoadError Fields
fields_of (object d) = ok d
fields_of _ = raise wrong_type

abbrev pub items_of : Json → Result LoadError Items
items_of (array items) = ok items
items_of _ = raise wrong_type

abbrev pub bool_of : Json → Result LoadError Bool
bool_of (bool b) = ok b
bool_of _ = raise wrong_type

abbrev pub number_of : Json → Result LoadError ℕ
number_of (number n) = ok n
number_of _ = raise wrong_type

abbrev pub text_of : Json → Result LoadError String
text_of (text s) = ok s
text_of _ = raise wrong_type

abbrev pub transaction_of : Json → Result LoadError Transaction
transaction_of (transaction tx) = ok tx
transaction_of _ = raise wrong_type

-- A text or `None`
abbrev pub of_optional : Option String → Json
of_optional none = null
of_optional (some s) = text s

abbrev pub optional_of : Json → Result LoadError (Option String)
optional_of null = ok none
optional_of (text s) = ok (some s)
optional_of _ = raise wrong_type

pub optional_of-of_optional : (o : Option String) → optional_of (of_optional o) ≡ ok o
optional_of-of_optional none = refl
optional_of-of_optional (some s) = refl

-- A list of texts
unfoldable pub of_texts : List String → Items
of_texts [] = no_items
of_texts (s ∷ texts) = item (text s) (of_texts texts)

unfoldable pub texts_of : Items → Result LoadError (List String)
texts_of no_items = ok []
texts_of (item v items) = do s ← text_of v; texts ← texts_of items; ok (s ∷ texts)

pub texts_of-of_texts : (texts : List String) → texts_of (of_texts texts) ≡ ok texts
unfolding texts_of of_texts
texts_of-of_texts [] = refl
texts_of-of_texts (s ∷ texts) = ground (arith, texts_of-of_texts texts)

-- A dictionary of counts
unfoldable pub of_counts : Dict ℕ → Fields
of_counts [] = no_fields
of_counts ((k, n) ∷ counts) = field k (number n) (of_counts counts)

unfoldable pub counts_of : Fields → Result LoadError (Dict ℕ)
counts_of no_fields = ok []
counts_of (field k v d) = do n ← number_of v; counts ← counts_of d; ok ((k, n) ∷ counts)

pub counts_of-of_counts : (counts : Dict ℕ) → counts_of (of_counts counts) ≡ ok counts
unfolding counts_of of_counts
counts_of-of_counts [] = refl
counts_of-of_counts ((k, n) ∷ counts) = ground (arith, counts_of-of_counts counts)
