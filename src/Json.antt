-- ===== src/Json.antt =====
-- The values that a decoded JSON document holds (`dict[str, Any]` in the source), and what the
-- source does with one: `get`, `in`, truth, `int`, iteration. A finite float is a dyadic fraction,
-- `float m k` for m / 2 ^ k. `none` stands for an exception (TypeError, ValueError, AttributeError).
use Prim.Native.Char.{code}
use Prim.Native.Nat.{◌^◌}
use tiny_mirror.Prelude.{
  ℕ, ◌+◌, ◌-◌, ◌*◌, ◌/◌, String, ◌≡◌, refl, Bool, true, false, not, ◌&&◌, ◌||◌, Option, none, some,
  List, [], ◌∷◌, arith, eq_iff, ℤ, pos, negsuc, ◌-ℤ◌, int_beq, leb, ◌==◌, nat_eq, string_eq,
  if◌then◌else◌,
}

mutual
  pub data Json : Type 0 where
    null : Json
    bool : Bool → Json
    int : ℤ → Json
    float : ℤ → ℕ → Json
    str : String → Json
    arr : Items → Json
    obj : Fields → Json

  pub data Items : Type 0 where
    nil : Items
    cons : Json → Items → Items

  pub data Fields : Type 0 where
    end : Fields
    field : String → Json → Fields → Fields

-- `d.get(key)`: None where the key is missing.
abbrev pub get : Fields → String → Json
get end key = null
get (field k v rest) key = if k == key then v else get rest key

-- `key in d`
abbrev pub contains : Fields → String → Bool
contains end key = false
contains (field k v rest) key = k == key || contains rest key

-- `d[key] = value`
abbrev pub put : Fields → String → Json → Fields
put end key value = field key value end
put (field k v rest) key value =
    if k == key then field k value rest else field k v (put rest key value)

-- `bool(v)`
abbrev pub truthy : Json → Bool
truthy null = false
truthy (bool b) = b
truthy (int z) = not (int_beq z (pos 0))
truthy (float m k) = not (int_beq m (pos 0))
truthy (str s) = not (s == "")
truthy (arr nil) = false
truthy (arr (cons _ _)) = true
truthy (obj end) = false
truthy (obj (field _ _ _)) = true

-- `v or {}`, `v or []`, `v or 0`: the default where `v` is falsy.
abbrev pub or_else : Json → Json → Json
or_else v default = if truthy v then v else default

-- The text as code points.
abbrev pub codes : String → List ℕ
codes String.[] = []
codes (String.◌∷◌ c s) = code c ∷ codes s

is_space : ℕ → Bool
is_space c = c == 32 || (leb 9 c && leb c 13)

is_digit : ℕ → Bool
is_digit c = leb 48 c && leb c 57

all_space : List ℕ → Bool
unfolding is_space
all_space [] = true
all_space (c ∷ s) = is_space c && all_space s

-- The digits of `int(text)` after one digit: an underscore only between two digits, and white space
-- only at the end.
int_digits : ℕ → List ℕ → Option ℕ
unfolding is_digit is_space all_space
int_digits n [] = some n
int_digits n (c ∷ []) =
    if is_digit c then some (n * 10 + (c - 48)) else if is_space c then some n else none
int_digits n (c ∷ d ∷ s) =
    let after_digit = int_digits (n * 10 + (c - 48)) (d ∷ s) in
    let after_underscore = int_digits (n * 10 + (d - 48)) s in
    if is_digit c
    then after_digit
    else if c == 95 && is_digit d
    then after_underscore
    else if all_space (c ∷ d ∷ s)
    then some n
    else none

int_unsigned : List ℕ → Option ℕ
unfolding int_digits
int_unsigned [] = none
int_unsigned (c ∷ s) = if is_digit c then int_digits (c - 48) s else none

int_signed : List ℕ → Option ℤ
unfolding int_unsigned
int_signed [] = none
int_signed (c ∷ s) =
    if c == 45
    then (elim (int_unsigned s) [ none ↦ none | some n ↦ some (pos 0 -ℤ pos n) ])
    else if c == 43
    then (elim (int_unsigned s) [ none ↦ none | some n ↦ some (pos n) ])
    else (elim (int_unsigned (c ∷ s)) [ none ↦ none | some n ↦ some (pos n) ])

-- `int(text)` for ASCII text: white space around, a sign, digits.
unfoldable pub int_of_codes : List ℕ → Option ℤ
unfolding int_signed ◌-ℤ◌
int_of_codes [] = none
int_of_codes (c ∷ s) = let rest = int_of_codes s in if is_space c then rest else int_signed (c ∷ s)

-- `int(m / 2 ^ k)` drops the fraction, towards zero.
abbrev pub truncate : ℤ → ℕ → ℤ
truncate (pos n) k = pos (n / 2 ^ k)
truncate (negsuc n) k = pos 0 -ℤ pos ((n + 1) / 2 ^ k)

-- `int(v)`
abbrev pub to_int : Json → Option ℤ
to_int null = none
to_int (bool true) = some (pos 1)
to_int (bool false) = some (pos 0)
to_int (int z) = some z
to_int (float m k) = some (truncate m k)
to_int (str s) = int_of_codes (codes s)
to_int (arr _) = none
to_int (obj _) = none

-- The members of a list, and of what else a `for` may run over.
abbrev pub items : Items → List Json
items nil = []
items (cons v rest) = v ∷ items rest

abbrev pub keys : Fields → List Json
keys end = []
keys (field k v rest) = str k ∷ keys rest

abbrev pub characters : String → List Json
characters String.[] = []
characters (String.◌∷◌ c s) = str (String.◌∷◌ c String.[]) ∷ characters s

abbrev pub iterate : Json → Option (List Json)
iterate (arr xs) = some (items xs)
iterate (obj fs) = some (keys fs)
iterate (str s) = some (characters s)
iterate _ = none

-- `isinstance(v, dict)`, with the dict.
abbrev pub as_dict : Json → Option Fields
as_dict (obj fs) = some fs
as_dict _ = none

-- `v == "text"`
abbrev pub is_text : Json → String → Bool
is_text (str s) t = s == t
is_text _ t = false

-- `v in frozenset(...)`: a list or dict has no hash.
abbrev pub hashable : Json → Bool
hashable (arr _) = false
hashable (obj _) = false
hashable _ = true

pub get-put_self : (d : Fields) (k : String) (v : Json) → get (put d k v) k ≡ v
get-put_self end k v = ground (arith, eq_iff k k)
get-put_self (field j w rest) k v = ground (arith, eq_iff j k, get-put_self rest k v)

pub contains-put_self : (d : Fields) (k : String) (v : Json) → contains (put d k v) k ≡ true
contains-put_self end k v = ground (arith, eq_iff k k)
contains-put_self (field j w rest) k v = ground (arith, eq_iff j k, contains-put_self rest k v)

pub get-put_ne :
    (d : Fields) (k j : String) (v : Json) → (k == j) ≡ false → get (put d k v) j ≡ get d j
get-put_ne end k j v ne = ground arith
get-put_ne (field i w rest) k j v ne =
    ground (arith, eq_iff i k, eq_iff i j, eq_iff k j, get-put_ne rest k j v ne)

int_text : int_of_codes (codes " -1_204 ") ≡ some (negsuc 1203)
unfolding int_of_codes
int_text = refl

int_bad_text : int_of_codes (codes "12_") ≡ none
unfolding int_of_codes
int_bad_text = refl
