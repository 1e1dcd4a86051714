-- ===== src/Values.antt =====
-- What Python's built-in types give to arbiter/: the dynamic values that stand in an event's
-- `fields` (`dict[str, Any]` of arbiter/schema.py), and floats and `str` by an interface.
use arbiter_ai.Base.{
  ℕ, suc, String, ◌≡◌, Bool, true, false, not, ◌&&◌, Option, none, some, ◌==◌, ◌<◌, ◌≤◌, ◌<>◌, eqb,
  leb, ltb, if◌then◌else◌,
}
use arbiter_ai.Base.Decimal.{decimal}

-- `negsuc n` is -(n + 1).
pub data ℤ : Type 0 where
  pos : ℕ → ℤ
  negsuc : ℕ → ℤ

-- A value decoded from JSON, or put into `fields` by the pipeline.
mutual
  pub data Value (F : Type 0) : Type 0 where
    null : Value F
    bool : Bool → Value F
    int : ℤ → Value F
    float : F → Value F
    str : String → Value F
    arr : Items F → Value F
    obj : Entries F → Value F

  pub data Items (F : Type 0) : Type 0 where
    nil : Items F
    cons : Value F → Items F → Items F

  pub data Entries (F : Type 0) : Type 0 where
    end : Entries F
    entry : String → Value F → Entries F → Entries F

-- CPython's `float`: the tests and operations that the source applies to it. `lit n d` is the
-- literal of n / d, such as 0.3 for `lit 3 10`. The laws hold of IEEE
-- doubles, with a NaN among them: every test on a NaN is false.
pub record Runtime (F : Type 0) : Type 0 where
  pub lt : F → F → Bool
  pub le : F → F → Bool
  pub add : F → F → F
  pub sub : F → F → F
  pub mul : F → F → F
  pub lit : ℕ → ℕ → F
  -- `math.isfinite(x)`
  pub finite : F → Bool
  -- `str(x)` and `f"{x:.nf}"`
  pub shown : F → String
  pub fixed : ℕ → F → String
  -- `str(v)` of a list and of a dict
  pub shown_items : Items F → String
  pub shown_entries : Entries F → String
  pub lt_irrefl : (x : F) → lt x x ≡ false
  pub lt_trans : (x y z : F) → lt x y ≡ true → lt y z ≡ true → lt x z ≡ true
  pub le_lt_trans : (x y z : F) → le x y ≡ true → lt y z ≡ true → lt x z ≡ true
  pub lit_lt : (a b : ℕ) → a < b → b ≤ 1000 → lt (lit a 1) (lit b 1) ≡ true

abbrev pub shown_int : ℤ → String
shown_int (pos n) = decimal n
shown_int (negsuc n) = "-" <> decimal (suc n)

module _ {F : Type 0} where
  -- `d.get(key)` of a dict: `none` for a missing key
  unfoldable pub get : String → Entries F → Option (Value F)
  get key end = none
  get key (entry k v rest) = if k == key then some v else get key rest

  -- `d.get(key)` with Python's `None` for a missing key
  unfoldable pub get_value : String → Entries F → Value F
  unfolding get
  get_value key d = elim (get key d) [ none ↦ null | some v ↦ v ]

  -- `d.get(key, "")`
  unfoldable pub get_or_empty : String → Entries F → Value F
  unfolding get
  get_or_empty key d = elim (get key d) [ none ↦ str "" | some v ↦ v ]

  -- `isinstance(v, dict)` with the dict
  abbrev pub as_dict : Value F → Option (Entries F)
  as_dict (obj d) = some d
  as_dict _ = none

  abbrev pub is_dict : Value F → Bool
  is_dict (obj d) = true
  is_dict _ = false

  abbrev pub entries_of : Value F → Entries F
  entries_of (obj d) = d
  entries_of _ = end

  -- `v is True`
  abbrev pub is_true : Value F → Bool
  is_true (bool b) = b
  is_true _ = false

  -- `v == "…"` with a text on the right
  abbrev pub equals : Value F → String → Bool
  equals (str s) t = s == t
  equals _ t = false

module _ {F : Type 0} ⦃py : Runtime F⦄ where
  abbrev pub is_zero : F → Bool
  is_zero x = py.le x (py.lit 0 1) && py.le (py.lit 0 1) x

  -- `bool(v)`
  unfoldable pub truthy : Value F → Bool
  truthy null = false
  truthy (bool b) = b
  truthy (int (pos n)) = not (eqb n 0)
  truthy (int (negsuc n)) = true
  truthy (float x) = not (is_zero x)
  truthy (str s) = not (s == "")
  truthy (arr nil) = false
  truthy (arr (cons v vs)) = true
  truthy (obj end) = false
  truthy (obj (entry k v d)) = true

  -- `isinstance(v, (int, float)) and v >= n`: a bool is an int
  unfoldable pub at_least : ℕ → Value F → Bool
  at_least n (bool true) = leb n 1
  at_least n (bool false) = leb n 0
  at_least n (int (pos m)) = leb n m
  at_least n (float x) = py.le (py.lit n 1) x
  at_least n _ = false

  -- `isinstance(v, (int, float)) and v < n`, for a positive n
  unfoldable pub below : ℕ → Value F → Bool
  below n (bool true) = ltb 1 n
  below n (bool false) = ltb 0 n
  below n (int (pos m)) = ltb m n
  below n (int (negsuc m)) = true
  below n (float x) = py.lt x (py.lit n 1)
  below n _ = false

  -- `str(v)`
  unfoldable pub text_of : Value F → String
  text_of null = "None"
  text_of (bool true) = "True"
  text_of (bool false) = "False"
  text_of (int n) = shown_int n
  text_of (float x) = py.shown x
  text_of (str s) = s
  text_of (arr vs) = py.shown_items vs
  text_of (obj d) = py.shown_entries d
