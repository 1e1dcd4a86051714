-- ===== src/Schema/Laws.antt =====
-- The severity of an event lies between 0 and 10, whatever float the source reported.
use arbiter_ai.Base.{String, ◌≡◌, true, false, arith, inl, inr, Bool-cases, ◌==◌}
use arbiter_ai.Values.{Runtime}
use arbiter_ai.Schema.{Event, clamp, post_init}

zero-lt-ten : {F : Type 0} (py : Runtime F) → py.lt (py.lit 0 1) (py.lit 10 1) ≡ true
zero-lt-ten py = py.lit_lt 0 10 (omega arith) (omega arith)

module _ {F : Type 0} ⦃py : Runtime F⦄ where
  pub asymmetric : (x y : F) → py.lt x y ≡ true → py.lt y x ≡ false
  asymmetric x y h = elim (Bool-cases (py.lt y x)) [
    | inl back ↦ cc (py.lt_trans x y x h back, py.lt_irrefl x)
    | inr no_back ↦ no_back
  ]

  -- A clamped float is neither below 0 nor above 10, also where the float is a NaN.
  pub clamp_bounds :
      (x : F) → (py.lt (clamp x) (py.lit 0 1) ≡ false) × (py.lt (py.lit 10 1) (clamp x) ≡ false)
  unfolding clamp
  clamp_bounds x = (
    ground (
      arith,
      zero-lt-ten py,
      asymmetric (py.lit 0 1) x,
      asymmetric (py.lit 0 1) (py.lit 10 1),
      py.lt_irrefl (py.lit 0 1),
    ),
    ground (
      arith,
      zero-lt-ten py,
      asymmetric x (py.lit 10 1),
      asymmetric (py.lit 0 1) (py.lit 10 1),
      py.lt_irrefl (py.lit 10 1),
    ),
  )

  clamp_idem : (x : F) → clamp (clamp x) ≡ clamp x
  unfolding clamp
  clamp_idem x =
      ground (arith, zero-lt-ten py, py.lt_irrefl (py.lit 0 1), py.lt_irrefl (py.lit 10 1))

  -- Constructing an event again from its own fields, as a decoder does, changes nothing: the id and
  -- the time that the first construction filled in stay, and so does the severity.
  pub post_init_idem :
      (fresh now fresh' now' : String) (e : Event F)
      → (fresh == "") ≡ false
      → (now == "") ≡ false
      → post_init fresh' now' (post_init fresh now e) ≡ post_init fresh now e
  unfolding post_init
  post_init_idem fresh now fresh' now' e hf hn = ground (arith, clamp_idem e.severity)
