-- ===== src/Guardrails/Fields.antt =====
-- What the detectors of arbiter/guardrails.py read of an event.
use arbiter_ai.Base.{String, Bool, List, any, if◌then◌else◌}
use arbiter_ai.Base.Text.{contains, strip}
use arbiter_ai.Values.{Runtime, get_or_empty, truthy, text_of}
use arbiter_ai.Schema.{Event}

-- `_has`
unfoldable pub has : String → List String → Bool
unfolding contains
has s = any (contains s)

module _ {F : Type 0} ⦃py : Runtime F⦄ where
  -- `str(ev.fields.get(key, ""))`
  unfoldable pub raw_text : String → Event F → String
  unfolding get_or_empty text_of
  raw_text key e = text_of (get_or_empty key e.fields)

  -- `str(ev.fields.get(key, "")).strip()`
  unfoldable pub field_text : String → Event F → String
  unfolding get_or_empty text_of strip
  field_text key e = strip (text_of (get_or_empty key e.fields))

  -- `str(ev.fields.get(a, "") or ev.fields.get(b, ""))`
  unfoldable pub either_text : String → String → Event F → String
  unfolding get_or_empty truthy text_of
  either_text a b e =
      let first = get_or_empty a e.fields in
      text_of (if truthy first then first else get_or_empty b e.fields)
