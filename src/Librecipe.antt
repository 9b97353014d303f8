-- ===== src/Librecipe.antt =====
-- slapos/recipe/librecipe/__init__.py: values that go through the Master as one JSON text.
mod Tests
use slapos_abilian_edge.Base.{◌≡◌, refl, none, some, [], ◌∷◌}
use slapos_abilian_edge.Base.Dict.{Dict, lookup}
use slapos_abilian_edge.Base.Py.{Outcome, ok, bind}
use slapos_abilian_edge.Base.Text.{Text}

-- What `json` does with values of a type.
pub record Codec (J : Type 0) : Type 0 where
  pub dumps : J → Text
  pub loads : Text → Outcome J

-- A value that came from the Master: as it is, or read from its JSON text.
pub data Unwrapped (J : Type 0) : Type 0 where
  as_is : Dict Text → Unwrapped J
  loaded : J → Unwrapped J

module _ {J : Type 0} (C : Codec J) where
  unfoldable pub wrap : J → Dict Text
  wrap value = ("_", C.dumps value) ∷ []

  unfoldable pub unwrap : Dict Text → Outcome (Unwrapped J)
  unwrap value = elim (lookup "_" value) [
    | none ↦ ok (as_is value)
    | some text ↦ bind (C.loads text) (λ j. ok (loaded j))
  ]

  -- A value that was wrapped is what unwrapping gives, if its JSON text is read back; and a
  -- dictionary without the key of the JSON text is left as it is.
  unwrap-wrap :
      (value : J) (plain_dict : Dict Text)
      → C.loads (C.dumps value) ≡ ok value
      → lookup "_" plain_dict ≡ none
      → (unwrap (wrap value) ≡ ok (loaded value)) × (unwrap plain_dict ≡ ok (as_is plain_dict))
  unfolding unwrap wrap lookup
  unwrap-wrap value plain_dict h k = (rw h refl, rw (unwrap, k) refl)
