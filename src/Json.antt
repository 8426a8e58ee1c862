-- ===== src/Json.antt =====
-- JSON values as Python reads them: a `dict` is the list of its fields in the order of insertion.
pub mod Paths
use see_no_evil.Prelude.{
  ◌≡◌, Bool, true, false, not, ◌&&◌, Option, none, some, List, [], ◌∷◌, if◌then◌else◌,
}
use see_no_evil.Text.{Text, eqb, truthy}

module _ (Float : Type 0) where
  mutual
    pub data Json : Type 0 where
      null : Json
      bool : Bool → Json
      num : Float → Json
      text : Text → Json
      arr : Items → Json
      obj : Fields → Json

    pub data Items : Type 0 where
      nil : Items
      cons : Json → Items → Items

    pub data Fields : Type 0 where
      end : Fields
      field : Text → Json → Fields → Fields

module _ {Float : Type 0} where
  abbrev pub is_obj : Json Float → Bool
  is_obj (obj fs) = true
  is_obj _ = false

  -- `d.get(key)`.
  unfoldable pub get : Text → Fields Float → Option (Json Float)
  get key end = none
  get key (field k v fs) = if eqb k key then some v else get key fs

  -- `d[key] = v`.
  unfoldable pub put : Text → Json Float → Fields Float → Fields Float
  put key v end = field key v end
  put key v (field k w fs) = if eqb k key then field key v fs else field k w (put key v fs)

  -- The value at the end of a path of keys.
  unfoldable pub at : List Text → Json Float → Option (Json Float)
  at [] v = some v
  at (key ∷ path) (obj fs) = elim (get key fs) [ none ↦ none | some v ↦ at path v ]
  at (key ∷ path) _ = none

  abbrev pub IsAbsent : Text → Fields Float → Type 0
  IsAbsent key end = Unit
  IsAbsent key (field k v fs) = (eqb k key ≡ false) × IsAbsent key fs
