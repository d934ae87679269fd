-- ===== src/Package/Validate/Forbidden.antt =====
-- package.rs: no key of an accepted manifest is forbidden, at any depth.
use ai_data_hackathon.Prelude.{ℕ, String, ◌≡◌, refl, Bool, true, false, not, ◌||◌, List, arith}
use ai_data_hackathon.ClassifierSchema.{
  Value, Values, Fields, null, other_number, boolean, unsigned, string, array, object, no_values,
  value_then, no_fields, field_then,
}
use ai_data_hackathon.Prelude.Results.{ok, bind_ok}
use ai_data_hackathon.Package.Json.{
  PackageLimits, ValidatedPackage, is_forbidden, reject_forbidden_keys, reject_forbidden_items,
  reject_forbidden_fields,
}
use ai_data_hackathon.Package.Header.{Payloads}
use ai_data_hackathon.Package.Validate.{validate_package}
use ai_data_hackathon.Package.Validate.Passed.{require_ok, validate_package-Stages}

-- A value has a forbidden key, in itself or in a value inside.
mutual
  pub has_forbidden : Value → Bool
  has_forbidden (object entries) = entries_have entries
  has_forbidden (array items) = items_have items
  has_forbidden _ = false

  items_have : Values → Bool
  items_have no_values = false
  items_have (value_then v vs) = has_forbidden v || items_have vs

  entries_have : Fields → Bool
  entries_have no_fields = false
  entries_have (field_then k v fs) = is_forbidden k || (has_forbidden v || entries_have fs)

neither : (a b : Bool) → a ≡ false → b ≡ false → (a || b) ≡ false
neither a b e f = ground arith

negated : (b : Bool) → not b ≡ true → b ≡ false
negated true e = cc
negated false e = refl

mutual
  unfolding has_forbidden reject_forbidden_keys

  not_forbidden :
      (v : Value) (u : Unit {0}) → reject_forbidden_keys v ≡ ok u → has_forbidden v ≡ false
  not_forbidden (object entries) u e = entries_not_forbidden entries u e
  not_forbidden (array items) u e = items_not_forbidden items u e
  not_forbidden null u e = refl
  not_forbidden (other_number x) u e = refl
  not_forbidden (boolean b) u e = refl
  not_forbidden (unsigned n) u e = refl
  not_forbidden (string s) u e = refl

  items_not_forbidden :
      (vs : Values) (u : Unit {0}) → reject_forbidden_items vs ≡ ok u → items_have vs ≡ false
  items_not_forbidden no_values u e = refl
  items_not_forbidden (value_then v vs) u e =
      let a = bind_ok (reject_forbidden_keys v) _ u e in
      neither (has_forbidden v) (items_have vs) (not_forbidden v a.0 a.1)
        (items_not_forbidden vs u a.2)

  entries_not_forbidden :
      (fs : Fields) (u : Unit {0}) → reject_forbidden_fields fs ≡ ok u → entries_have fs ≡ false
  entries_not_forbidden no_fields u e = refl
  entries_not_forbidden (field_then k v fs) u e =
      let a = require_ok (not (is_forbidden k)) "package_forbidden_field" _ u e in
      let b = bind_ok (reject_forbidden_keys v) _ u a.1 in
      neither (is_forbidden k) (has_forbidden v || entries_have fs) (negated (is_forbidden k) a.0) (
        neither (has_forbidden v) (entries_have fs) (not_forbidden v b.0 b.1)
          (entries_not_forbidden fs u b.2))

module _ (sha256_hex : List ℕ → String) where
  -- No key of the manifest of an accepted package is forbidden, at any depth.
  pub validate_package_hides :
      (manifest : Value) (payloads : Payloads) (known : List ℕ) (limits : PackageLimits)
      (v : ValidatedPackage)
      → validate_package sha256_hex manifest payloads known limits ≡ ok v
      → has_forbidden manifest ≡ false
  validate_package_hides manifest payloads known limits v e =
      not_forbidden manifest tt
        (validate_package-Stages sha256_hex manifest payloads known limits v e).allowed
