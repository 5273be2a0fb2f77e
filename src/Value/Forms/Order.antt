-- ===== src/Value/Forms/Order.antt =====
-- Ranges over the types that have an order of their own.
use Prim.Native.Nat.{Ordering}
use mikura.Common.{
  ℕ, ◌≡◌, ◌↔◌, refl, sym, ap, ◌∙◌, Bool, true, false, not, Option, some, if◌then◌else◌, Result, ok,
  err, ◌>>=◌, >>=-eq-ok, ok-eq,
}
use mikura.Common.Text.{Str}
use mikura.Errors.{Error}
use mikura.Value.Types.{PropertyType, PropertyValue}
use mikura.Value.Geo.{Floats}
use mikura.Value.Forms.{
  parse_canonical, cmp_values, cmp_canonical, is_less, is_greater, beyond, value_in_range,
  ordered_in_range, in_range,
}

pub data IsOrdered : PropertyType → Type 0 where
  text : IsOrdered PropertyType.string
  whole : IsOrdered PropertyType.integer
  instant : IsOrdered PropertyType.timestamp
  fraction : {type : PropertyType} (scale : ℕ) → type ≡ PropertyType.decimal scale → IsOrdered type

module _ (f : Floats) where
  in_range-ordered :
      (type : PropertyType) (stored : Str) (min max : Option Str)
      → IsOrdered type
      → in_range f type stored min max ≡ ordered_in_range f type stored min max
  unfolding in_range
  in_range-ordered PropertyType.string stored min max h = refl
  in_range-ordered PropertyType.integer stored min max h = refl
  in_range-ordered PropertyType.timestamp stored min max h = refl
  in_range-ordered (PropertyType.decimal scale) stored min max h = refl
  in_range-ordered PropertyType.boolean stored min max (fraction scale e) = cc
  in_range-ordered (PropertyType.vector dim) stored min max (fraction scale e) = cc
  in_range-ordered PropertyType.geo_point stored min max (fraction scale e) = cc
  in_range-ordered PropertyType.geo_shape stored min max (fraction scale e) = cc
  in_range-ordered PropertyType.media stored min max (fraction scale e) = cc
  in_range-ordered PropertyType.time_series stored min max (fraction scale e) = cc

  -- The stored text compares with a bound, and not in the way that is wrong.
  pub record Respects (type : PropertyType) (stored bound : Str) (wrong : Ordering → Bool)
      : Type 0 where
    pub order : Ordering
    pub compared : cmp_canonical f type stored bound ≡ ok order
    pub right : wrong order ≡ false

  judged : (Ordering → Bool) → Result Error Ordering → Result Error Bool
  judged wrong r = r >>= λ order. ok (wrong order)

  beyond-cmp :
      (type : PropertyType) (stored bound : Str) (wrong : Ordering → Bool) (value : PropertyValue)
      → parse_canonical f type stored ≡ ok value
      → beyond f wrong type value (some bound) ≡ judged wrong (cmp_canonical f type stored bound)
  unfolding cmp_canonical judged
  beyond-cmp type stored bound wrong value read = rw read (by_bound (parse_canonical f type bound))
    where
      by_bound :
          (r : Result Error PropertyValue)
          → (r >>= λ b. cmp_values type value b >>= λ order. ok (wrong order))
            ≡ (r >>= λ b. cmp_values type value b) >>= λ order. ok (wrong order)
      by_bound (ok b) = refl
      by_bound (err e) = refl

  judged-Respects :
      (type : PropertyType) (stored bound : Str) (wrong : Ordering → Bool)
      → (judged wrong (cmp_canonical f type stored bound) ≡ ok false)
        ↔ Respects type stored bound wrong
  unfolding judged
  judged-Respects type stored bound wrong = (
    λ e.
        let (order, compared, rest) = >>=-eq-ok (cmp_canonical f type stored bound) _ e in
        record { order = order; compared = compared; right = ok-eq _ _ rest },
    λ r. ap (λ c. c >>= λ order. ok (wrong order)) r.compared ∙ ap ok r.right,
  )

  unread :
      (type : PropertyType) (stored bound : Str) (wrong : Ordering → Bool) (e : Error)
      → parse_canonical f type stored ≡ err e
      → Respects type stored bound wrong
      → ⊥
  unfolding cmp_canonical
  unread type stored bound wrong e failed r =
      let (value, read, rest) = >>=-eq-ok (parse_canonical f type stored) _ r.compared in cc

  both : Result Error Bool → Result Error Bool → Result Error Bool
  both a b = a >>= λ x. if x then ok false else (b >>= λ y. ok (not y))

  both-true : (a b : Result Error Bool) → (both a b ≡ ok true) ↔ ((a ≡ ok false) × (b ≡ ok false))
  unfolding both
  both-true (err e) b = (λ h. cc, λ h. cc)
  both-true (ok true) b = (λ h. cc, λ h. cc)
  both-true (ok false) (err e) = (λ h. cc, λ h. cc)
  both-true (ok false) (ok true) = (λ h. cc, λ h. cc)
  both-true (ok false) (ok false) = (λ h. (refl, refl), λ h. refl)

  value_in_range-both :
      (type : PropertyType) (value : PropertyValue) (min max : Option Str)
      → value_in_range f type value min max
        ≡ both (beyond f is_less type value min) (beyond f is_greater type value max)
  unfolding value_in_range both
  value_in_range-both type value min max = refl

  ordered-err :
      (type : PropertyType) (stored : Str) (min max : Option Str) (e : Error)
      → parse_canonical f type stored ≡ err e
      → ordered_in_range f type stored min max ≡ ok false
  unfolding ordered_in_range
  ordered-err type stored min max e p = rw (p, ordered_in_range) refl

  ordered-ok :
      (type : PropertyType) (stored : Str) (min max : Option Str) (value : PropertyValue)
      → parse_canonical f type stored ≡ ok value
      → ordered_in_range f type stored min max ≡ value_in_range f type value min max
  unfolding ordered_in_range
  ordered-ok type stored min max value p = rw (p, ordered_in_range) refl

  -- For a string, an integer, a timestamp or a decimal: a stored text is in the range of two bounds
  -- exactly when it compares with both, and is not less than the first and not greater than the
  -- second.
  pub in_range-Respects :
      (type : PropertyType) (stored min max : Str)
      → IsOrdered type
      → (in_range f type stored (some min) (some max) ≡ ok true)
        ↔ (Respects type stored min is_less × Respects type stored max is_greater)
  in_range-Respects type stored min max h = by_read (parse_canonical f type stored) refl
    where
      by_read :
          (r : Result Error PropertyValue)
          → parse_canonical f type stored ≡ r
          → (in_range f type stored (some min) (some max) ≡ ok true)
            ↔ (Respects type stored min is_less × Respects type stored max is_greater)
      by_read (err e) p =
          let none_in =
            in_range-ordered type stored (some min) (some max) h
            ∙ ordered-err type stored (some min) (some max) e p in
          (λ q. cc, λ q. absurd (unread type stored min is_less e p q.0))
      by_read (ok value) p =
          let equation =
            in_range-ordered type stored (some min) (some max) h
            ∙ ordered-ok type stored (some min) (some max) value p
            ∙ value_in_range-both type value (some min) (some max)
            ∙ ap (λ a. both a (beyond f is_greater type value (some max)))
                (beyond-cmp type stored min is_less value p)
            ∙ ap (both (judged is_less (cmp_canonical f type stored min)))
                (beyond-cmp type stored max is_greater value p) in
          let split =
            both-true (judged is_less (cmp_canonical f type stored min))
              (judged is_greater (cmp_canonical f type stored max)) in
          (
            λ q.
                let (low, high) = split.0 (sym equation ∙ q) in
                (
                  (judged-Respects type stored min is_less).0 low,
                  (judged-Respects type stored max is_greater).0 high,
                ),
            λ q.
                equation
                ∙ split.1 (
                  (judged-Respects type stored min is_less).1 q.0,
                  (judged-Respects type stored max is_greater).1 q.1,
                ),
          )
