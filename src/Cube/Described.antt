-- ===== src/Cube/Described.antt =====
-- The queries and checks of `fits_cube_open` on the open file: the sizes that they vouch for.
use native.Mathlib.Nat.{mul-le-mul, le-div_iff_mul-le}
use mathlib.Core.Path.{subst₂}
use pipewireao_spa_plugin_fi.Base.{
  ℕ, ◌+◌, ◌*◌, ◌/◌, ◌≤◌, ◌<◌, ◌≡◌, refl, sym, ◌⊎◌, inl, inr, true, ◌||◌, some, ltb, ◌==◌,
  if◌then◌else◌, u64, u64_max, u32_max, longlong_max, arith,
}
use pipewireao_spa_plugin_fi.Errno.{
  Ensures-ok, Result, ok, err, guard, einval, Ensures, Ensures-bind, Result-cases,
}
use pipewireao_spa_plugin_fi.Cube.{
  ElementType, ImageType, Datatype, image_type, Options, Info, Axis, FitsFile, element_axis,
  samples_axis, measure, query, describe, inspect, valid_options, sample_axis,
}
use pipewireao_spa_plugin_fi.Cube.Forms.{IsElement, image_type-forms}

-- What holds of the sizes of an open cube: nothing wraps, and the whole cube can be addressed.
pub record IsMeasured (i : Info) : Type 0 where
  pub rank : (i.sample_rank ≡ 1) ⊎ (i.sample_rank ≡ 2)
  pub width_range : (0 < i.width) × (i.width ≤ u32_max)
  pub height_range : (0 < i.height) × (i.height ≤ u32_max)
  pub vector : i.sample_rank ≡ 1 → i.height ≡ 1
  pub samples_pos : 0 < i.samples
  pub element_size_range : (0 < i.element_size) × (i.element_size ≤ 8)
  pub elements : i.plane_elements ≡ i.width * i.height
  pub size : i.plane_size ≡ i.plane_elements * i.element_size
  pub size_fits : i.plane_size ≤ u64_max
  pub cube_fits : i.plane_elements * i.samples ≤ longlong_max

-- A datatype and sizes that are those of an image of so many dimensions with these axes and this type.
pub record IsOf (o : Options) (dimensions : ℕ) (axes : Axis × Axis × Axis) (type : ImageType)
    (r : Datatype × Info) : Type 0 where
  pub sample_rank : r.1.sample_rank ≡ o.sample_rank
  pub rank_or_more : (dimensions ≡ o.sample_rank) ⊎ (dimensions ≡ o.sample_rank + 1)
  pub width : r.1.width ≡ axes.0
  pub height : o.sample_rank ≡ 2 → r.1.height ≡ axes.1
  pub one_sample : dimensions ≡ o.sample_rank → r.1.samples ≡ 1
  pub vectors : dimensions ≡ o.sample_rank + 1 → o.sample_rank ≡ 1 → r.1.samples ≡ axes.1
  pub images : dimensions ≡ o.sample_rank + 1 → o.sample_rank ≡ 2 → r.1.samples ≡ axes.2
  pub element : IsElement type (r.1.element_type, r.0, r.1.element_size)

-- The HDU that is asked for is an image, and the datatype and sizes are its own.
pub record IsImage (fits : FitsFile) (o : Options) (r : Datatype × Info) : Type 0 where
  pub n_axes : ℕ
  pub axes : Axis × Axis × Axis
  pub type : ImageType
  pub hdu : fits.select_hdu o.hdu ≡ some true
  pub n_axes_read : fits.dimensions ≡ some n_axes
  pub axes_read : fits.axes ≡ some axes
  pub type_read : fits.equivalent_type ≡ some type
  pub of : IsOf o n_axes axes type r

image_type-size :
    (t : ImageType) {e : ElementType} {d : Datatype} {n : ℕ}
    → image_type t ≡ ok (e, d, n)
    → (0 < n) × (n ≤ 8)
unfolding image_type
image_type-size t h = ground arith

area-lt : (w h : ℕ) → w ≤ u32_max → h ≤ u32_max → u64 (w * h) ≡ w * h
area-lt w h p q = omega (arith, mul-le-mul p q)

measure-eq :
    (rank width height samples : ℕ) (e : ElementType) (d : Datatype) (n : ℕ) (d' : Datatype)
    (i : Info)
    → measure rank width height samples (e, d, n) ≡ ok (d', i)
    → (u64 (width * height) ≤ u64_max / n)
      × (u64 (width * height) ≤ longlong_max / samples)
      × (d' ≡ d)
      × (i ≡ record {
        sample_rank = rank;
        width = width;
        height = height;
        samples = samples;
        element_type = e;
        element_size = n;
        plane_elements = u64 (width * height);
        plane_size = u64 (u64 (width * height) * n);
      })
unfolding measure
measure-eq rank width height samples e d n d' i eq = ground arith

measure-IsMeasured :
    (rank width height samples : ℕ) (e : ElementType) (d : Datatype) (n : ℕ) (d' : Datatype)
    (i : Info)
    → (rank ≡ 1) ⊎ (rank ≡ 2)
    → (rank ≡ 1 → height ≡ 1)
    → (0 < width) × (width ≤ u32_max)
    → (0 < height) × (height ≤ u32_max)
    → 0 < samples
    → (0 < n) × (n ≤ 8)
    → measure rank width height samples (e, d, n) ≡ ok (d', i)
    → IsMeasured i
measure-IsMeasured rank width height samples e d n d' i r vec w h pos size eq =
    let (fits, cube, _, same) = measure-eq rank width height samples e d n d' i eq in
    let area = area-lt width height w.1 h.1 in
    let bytes =
      (le-div_iff_mul-le {k = n} {x = u64 (width * height)} {y = u64_max} size.0).0 fits in
    let whole =
      (le-div_iff_mul-le {k = samples} {x = u64 (width * height)} {y = longlong_max} pos).0 cube in
    rw same (record {
      rank = r;
      width_range = w;
      height_range = h;
      vector = vec;
      samples_pos = pos;
      element_size_range = size;
      elements = area;
      size = omega (arith, bytes);
      size_fits = omega (arith, bytes);
      cube_fits = whole;
    })

options-rank : (o : Options) → valid_options o ≡ true → (o.sample_rank ≡ 1) ⊎ (o.sample_rank ≡ 2)
unfolding valid_options
options-rank o v = ground arith

element_axis-range : (a : Axis) {n : ℕ} → element_axis a ≡ ok n → (0 < n) × (n ≤ u32_max)
unfolding element_axis
element_axis-range a h = ground arith

-- What `fits_cube_open` learns of an image it accepts.
IsDescribed : Options → ℕ → Axis × Axis × Axis → ImageType → Datatype × Info → Type 0
IsDescribed o dimensions axes type r = IsMeasured r.1 × IsOf o dimensions axes type r

unfoldable pub IsInspected : FitsFile → Options → Datatype × Info → Type 0
IsInspected fits o r = IsMeasured r.1 × IsImage fits o r

measured :
    (o : Options) (dimensions : ℕ) (axes : Axis × Axis × Axis) (type : ImageType)
    (width height samples : ℕ) (types : ElementType × Datatype × ℕ)
    → valid_options o ≡ true
    → (0 < width) × (width ≤ u32_max)
    → (o.sample_rank ≡ 1 → height ≡ 1) × (0 < height) × (height ≤ u32_max)
    → 0 < samples
    → (0 < types.2) × (types.2 ≤ 8)
    → IsOf o dimensions axes type (
      types.1,
      record {
        sample_rank = o.sample_rank;
        width = width;
        height = height;
        samples = samples;
        element_type = types.0;
        element_size = types.2;
        plane_elements = u64 (width * height);
        plane_size = u64 (u64 (width * height) * types.2);
      },
    )
    → Ensures
        (IsDescribed o dimensions axes type)
        (measure o.sample_rank width height samples types)
unfolding IsDescribed
measured o dimensions axes type width height samples (e, d, n) v w h pos size of =
    elim (Result-cases (measure o.sample_rank width height samples (e, d, n))) [
      | inl ((d', i), eq) ↦
          let (_, _, same, info) = measure-eq o.sample_rank width height samples e d n d' i eq in
          rw eq (
            measure-IsMeasured o.sample_rank width height samples e d n d' i (options-rank o v) h.0
                w (h.1, h.2) pos size eq,
            subst₂ (λ t k. IsOf o dimensions axes type (t, k)) (sym same) (sym info) of,
          )
      | inr (x, eq) ↦ rw eq tt
    ]

height-range :
    (rank : ℕ) (a : Axis) {n : ℕ}
    → (if rank == 2 then element_axis a else ok 1) ≡ ok n
    → (rank ≡ 1 → n ≡ 1) × (0 < n) × (n ≤ u32_max)
unfolding element_axis
height-range rank a h = ground arith

samples-range :
    (rank dimensions : ℕ) (a : Axis) {n : ℕ}
    → (if ltb rank dimensions then samples_axis a else ok 1) ≡ ok n
    → 0 < n
unfolding samples_axis
samples-range rank dimensions a h = ground arith

element_axis-eq : (a : Axis) {n : ℕ} → element_axis a ≡ ok n → n ≡ a
unfolding element_axis
element_axis-eq a h = ground arith

guard-eq :
    (dimensions rank : ℕ) {u : Unit {0}}
    → guard ((dimensions == rank) || (dimensions == rank + 1)) einval ≡ ok u
    → (dimensions ≡ rank) ⊎ (dimensions ≡ rank + 1)
unfolding guard
guard-eq dimensions rank h = ground arith

module _ (o : Options) (dimensions : ℕ) (axes : Axis × Axis × Axis) (type : ImageType)
    (width height samples : ℕ) (types : ElementType × Datatype × ℕ) (elements bytes : ℕ) where
  described-IsOf :
      (dimensions ≡ o.sample_rank) ⊎ (dimensions ≡ o.sample_rank + 1)
      → element_axis axes.0 ≡ ok width
      → (if o.sample_rank == 2 then element_axis axes.1 else ok 1) ≡ ok height
      → (if ltb o.sample_rank dimensions
          then samples_axis (sample_axis o.sample_rank axes)
          else ok 1)
        ≡ ok samples
      → image_type type ≡ ok types
      → IsOf o dimensions axes type (
        types.1,
        record {
          sample_rank = o.sample_rank;
          width = width;
          height = height;
          samples = samples;
          element_type = types.0;
          element_size = types.2;
          plane_elements = elements;
          plane_size = bytes;
        },
      )
  unfolding element_axis samples_axis
  described-IsOf d w h n t = record {
    sample_rank = refl;
    rank_or_more = d;
    width = element_axis-eq axes.0 w;
    height = λ two. ground arith;
    one_sample = λ same. ground arith;
    vectors = λ more one. ground arith;
    images = λ more two. ground arith;
    element = Ensures-ok (IsElement type) (image_type type) t (image_type-forms type);
  }

describe-IsDescribed :
    (o : Options) (dimensions : ℕ) (axes : Axis × Axis × Axis) (type : ImageType)
    → valid_options o ≡ true
    → Ensures (IsDescribed o dimensions axes type) (describe o (dimensions, axes, type))
unfolding describe
describe-IsDescribed o dimensions axes type v =
    let P = IsDescribed o dimensions axes type in
    Ensures-bind P
      (guard ((dimensions == o.sample_rank) || (dimensions == o.sample_rank + 1)) einval) _
      λ _ d. Ensures-bind P (element_axis axes.0) _ λ width w.
        Ensures-bind P (if o.sample_rank == 2 then element_axis axes.1 else ok 1) _ λ height h.
          Ensures-bind P _ _ λ samples n. Ensures-bind P (image_type type) _ λ types t.
            measured o dimensions axes type width height samples types v
              (element_axis-range axes.0 w) (height-range o.sample_rank axes.1 h)
              (samples-range o.sample_rank dimensions (sample_axis o.sample_rank axes) n)
              (image_type-size type t)
              (described-IsOf o dimensions axes type width height samples types _ _
                (guard-eq dimensions o.sample_rank d) w h n t)

query-answers :
    (fits : FitsFile) (o : Options) {dimensions : ℕ} {axes : Axis × Axis × Axis} {type : ImageType}
    → query fits o ≡ ok (dimensions, axes, type)
    → (fits.select_hdu o.hdu ≡ some true)
      × (fits.dimensions ≡ some dimensions)
      × (fits.axes ≡ some axes)
      × (fits.equivalent_type ≡ some type)
unfolding query guard
query-answers fits o h = (ground arith, ground arith, ground arith, ground arith)

Ensures-weaken :
    {A : Type 0} {P Q : A → Type 0} (r : Result A)
    → ((a : A) → P a → Q a)
    → Ensures P r
    → Ensures Q r
Ensures-weaken (ok a) h p = h a p
Ensures-weaken (err e) h p = tt

pub inspect-IsInspected :
    (fits : FitsFile) (o : Options)
    → valid_options o ≡ true
    → Ensures (IsInspected fits o) (inspect fits o)
unfolding inspect IsInspected IsDescribed
inspect-IsInspected fits o v =
    Ensures-bind (IsInspected fits o) (query fits o) (describe o) λ answers e.
      let (hdu, n_axes_read, axes_read, type_read) =
        query-answers fits o {dimensions = answers.0} {axes = answers.1} {type = answers.2} e in
      Ensures-weaken (describe o answers)
        (λ r (m, of). (
          m,
          record {
            n_axes = answers.0;
            axes = answers.1;
            type = answers.2;
            hdu = hdu;
            n_axes_read = n_axes_read;
            axes_read = axes_read;
            type_read = type_read;
            of = of;
          },
        ))
        (describe-IsDescribed o answers.0 answers.1 answers.2 v)
