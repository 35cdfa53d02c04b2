-- ===== src/Cube/Forms.antt =====
-- `image_type` of spa/plugins/fits/cube.c by the numbers that the names of SPA and CFITSIO stand for.
use pipewireao_spa_plugin_fi.Base.{Option, none, ℕ, ◌≡◌, refl, some}
use pipewireao_spa_plugin_fi.Errno.{Ensures}
use pipewireao_spa_plugin_fi.Cube.{
  ElementType, u8, i8, i16_le, u16_le, i32_le, u32_le, i64_le, u64_le, f32_le, f64_le, byte_img,
  sbyte_img, short_img, ushort_img, long_img, ulong_img, longlong_img, ulonglong_img, float_img,
  double_img, other_img, tbyte, tsbyte, tshort, tushort, tint, tuint, tlonglong, tulonglong, tfloat,
  tdouble, ImageType, Datatype, image_type,
}

-- Numbers without a sign, with one, and with a binary point, and the bytes of each: what the names of SPA and of
-- CFITSIO stand for.
pub data Kind : Type 0 where
  unsigned signed floating : Kind

abbrev pub image_form : ImageType → Option (Kind × ℕ)
image_form byte_img = some (unsigned, 1)
image_form sbyte_img = some (signed, 1)
image_form short_img = some (signed, 2)
image_form ushort_img = some (unsigned, 2)
image_form long_img = some (signed, 4)
image_form ulong_img = some (unsigned, 4)
image_form longlong_img = some (signed, 8)
image_form ulonglong_img = some (unsigned, 8)
image_form float_img = some (floating, 4)
image_form double_img = some (floating, 8)
image_form (other_img n) = none

abbrev pub element_form : ElementType → Kind × ℕ
element_form u8 = (unsigned, 1)
element_form i8 = (signed, 1)
element_form i16_le = (signed, 2)
element_form u16_le = (unsigned, 2)
element_form i32_le = (signed, 4)
element_form u32_le = (unsigned, 4)
element_form i64_le = (signed, 8)
element_form u64_le = (unsigned, 8)
element_form f32_le = (floating, 4)
element_form f64_le = (floating, 8)

abbrev pub datatype_form : Datatype → Kind × ℕ
datatype_form tbyte = (unsigned, 1)
datatype_form tsbyte = (signed, 1)
datatype_form tshort = (signed, 2)
datatype_form tushort = (unsigned, 2)
datatype_form tint = (signed, 4)
datatype_form tuint = (unsigned, 4)
datatype_form tlonglong = (signed, 8)
datatype_form tulonglong = (unsigned, 8)
datatype_form tfloat = (floating, 4)
datatype_form tdouble = (floating, 8)

-- An element type, a datatype and a size that stand for the numbers of an image of this type.
abbrev pub IsElement : ImageType → ElementType × Datatype × ℕ → Type 0
IsElement t (e, d, n) =
    (image_form t ≡ some (element_form e))
    × (datatype_form d ≡ element_form e)
    × (n ≡ (element_form e).1)

pub image_type-forms : (t : ImageType) → Ensures (IsElement t) (image_type t)
unfolding image_type
image_type-forms byte_img = (refl, refl, refl)
image_type-forms sbyte_img = (refl, refl, refl)
image_type-forms short_img = (refl, refl, refl)
image_type-forms ushort_img = (refl, refl, refl)
image_type-forms long_img = (refl, refl, refl)
image_type-forms ulong_img = (refl, refl, refl)
image_type-forms longlong_img = (refl, refl, refl)
image_type-forms ulonglong_img = (refl, refl, refl)
image_type-forms float_img = (refl, refl, refl)
image_type-forms double_img = (refl, refl, refl)
image_type-forms (other_img n) = tt
