-- ===== src/Source/Parameters/Formats.antt =====
-- The formats that the port of spa/plugins/fits/source.c offers (`build_ndarray_format`,
-- `build_video_format`) and those that it accepts (`validate_ndarray_format`, `validate_video_format`).
use pipewireao_spa_plugin_fi.Base.{
  ℕ, ◌≡◌, refl, sym, ap, ◌∙◌, inl, inr, Bool, Bool-cases, not, ◌&&◌, ◌||◌, true, false, Option,
  none, some, List, [], ◌∷◌, ◌==◌, get_elem?, arith,
}
use mathlib.Core.Path.{ap₂}
use pipewireao_spa_plugin_fi.Errno.{Result, ok}
use pipewireao_spa_plugin_fi.Rate.{Fraction}
use pipewireao_spa_plugin_fi.Pool
use pipewireao_spa_plugin_fi.Cube.{
  ElementType, u8, i8, i16_le, u16_le, i32_le, u32_le, i64_le, u64_le, f32_le, f64_le,
}
use pipewireao_spa_plugin_fi.Text.{same_text}
use pipewireao_spa_plugin_fi.Source.{
  Impl, Layout, row_major, column_major, other_layout, OutputKind, is_row,
}
use pipewireao_spa_plugin_fi.Source.Port.{
  PortId, is_port, NdarrayFormat, VideoFormat, Param, element_code, layout_code, same_rate,
  is_schema, offer, validate_ndarray, validate_video, negotiate, set_param,
}
use pipewireao_spa_plugin_fi.Source.Parameters.{Pod, ndarray_format, video_format, offer_video}

-- A pod as the two parsers of SPA read it.
unfoldable pub as_param : Pod → Param
as_param (ndarray_format f) = record { ndarray = some f; video = none }
as_param (video_format f) = record { ndarray = none; video = some f }
as_param _ = record { ndarray = none; video = none }

same_text_refl : (s : List ℕ) → same_text s s ≡ true
same_text_refl [] = refl
same_text_refl (c ∷ s) = ground (arith, same_text_refl s)

same_text-eq : (s t : List ℕ) → same_text s t ≡ true → s ≡ t
same_text-eq [] [] h = refl
same_text-eq [] (b ∷ t) h = cc
same_text-eq (a ∷ s) [] h = cc
same_text-eq (a ∷ s) (b ∷ t) h = ap₂ (λ c r. c ∷ r) (ground arith) (same_text-eq s t (ground arith))

-- The codes tell the element types and the layouts apart.
abbrev types : List ElementType
types = u8 ∷ i8 ∷ i16_le ∷ u16_le ∷ i32_le ∷ u32_le ∷ i64_le ∷ u64_le ∷ f32_le ∷ f64_le ∷ []

type-at_code : (t : ElementType) → get_elem? types (element_code t) ≡ some t
type-at_code u8 = refl
type-at_code i8 = refl
type-at_code i16_le = refl
type-at_code u16_le = refl
type-at_code i32_le = refl
type-at_code u32_le = refl
type-at_code i64_le = refl
type-at_code u64_le = refl
type-at_code f32_le = refl
type-at_code f64_le = refl

element_code-eq : (s t : ElementType) → (element_code s == element_code t) ≡ true → s ≡ t
element_code-eq s t h =
    let same : element_code s ≡ element_code t = ground arith in
    some-eq (sym (type-at_code s) ∙ ap (get_elem? types) same ∙ type-at_code t)
  where
    some-eq : {s t : ElementType} → ◌≡◌ {A = Option ElementType} (some s) (some t) → s ≡ t
    some-eq e = cc

layout_code-eq : (l m : Layout) → (layout_code l == layout_code m) ≡ true → l ≡ m
layout_code-eq row_major row_major h = refl
layout_code-eq row_major column_major h = cc
layout_code-eq row_major (other_layout n) h = ground arith
layout_code-eq column_major row_major h = cc
layout_code-eq column_major column_major h = refl
layout_code-eq column_major (other_layout n) h = ground arith
layout_code-eq (other_layout n) row_major h = ground arith
layout_code-eq (other_layout n) column_major h = ground arith
layout_code-eq (other_layout n) (other_layout m) h = ap other_layout (ground arith)

-- `f` says what `o` says; a vector has no second axis.
pub record SameFormat (o f : NdarrayFormat) : Type 0 where
  pub element_type : f.element_type ≡ o.element_type
  pub layout : f.layout ≡ o.layout
  pub rate : (f.rate.num ≡ o.rate.num) × (f.rate.denom ≡ o.rate.denom)
  pub n_dimensions : f.n_dimensions ≡ o.n_dimensions
  pub shape_0 : f.shape_0 ≡ o.shape_0
  pub shape_1 : o.n_dimensions ≡ 2 → f.shape_1 ≡ o.shape_1
  pub schema : f.schema ≡ o.schema

is_schema-eq : (schema : List ℕ) (t : Option (List ℕ)) → is_schema schema t ≡ true → t ≡ some schema
is_schema-eq schema none h = cc
is_schema-eq schema (some t) h = ap some (same_text-eq t schema h)

video-ext :
    (f : VideoFormat) {g : Bool} {w h : ℕ} {r : Fraction}
    → f.gray16_le ≡ g
    → f.width ≡ w
    → f.height ≡ h
    → f.framerate.num ≡ r.num
    → f.framerate.denom ≡ r.denom
    → f ≡ record { gray16_le = g; width = w; height = h; framerate = r }
video-ext f a b c d e = cc

module _ {Metas : Type 0} (self : Impl Metas) where
  offer-fields : ((offer self).rate ≡ self.output_rate) × ((offer self).schema ≡ some self.schema)
  unfolding offer
  offer-fields = (ground arith, ground arith)

  -- The comparison of a format with the one that is offered.
  abbrev agrees : NdarrayFormat → Bool
  agrees f =
      let o : NdarrayFormat = offer self in
      (element_code f.element_type == element_code o.element_type)
      && ((layout_code f.layout == layout_code o.layout)
          && (same_rate f.rate self.output_rate
              && ((f.n_dimensions == o.n_dimensions)
                  && ((f.shape_0 == o.shape_0)
                      && ((not (o.n_dimensions == 2) || (f.shape_1 == o.shape_1))
                          && is_schema self.schema f.schema)))))

  -- What `validate_ndarray_format` computes for itself is what `build_ndarray_format` offers.
  validate_ndarray-agrees : (f : NdarrayFormat) → validate_ndarray self (some f) ≡ agrees f
  unfolding validate_ndarray offer
  validate_ndarray-agrees f = elim (Bool-cases (is_row self)) [
    | inl e ↦ rw (e, validate_ndarray, offer) refl
    | inr e ↦ rw (e, validate_ndarray, offer) refl
  ]

  agrees-SameFormat : (f : NdarrayFormat) → agrees f ≡ true → SameFormat (offer self) f
  agrees-SameFormat f h = record {
    element_type = element_code-eq f.element_type (offer self).element_type (ground arith);
    layout = layout_code-eq f.layout (offer self).layout (ground arith);
    rate = (
      num-eq ∙ ap (λ r. r.num) (sym offer-fields.0),
      denom-eq ∙ ap (λ r. r.denom) (sym offer-fields.0),
    );
    n_dimensions = ground arith;
    shape_0 = ground arith;
    shape_1 = λ two. ground arith;
    schema = is_schema-eq self.schema f.schema (ground arith) ∙ sym offer-fields.1;
  }
    where
      num-eq : f.rate.num ≡ self.output_rate.num
      num-eq = ground arith

      denom-eq : f.rate.denom ≡ self.output_rate.denom
      denom-eq = ground arith

  pub validate_ndarray-SameFormat :
      (f : NdarrayFormat) → validate_ndarray self (some f) ≡ true → SameFormat (offer self) f
  validate_ndarray-SameFormat f h = agrees-SameFormat f (sym (validate_ndarray-agrees f) ∙ h)

  offer-rate : same_rate (offer self).rate self.output_rate ≡ true
  offer-rate = rw offer-fields.0 (ground arith)

  offer-schema : is_schema self.schema (offer self).schema ≡ true
  offer-schema = rw offer-fields.1 (same_text_refl self.schema)

  pub offer-valid : validate_ndarray self (some (offer self)) ≡ true
  offer-valid = validate_ndarray-agrees (offer self) ∙ ground (arith, offer-rate, offer-schema)

  pub offer_video-valid :
      is_row self ≡ false
      → self.cube_info.sample_rank ≡ 2
      → validate_video self (some (offer_video self)) ≡ true
  unfolding validate_video offer_video
  offer_video-valid off two = ground arith

  -- A video format that is accepted is the one that is offered.
  pub validate_video-offer :
      (f : VideoFormat)
      → validate_video self (some f) ≡ true
      → (f ≡ offer_video self) × (is_row self ≡ false) × (self.cube_info.sample_rank ≡ 2)
  unfolding validate_video offer_video
  validate_video-offer f h = (
    video-ext f (ground arith) (ground arith) (ground arith) (ground arith) (ground arith),
    ground arith,
    ground arith,
  )

  -- What a port has after a format was set.
  pub record IsNegotiated (kind : OutputKind) (r : Result (Unit {0}) × Impl Metas) : Type 0 where
    pub succeeded : r.0 ≡ ok tt
    pub output : r.1.output ≡ kind
    pub have_format : r.1.have_format ≡ true
    pub config : r.1.config ≡ self.config

  pub negotiated :
      (port : PortId) (p : Param) (kind : OutputKind)
      → is_port port ≡ true
      → self.started ≡ false
      → Pool.n_buffers self.pool ≡ 0
      → negotiate self p ≡ some kind
      → IsNegotiated kind (set_param self port true false (some p))
  unfolding set_param
  negotiated port p kind at off empty e = record {
    succeeded = ground arith;
    output = ground arith;
    have_format = ground arith;
    config = ground arith;
  }
