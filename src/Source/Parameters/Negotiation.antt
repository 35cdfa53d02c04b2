-- ===== src/Source/Parameters/Negotiation.antt =====
-- Setting a format on the port of spa/plugins/fits/source.c: just the formats that are offered can be set, and
-- the one that was set is reported.
use pipewireao_spa_plugin_fi.Base.{
  ℕ, zero, suc, ◌≡◌, refl, sym, ap, ◌⊎◌, inl, inr, Bool, true, false, not, ◌&&◌, Option, none, some,
  [], ◌∷◌, ◌==◌, if◌then◌else◌, get_elem?, arith,
}
use mathlib.Core.Path.{subst}
use pipewireao_spa_plugin_fi.Errno.{Result, ok}
use pipewireao_spa_plugin_fi.Pool
use pipewireao_spa_plugin_fi.Source.{Impl, output_ndarray, output_gray16, is_row}
use pipewireao_spa_plugin_fi.Source.Port.{
  PortId, is_port, NdarrayFormat, VideoFormat, Param, offer, validate_ndarray, validate_video,
  negotiate, set_param,
}
use pipewireao_spa_plugin_fi.Source.Parameters.{
  enum_format_id, format_id, Pod, ndarray_format, video_format, offer_video, chosen_format,
}
use pipewireao_spa_plugin_fi.Source.Parameters.Offered.{port_offered}
use pipewireao_spa_plugin_fi.Source.Parameters.Formats.{
  as_param, SameFormat, validate_ndarray-SameFormat, offer-valid, offer_video-valid,
  validate_video-offer, negotiated,
}

some-eq : {a b : Pod} → ◌≡◌ {A = Option Pod} (some a) (some b) → a ≡ b
some-eq e = cc

second-of :
    (b : Bool) (q pod : Pod)
    → get_elem? (if b then q ∷ [] else []) 0 ≡ some pod
    → (pod ≡ q) × (b ≡ true)
second-of true q pod h = (sym (some-eq h), refl)
second-of false q pod h = (cc, cc)

no-third :
    (b : Bool) (q pod : Pod) (i : ℕ) → get_elem? (if b then q ∷ [] else []) (suc i) ≡ some pod → ⊥
no-third true q pod i h = cc
no-third false q pod i h = cc

both-true : (a : Bool) (n : ℕ) → (not a && (n == 2)) ≡ true → (a ≡ false) × (n ≡ 2)
both-true a n h = (ground arith, ground arith)

-- What a parameter says, as its parser reads it.
abbrev pub Says : Param → Pod → Type 0
Says p (ndarray_format o) = (f : NdarrayFormat) × (p.ndarray ≡ some f) × SameFormat o f
Says p (video_format v) = p.video ≡ some v
Says p _ = ⊥

false-true : false ≡ true → ⊥
false-true e = cc

module _ {Metas : Type 0} where
  offer-config : (a b : Impl Metas) → a.config ≡ b.config → offer a ≡ offer b
  unfolding offer
  offer-config a b e = ap (λ c. offer (record b { config = c })) e

  offer_video-config : (a b : Impl Metas) → a.config ≡ b.config → offer_video a ≡ offer_video b
  unfolding offer_video
  offer_video-config a b e = ap (λ c. offer_video (record b { config = c })) e

  reported-ndarray :
      (self after : Impl Metas)
      → after.output ≡ output_ndarray
      → after.have_format ≡ true
      → after.config ≡ self.config
      → port_offered after format_id ≡ ndarray_format (offer self) ∷ []
  unfolding port_offered chosen_format offer
  reported-ndarray self after e f g =
      rw (f, e) (ap (λ o. ndarray_format o ∷ []) (offer-config after self g))

  reported-video :
      (self after : Impl Metas)
      → after.output ≡ output_gray16
      → after.have_format ≡ true
      → after.config ≡ self.config
      → port_offered after format_id ≡ video_format (offer_video self) ∷ []
  unfolding port_offered chosen_format offer_video
  reported-video self after e f g =
      rw (f, e) (ap (λ o. video_format o ∷ []) (offer_video-config after self g))

  module _ (self : Impl Metas) where
    negotiate-ndarray :
        negotiate self (as_param (ndarray_format (offer self))) ≡ some output_ndarray
    unfolding negotiate as_param
    negotiate-ndarray = rw (offer-valid self, negotiate) refl

    negotiate-video :
        is_row self ≡ false
        → self.cube_info.sample_rank ≡ 2
        → negotiate self (as_param (video_format (offer_video self))) ≡ some output_gray16
    unfolding negotiate as_param validate_ndarray
    negotiate-video off two = rw (offer_video-valid self off two, negotiate) refl

    offered-second :
        (pod : Pod)
        → get_elem? (port_offered self enum_format_id) 1 ≡ some pod
        → (pod ≡ video_format (offer_video self))
          × (is_row self ≡ false)
          × (self.cube_info.sample_rank ≡ 2)
    unfolding port_offered
    offered-second pod h =
        let (e, b) = second-of (not (is_row self) && (self.cube_info.sample_rank == 2)) _ pod h in
        let (frames, two) = both-true (is_row self) self.cube_info.sample_rank b in (e, frames, two)

    ndarray-valid :
        (p : Param)
        → negotiate self p ≡ some output_ndarray
        → validate_ndarray self p.ndarray ≡ true
    unfolding negotiate
    ndarray-valid p h = ground arith

    video-valid :
        (p : Param) → negotiate self p ≡ some output_gray16 → validate_video self p.video ≡ true
    unfolding negotiate
    video-valid p h = ground arith

    ndarray-says :
        (o : Option NdarrayFormat)
        → validate_ndarray self o ≡ true
        → (f : NdarrayFormat) × (o ≡ some f) × SameFormat (offer self) f
    unfolding validate_ndarray
    ndarray-says none h = absurd (false-true h)
    ndarray-says (some f) h = (f, refl, validate_ndarray-SameFormat self f h)

    video-says :
        (o : Option VideoFormat)
        → validate_video self o ≡ true
        → (o ≡ some (offer_video self)) × (is_row self ≡ false) × (self.cube_info.sample_rank ≡ 2)
    unfolding validate_video
    video-says none h = absurd (false-true h)
    video-says (some f) h =
        let (same, frames, two) = validate_video-offer self f h in (ap some same, frames, two)

    second-offered :
        is_row self ≡ false
        → self.cube_info.sample_rank ≡ 2
        → get_elem? (port_offered self enum_format_id) 1 ≡ some (video_format (offer_video self))
    unfolding port_offered
    second-offered off two = rw (off, two) refl

    module _ (port : PortId) where
      abbrev set_format : Param → Result (Unit {0}) × Impl Metas
      set_format p = set_param self port true false (some p)

      module _ (at : is_port port ≡ true) (off : self.started ≡ false)
          (empty : Pool.n_buffers self.pool ≡ 0) where
        set-ndarray :
            (p : Param)
            → negotiate self p ≡ some output_ndarray
            → ((set_format p).0 ≡ ok tt)
              × (port_offered (set_format p).1 format_id ≡ ndarray_format (offer self) ∷ [])
        set-ndarray p e =
            let v = negotiated self port p output_ndarray at off empty e in
            (v.succeeded, reported-ndarray self _ v.output v.have_format v.config)

        set-video :
            (p : Param)
            → negotiate self p ≡ some output_gray16
            → ((set_format p).0 ≡ ok tt)
              × (port_offered (set_format p).1 format_id ≡ video_format (offer_video self) ∷ [])
        set-video p e =
            let v = negotiated self port p output_gray16 at off empty e in
            (v.succeeded, reported-video self _ v.output v.have_format v.config)

        -- Every format that the port of a stopped source without buffers offers can be set, and is then the format
        -- that the port reports.
        pub offered-reported :
            (i : ℕ) (pod : Pod)
            → get_elem? (port_offered self enum_format_id) i ≡ some pod
            → ((set_format (as_param pod)).0 ≡ ok tt)
              × (port_offered (set_format (as_param pod)).1 format_id ≡ pod ∷ [])
        unfolding port_offered
        offered-reported zero pod h =
            subst
              (λ q.
                ((set_format (as_param q)).0 ≡ ok tt)
                × (port_offered (set_format (as_param q)).1 format_id ≡ q ∷ []))
              (some-eq h) (set-ndarray _ negotiate-ndarray)
        offered-reported (suc zero) pod h =
            let (e, frames, two) = offered-second pod h in
            subst
              (λ q.
                ((set_format (as_param q)).0 ≡ ok tt)
                × (port_offered (set_format (as_param q)).1 format_id ≡ q ∷ []))
              (sym e) (set-video _ (negotiate-video frames two))
        offered-reported (suc (suc i)) pod h =
            absurd (no-third (not (is_row self) && (self.cube_info.sample_rank == 2)) _ pod i h)

      set_format-allowed :
          (p : Param)
          → (set_format p).0 ≡ ok tt
          → (is_port port ≡ true)
            × (self.started ≡ false)
            × (Pool.n_buffers self.pool ≡ 0)
            × ((negotiate self p ≡ some output_ndarray) ⊎ (negotiate self p ≡ some output_gray16))
      unfolding set_param negotiate
      set_format-allowed p h = (ground arith, ground arith, ground arith, ground arith)

      -- The port takes a format only if it is stopped and without buffers, and if the parameter says what one of
      -- the offered formats says; that one is then the format that the port reports.
      pub accepted-offered :
          (p : Param)
          → (set_format p).0 ≡ ok tt
          → (i : ℕ) × (pod : Pod) × (get_elem? (port_offered self enum_format_id) i ≡ some pod)
            × (port_offered (set_format p).1 format_id ≡ pod ∷ [])
            × Says p pod
            × (self.started ≡ false)
            × (Pool.n_buffers self.pool ≡ 0)
      accepted-offered p h =
          let (at, off, empty, kind) = set_format-allowed p h in
          elim kind [
            | inl e ↦ (
              0,
              ndarray_format (offer self),
              unfold port_offered in refl,
              (set-ndarray at off empty p e).1,
              ndarray-says p.ndarray (ndarray-valid p e),
              off,
              empty,
            )
            | inr e ↦
                let (same, frames, two) = video-says p.video (video-valid p e) in
                (
                  1,
                  video_format (offer_video self),
                  second-offered frames two,
                  (set-video at off empty p e).1,
                  same,
                  off,
                  empty,
                )
          ]
